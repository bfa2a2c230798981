-- ===== src/Controller/Watches.antt =====
-- internal/controller/dynamicresource_controller.go: the requests that an event of a Deployment or
-- of an autoscaler leads to. `items` is what listing the event's namespace gives.
pub mod Claimed
use kubera.Base.{Option, none, some, String, List, [], ◌∷◌, if◌then◌else◌}
use kubera.Api.{DynamicResource}
use kubera.Controller.Conflicts.{Selectors, claims}
use kubera.Controller.Reconcile.{managed_of}

-- `ctrl.Request`.
pub record Request : Type 0 where
  pub namespace : String
  pub name : String

module _ {Q S : Type 0} where
  abbrev pub request_of : DynamicResource Q S → Request
  request_of dr = record { namespace = dr.namespace; name = dr.name }

  abbrev pub requests_of : List (DynamicResource Q S) → List Request
  requests_of [] = []
  requests_of (dr ∷ drs) = request_of dr ∷ requests_of drs

  unfoldable pub map_namespace : Option (List (DynamicResource Q S)) → List Request
  map_namespace none = []
  map_namespace (some items) = requests_of items

  module _ {P L : Type 0} (sel : Selectors S P L) (labels : L) where
    unfoldable pub claiming : List (DynamicResource Q S) → List Request
    claiming [] = []
    claiming (dr ∷ drs) =
        let rest = claiming drs in
        if claims sel (managed_of dr) labels then request_of dr ∷ rest else rest

    unfoldable pub map_deployment : Option (List (DynamicResource Q S)) → List Request
    unfolding claiming
    map_deployment none = []
    map_deployment (some items) = claiming items

-- The events that the manager hands on, by the kind of the object.
pub data Watched (L : Type 0) : Type 0 where
  a_resource : Request → Watched L
  a_deployment : String → L → Watched L
  an_autoscaler : String → Watched L

-- `SetupWithManager`: the requests of an event, over what listing a namespace gives.
unfoldable pub requests_for :
    {Q S P L : Type 0}
    → Selectors S P L
    → (String → Option (List (DynamicResource Q S)))
    → Watched L
    → List Request
unfolding map_deployment map_namespace
requests_for sel listing (a_resource request) = request ∷ []
requests_for sel listing (a_deployment namespace labels) =
    map_deployment sel labels (listing namespace)
requests_for sel listing (an_autoscaler namespace) = map_namespace (listing namespace)
