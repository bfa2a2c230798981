-- ===== src/Webhook/Owner.antt =====
-- internal/webhook/pod_webhook.go: `owningDeployment`, and `Default` with it.
pub mod Dash
pub mod Named
use kubera.Base.{Option, none, some, String, List, [], ◌∷◌, str_eq, if◌then◌else◌}
use kubera.Go.Float64.{Float64}
use kubera.Kube.Quantity.{Quantity}
use kubera.Kube.Objects.{Pod}
use kubera.Api.{UpdateMode, DynamicResourceStatus}
use kubera.Webhook.{Approximate, default_pod}
use kubera.Webhook.Owner.Dash.{before_last_dash, fallback}

pub record OwnerReference : Type 0 where
  pub kind : String
  pub name : String

abbrev pub or_next : Option String → Option String → Option String
or_next none next = next
or_next (some name) next = some name

-- The name of the first owner that is a Deployment.
unfoldable pub deployment_of : List OwnerReference → Option String
deployment_of [] = none
deployment_of (r ∷ rs) = if str_eq r.kind "Deployment" then some r.name else deployment_of rs

-- The owners of a ReplicaSet of the namespace, `none` for an error.
abbrev pub ReplicaSets : Type 0
ReplicaSets = String → Option (List OwnerReference)

-- What a reference to a ReplicaSet gives, given what the later ones give.
abbrev pub resolve : String → Option (List OwnerReference) → Option String → Option String
resolve name none later = fallback (before_last_dash name)
resolve name (some owners) later = or_next (deployment_of owners) later

-- `none` is an error, and the empty name stands for no owner.
unfoldable pub owning_deployment : ReplicaSets → List OwnerReference → Option String
unfolding before_last_dash deployment_of
owning_deployment sets [] = some ""
owning_deployment sets (r ∷ rs) =
    let later = owning_deployment sets rs in
    if str_eq r.kind "ReplicaSet" then resolve r.name (sets r.name) later else later

-- The owner that `Default` goes on with.
unfoldable pub owner_of : Option String → Option String
owner_of none = none
owner_of (some name) = if str_eq name "" then none else some name

-- `Default`, where `objects` is what listing the namespace gives.
unfoldable pub default_new_pod :
    {Q F : Type 0} ⦃q : Quantity Q⦄ ⦃f : Float64 F⦄
    → Approximate Q F
    → ReplicaSets
    → List OwnerReference
    → List (UpdateMode × DynamicResourceStatus Q)
    → Pod Q
    → Pod Q
unfolding owning_deployment owner_of
default_new_pod a sets owners objects pod =
    default_pod a (owner_of (owning_deployment sets owners)) objects pod
