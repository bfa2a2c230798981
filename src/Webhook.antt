-- ===== src/Webhook.antt =====
-- internal/webhook/pod_webhook.go: the recommendation that a new pod gets at admission. The
-- deployment that owns the pod, and the objects of the namespace, are arguments.
pub mod Applied
pub mod Owner
pub mod Coordinated
pub mod Replaced
pub mod Settled
pub mod Sized
use Prim.Native.Nat.{Ordering}
use kubera.Base.{
  Bool, true, false, ◌&&◌, ◌||◌, Option, none, some, String, List, [], ◌∷◌, str_eq, lookup, insert,
  if◌then◌else◌,
}
use kubera.Go.Float64.{Float64}
use kubera.Kube.Quantity.{Quantity}
use kubera.Kube.Objects.{ResourceName, cpu, memory, ResourceList, Container, Pod, index, get}
use kubera.Api.{UpdateMode, DynamicResourceStatus, ContainerRecommendation, WorkloadRecommendation}
use kubera.Actuator.Qos.{has_entries, is_equal}

-- `q.AsApproximateFloat64()`.
pub record Approximate (Q F : Type 0) : Type 0 where
  pub to_float : Q → F

-- `l[name] = a`.
abbrev pub put : {Q : Type 0} → ResourceName → Q → ResourceList Q → ResourceList Q
put cpu a l = record l { cpu = some a }
put memory a l = record l { memory = some a }

-- The same in a map that a read of `name` has shown not to be nil.
abbrev pub put_in :
    {Q : Type 0} → ResourceName → Q → Option (ResourceList Q) → Option (ResourceList Q)
put_in name a none = none
put_in name a (some l) = some (put name a l)

abbrev pub is_off : UpdateMode → Bool
is_off UpdateMode.off = true
is_off UpdateMode.unset = true
is_off _ = false

module _ {Q : Type 0} where
  -- `if len(c.Target) > 0 { out[c.ContainerName] = c.Target }`.
  abbrev pub container_targets :
      List (ContainerRecommendation Q)
      → List (String × ResourceList Q)
      → List (String × ResourceList Q)
  container_targets [] out = out
  container_targets (c ∷ cs) out =
      container_targets cs
        (if has_entries (some c.target) then insert c.container_name c.target out else out)

  -- `if len(out) > 0 { return out }`.
  abbrev pub or_later :
      List (String × ResourceList Q)
      → Option (List (String × ResourceList Q))
      → Option (List (String × ResourceList Q))
  or_later [] later = later
  or_later (entry ∷ out) later = some (entry ∷ out)

  unfoldable pub find_in_status :
      String → List (WorkloadRecommendation Q) → Option (List (String × ResourceList Q))
  find_in_status deployment [] = none
  find_in_status deployment (r ∷ rs) =
      let later = find_in_status deployment rs in
      if str_eq r.workload deployment
      then or_later (container_targets r.containers []) later
      else later

  abbrev pub or_else :
      Option (List (String × ResourceList Q))
      → Option (List (String × ResourceList Q))
      → Option (List (String × ResourceList Q))
  or_else none later = later
  or_else (some out) later = some out

  -- `findRecommendation`, over the update modes and the statuses of the listed objects.
  unfoldable pub find_targets :
      List (UpdateMode × DynamicResourceStatus Q) → String → Option (List (String × ResourceList Q))
  find_targets [] deployment = none
  find_targets ((mode, status) ∷ rest) deployment =
      let later = find_targets rest deployment in
      if is_off mode
      then later
      else or_else (find_in_status deployment status.recommendations) later

module _ {Q F : Type 0} ⦃q : Quantity Q⦄ ⦃f : Float64 F⦄ (a : Approximate Q F) where
  -- The new limit: the target if limit and request agree, else in the same ratio.
  abbrev pub new_limit : Q → Q → Q → Q
  new_limit cur_lim cur_req new_req =
      if is_equal (q.cmp cur_lim cur_req)
      then new_req
      else q.new_milli (
          f.to_int (
            f.mul (f.mul (a.to_float new_req) (f.div (a.to_float cur_lim) (a.to_float cur_req)))
              (f.decimal 1000 0)))

  abbrev pub set_limit : ResourceName → Option Q → Q → Q → Container Q → Container Q
  set_limit name none cur_req new_req c = c
  set_limit name (some cur_lim) cur_req new_req c = record c {
    limits = put_in name (new_limit cur_lim cur_req new_req) c.limits;
  }

  abbrev set_request : ResourceName → Q → Container Q → Container Q
  set_request name new_req c = record c { requests = put_in name new_req c.requests }

  abbrev with_request : ResourceName → Option Q → Q → Container Q → Container Q
  with_request name none new_req c = c
  with_request name (some cur_req) new_req c =
      if q.is_zero cur_req
      then c
      else set_request name new_req (set_limit name (index name c.limits) cur_req new_req c)

  -- The body of the loop over the two resources.
  abbrev pub apply_resource : ResourceName → Option Q → Container Q → Container Q
  apply_resource name none c = c
  apply_resource name (some new_req) c = with_request name (index name c.requests) new_req c

  unfoldable pub apply_target : Container Q → ResourceList Q → Container Q
  apply_target c target = apply_resource memory target.memory (apply_resource cpu target.cpu c)

  -- A container without requests is left as it is.
  abbrev pub with_target : Option (ResourceList Q) → Container Q → ResourceList Q → Container Q
  with_target none c target = c
  with_target (some requests) c target = apply_target c target

  abbrev pub inject_one : Container Q → Option (ResourceList Q) → Container Q
  inject_one c none = c
  inject_one c (some target) = with_target c.requests c target

  unfoldable pub inject_containers :
      List (Container Q) → List (String × ResourceList Q) → List (Container Q)
  inject_containers [] targets = []
  inject_containers (c ∷ cs) targets =
      inject_one c (lookup c.name targets) ∷ inject_containers cs targets

  abbrev pub inject_found : Pod Q → Option (List (String × ResourceList Q)) → Pod Q
  inject_found pod none = pod
  inject_found pod (some targets) = record pod {
    containers = inject_containers pod.containers targets;
  }

  -- `Default`, where the owner is `none` if it is not a deployment or can not be resolved.
  unfoldable pub default_pod :
      Option String → List (UpdateMode × DynamicResourceStatus Q) → Pod Q → Pod Q
  default_pod none objects pod = pod
  default_pod (some deployment) objects pod = inject_found pod (find_targets objects deployment)
