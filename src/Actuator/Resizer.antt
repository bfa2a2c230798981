-- ===== src/Actuator/Resizer.antt =====
-- internal/actuator/resizer.go and recreate.go: the requests of `Resizer`. The rate limiter, the JSON
-- encoder and the API server are the fields of `Cluster`.
use kubera.Base.{
  ℕ, Bool, true, false, not, Option, none, some, String, List, [], ◌∷◌, if◌then◌else◌,
}
use kubera.Kube.Objects.{ResourceList}
use kubera.Actuator.Plan.{ContainerChange, PodPlan}

-- The error of a request: none, `ErrRateLimited`, or another one.
pub data Reply : Type 0 where
  done rate_limited failed : Reply

-- The resources of a container in the patch of a pod's spec.
pub record ContainerPatch (Q : Type 0) : Type 0 where
  pub name : String
  pub requests : ResourceList Q
  pub limits : Option (ResourceList Q)

-- The rate limiter, where there is one, and the API server, as the answers to the successive
-- requests of a pass, each for a namespace and a pod.
pub record Cluster (Q : Type 0) : Type 0 where
  pub limiter : Option (ℕ → Bool)
  -- `json.Marshal` of a patch with these containers, `none` for its error.
  pub marshal : List (ContainerPatch Q) → Option String
  pub patch_resize : ℕ → String → String → String → Bool
  pub create_eviction : ℕ → String → String → Bool

abbrev is_throttled : Option (ℕ → Bool) → ℕ → Bool
is_throttled none n = false
is_throttled (some allows) n = not (allows n)

abbrev answer : Bool → Reply
answer true = done
answer false = failed

-- The loop over the plan's changes.
unfoldable pub container_patches : {Q : Type 0} → List (ContainerChange Q) → List (ContainerPatch Q)
container_patches [] = []
container_patches (c ∷ cs) =
    record { name = c.name; requests = c.requests; limits = c.limits } ∷ container_patches cs

module _ {Q : Type 0} (cluster : Cluster Q) where
  abbrev send_patch : ℕ → String → String → Option String → Reply
  send_patch n namespace pod none = failed
  send_patch n namespace pod (some patch) = answer (cluster.patch_resize n namespace pod patch)

  -- `Apply`, as the n-th request.
  unfoldable pub apply : ℕ → String → PodPlan Q → Reply
  unfolding container_patches
  apply n namespace plan =
      if is_throttled cluster.limiter n
      then rate_limited
      else send_patch n namespace plan.pod (cluster.marshal (container_patches plan.changes))

  -- `Evict`, as the n-th request.
  unfoldable pub evict : ℕ → String → String → Reply
  evict n namespace pod =
      if is_throttled cluster.limiter n
      then rate_limited
      else answer (cluster.create_eviction n namespace pod)
