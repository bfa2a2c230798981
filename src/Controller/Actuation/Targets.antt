-- ===== src/Controller/Actuation/Targets.antt =====
-- internal/controller/actuation.go: the maps that `actuate` builds over the recommendations. A
-- target's map is shared with the status (a Go map is a reference), so that what `coordinateHPA`
-- assigns is written back to the recommendation; names are unique in both lists of a
-- recommendation.
pub mod Shared
pub mod Found
use kubera.Base.{
  Bool, Option, none, some, String, List, [], ◌∷◌, str_eq, lookup, insert, if◌then◌else◌,
}
use kubera.Kube.Objects.{ResourceList}
use kubera.Api.{ContainerRecommendation, WorkloadRecommendation}

module _ {Q : Type 0} where
  -- `recByWorkload[name]`: the last one of the name.
  abbrev pub or_this :
      Option (WorkloadRecommendation Q)
      → Bool
      → WorkloadRecommendation Q
      → Option (WorkloadRecommendation Q)
  or_this (some later) same r = some later
  or_this none same r = if same then some r else none

  unfoldable pub find_recommendation :
      String → List (WorkloadRecommendation Q) → Option (WorkloadRecommendation Q)
  find_recommendation name [] = none
  find_recommendation name (r ∷ rs) =
      or_this (find_recommendation name rs) (str_eq r.workload name) r

  -- `targets[c.ContainerName] = c.Target`.
  unfoldable pub targets_of :
      List (ContainerRecommendation Q)
      → List (String × ResourceList Q)
      → List (String × ResourceList Q)
  targets_of [] targets = targets
  targets_of (c ∷ cs) targets = targets_of cs (insert c.container_name c.target targets)

  -- Which of these maps are nil.
  unfoldable pub nil_targets_of :
      List (ContainerRecommendation Q) → List (String × Bool) → List (String × Bool)
  nil_targets_of [] nils = nils
  nil_targets_of (c ∷ cs) nils = nil_targets_of cs (insert c.container_name c.is_nil_target nils)

  abbrev pub target_or : Option (ResourceList Q) → ResourceList Q → ResourceList Q
  target_or none target = target
  target_or (some target) _ = target

  abbrev pub share_containers :
      List (String × ResourceList Q)
      → List (ContainerRecommendation Q)
      → List (ContainerRecommendation Q)
  share_containers targets [] = []
  share_containers targets (c ∷ cs) =
      record c { target = target_or (lookup c.container_name targets) c.target }
      ∷ share_containers targets cs

  -- The assignments to the shared maps, as the status sees them.
  unfoldable pub share_targets :
      String
      → List (String × ResourceList Q)
      → List (WorkloadRecommendation Q)
      → List (WorkloadRecommendation Q)
  share_targets name targets [] = []
  share_targets name targets (r ∷ rs) =
      let rest = share_targets name targets rs in
      if str_eq r.workload name
      then record r { containers = share_containers targets r.containers } ∷ rest
      else r ∷ rest
