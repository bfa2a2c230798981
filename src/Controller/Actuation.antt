-- ===== src/Controller/Actuation.antt =====
-- internal/controller/actuation.go: the small functions of an actuation pass.
pub mod Messages
pub mod Pods
pub mod Targets
pub mod Pass
use kubera.Base.{
  ℕ, ◌*◌, Bool, true, false, ◌&&◌, ◌||◌, not, Option, none, some, String, List, [], ◌∷◌, lookup,
  str_eq, if◌then◌else◌, pos,
}
use kubera.Go.Time.{Duration, minute}
use kubera.Kube.Objects.{PodCondition}
use kubera.Api.{
  ScalingPolicy, BehaviorSpec, DynamicResourceSpec, ContainerRecommendation, WorkloadRecommendation,
}
use kubera.Actuator.Policy.{Direction, up, down}

-- The condition of a pending resize that the node can not fit.
unfoldable pub pod_resize_infeasible : List PodCondition → Bool
pod_resize_infeasible [] = false
pod_resize_infeasible (c ∷ cs) =
    str_eq c.kind "PodResizePending" && str_eq c.reason "Infeasible" || pod_resize_infeasible cs

abbrev default_cooldown : Direction → Duration
default_cooldown up = pos (2 * minute)
default_cooldown down = pos (10 * minute)

abbrev scaling_of : Direction → BehaviorSpec → Option ScalingPolicy
scaling_of up b = b.scale_up
scaling_of down b = b.scale_down

abbrev cooldown_or : Duration → Option Duration → Duration
cooldown_or default none = default
cooldown_or default (some d) = d

abbrev cooldown_of : Duration → Option ScalingPolicy → Duration
cooldown_of default none = default
cooldown_of default (some s) = cooldown_or default s.cooldown

abbrev behavior_cooldown : Direction → Option BehaviorSpec → Duration
behavior_cooldown d none = default_cooldown d
behavior_cooldown d (some b) = cooldown_of (default_cooldown d) (scaling_of d b)

unfoldable pub cooldown_for : {Q S : Type 0} → DynamicResourceSpec Q S → Direction → Duration
cooldown_for spec d = behavior_cooldown d spec.behavior

module _ {Q : Type 0} where
  abbrev mark_containers : List (ContainerRecommendation Q) → List (ContainerRecommendation Q)
  mark_containers [] = []
  mark_containers (c ∷ cs) = record c { applied = c.target } ∷ mark_containers cs

  abbrev pub is_listed : String → List (WorkloadRecommendation Q) → Bool
  is_listed workload [] = false
  is_listed workload (r ∷ rs) = str_eq r.workload workload || is_listed workload rs

  -- The status' recommendations, given those that the pass worked on.
  unfoldable pub mark_applied :
      List (WorkloadRecommendation Q)
      → List (WorkloadRecommendation Q)
      → List (WorkloadRecommendation Q)
  mark_applied recs [] = []
  mark_applied recs (w ∷ ws) =
      let rest = mark_applied recs ws in
      if is_listed w.workload recs
      then record w { containers = mark_containers w.containers } ∷ rest
      else w ∷ rest
