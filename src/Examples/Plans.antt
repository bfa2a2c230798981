-- ===== src/Examples/Plans.antt =====
-- Plans for one pod.
use kubera.Base.{
  ◌≡◌, ◌≢◌, ◌↔◌, refl, ℤ, pos, ◌≤ℤ◌, some, String, List, [], ◌∷◌, All, Among, if◌then◌else◌,
}
use kubera.Go.Int64.{add64, sub64, mul64}
use kubera.Actuator.Clamp.{step_clamp, within_tolerance}
use kubera.Go.Float64.Fixed.{fixed_float64}
use kubera.Kube.Quantity.Milli.{Milli, milli_quantity}
use kubera.Kube.Objects.{ResourceList, guaranteed, best_effort}
use kubera.Api.{requests_and_limits}
use kubera.Actuator.Policy.{up, down}
use kubera.Actuator.Qos.{qos_class, is_guaranteed, qos_loop}
use kubera.Actuator.Qos.Derived.{IsPinned, qos_class-guaranteed_iff}
use kubera.Actuator.Plan.{PodPlan, plan_limits, plan_pod, plan_loop, plan_container, scale_limit}
use kubera.Actuator.Plan.Limits.{IsPinnedChange, plan_limits-memory_kept}
use kubera.Actuator.Plan.Pods.{planned, changes_of, grows_any, plan_pod_lem, plan_pod-pinned}
use kubera.Examples.{bytes, list_of, web, pinned_web, pod_of, policy_of}

-- 1500 bytes keep the ratio of 2, and 500 bytes would lower the limit.
plan_limits-memory_kept_example :
    (n : ℤ) × (some (bytes 2000) ≡ some (milli_quantity.new_quantity n)) × (pos 2000 ≤ℤ n)
unfolding plan_limits scale_limit
plan_limits-memory_kept_example =
    plan_limits-memory_kept web (pos 100) (pos 500) (policy_of requests_and_limits)
      {l = list_of 200 2000} refl refl

-- One step up of 50 percent in both resources.
abbrev step_up : PodPlan Milli
step_up = record {
  pod = "web-1";
  changes =
      record { name = "web"; requests = list_of 150 1500; limits = some (list_of 300 3000) } ∷ [];
  direction = up;
}

abbrev wanted : List (String × ResourceList Milli)
wanted = ("web", list_of 1000 5000) ∷ []

plan_pod_lem_example :
    let all =
      planned
        (web ∷ [])
        wanted
        (policy_of requests_and_limits)
        (is_guaranteed (qos_class (pod_of web))) in
    (qos_class (pod_of web) ≢ best_effort)
    × (step_up.pod ≡ "web-1")
    × (step_up.changes ≢ [])
    × (step_up.changes ≡ changes_of all)
    × (step_up.direction ≡ (if grows_any all then up else down))
unfolding plan_pod plan_loop plan_container plan_limits qos_class qos_loop within_tolerance sub64
    step_clamp add64 mul64 scale_limit
plan_pod_lem_example =
    plan_pod_lem (pod_of web) wanted (policy_of requests_and_limits) {plan = step_up} refl

-- The same step of a Guaranteed pod pins the limits.
abbrev pinned_up : PodPlan Milli
pinned_up = record {
  pod = "web-1";
  changes =
      record { name = "web"; requests = list_of 150 1500; limits = some (list_of 150 1500) } ∷ [];
  direction = up;
}

plan_pod-pinned_example :
    All (λ change. Among (IsPinnedChange change) (pinned_web ∷ [])) pinned_up.changes
unfolding plan_pod plan_loop plan_container plan_limits qos_class qos_loop within_tolerance sub64
    step_clamp add64 mul64
plan_pod-pinned_example =
    plan_pod-pinned (pod_of pinned_web) wanted (policy_of requests_and_limits) {plan = pinned_up}
      refl refl

qos_class-guaranteed_iff_example :
    (qos_class (pod_of pinned_web) ≡ guaranteed)
    ↔ ((pinned_web ∷ [] ≢ []) × All IsPinned (pinned_web ∷ []))
qos_class-guaranteed_iff_example = qos_class-guaranteed_iff (pod_of pinned_web) refl
