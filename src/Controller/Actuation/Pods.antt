-- ===== src/Controller/Actuation/Pods.antt =====
-- internal/controller/actuation.go: the loop of `actuate` over the pods of one workload.
pub mod Steps
pub mod Counted
pub mod Requests
use kubera.Base.{
  ℕ, suc, ◌+◌, ◌-◌, ◌==◌, Bool, true, false, ◌&&◌, ◌||◌, not, Option, none, some, String, List, [],
  ◌∷◌, ◌++◌, if◌then◌else◌,
}
use kubera.Go.Float64.{Float64}
use kubera.Go.Fmt.{Printer}
use kubera.Go.Time.{Time}
use kubera.Kube.Quantity.{Quantity}
use kubera.Kube.Objects.{ResourceList, Pod, PodPhase, EventType, normal, warning, Event}
use kubera.Api.{UpdateMode, DynamicResourceSpec}
use kubera.Actuator.Policy.{Direction, up, down, direction_name, Policy}
use kubera.Actuator.Plan.{PodPlan, plan_pod}
use kubera.Actuator.Oom.{oom_killed_containers, plan_oom_bump}
use kubera.Actuator.Recreate.{blocked_memory_shrink}
use kubera.Actuator.Cooldown.{CooldownTracker, allow}
use kubera.Controller.Gauges.{Counter, increment}
use kubera.Controller.Actuation.Messages.{evict_message, bump_message}
use kubera.Controller.Bounds.{max_memory_bounds}
use kubera.Actuator.Resizer.{Reply, done, rate_limited, failed, Cluster, apply, evict}
use kubera.Controller.Actuation.{cooldown_for, pod_resize_infeasible}

-- `actuationResult`.
pub record ActuationResult : Type 0 where
  pub resized : ℕ
  pub infeasible : List String
  pub recreate_blocked : Bool

-- A request that the API server accepted.
pub data Action (Q : Type 0) : Type 0 where
  evicted : String → Action Q
  bumped : PodPlan Q → Action Q
  resized : PodPlan Q → Action Q

-- What stays fixed while the pods of a workload are handled.
pub record Workload (Q S F : Type 0) : Type 0 where
  pub spec : DynamicResourceSpec Q S
  pub policy : Policy F
  pub targets : List (String × ResourceList Q)
  pub webhook_enabled : Bool
  pub cooldowns : CooldownTracker
  pub key : String
  pub now : Time
  pub namespace : String
  pub deployment : String
  pub printer : Printer

-- What changes: the eviction budget, the keys of `resizedDirections`, the result, the number of
-- requests made so far, the accepted ones, the newest first, the counter of resizes and the events.
pub record Pass (Q : Type 0) : Type 0 where
  pub budget : ℕ
  pub went_up : Bool
  pub went_down : Bool
  pub result : ActuationResult
  pub requests : ℕ
  pub actions : List (Action Q)
  pub resizes : Counter
  pub events : List Event

-- Going on in a loop, or the return of an error, with the state so far.
pub data Flow (A : Type 0) : Type 0 where
  next : A → Flow A
  stop : A → Flow A

abbrev pub state_of : {A : Type 0} → Flow A → A
state_of (next s) = s
state_of (stop s) = s

abbrev pub and_then : {A : Type 0} → Flow A → (A → Flow A) → Flow A
and_then (next s) rest = rest s
and_then (stop s) rest = stop s

abbrev is_running : PodPhase → Bool
is_running PodPhase.running = true
is_running _ = false

abbrev is_set : Option Time → Bool
is_set none = false
is_set (some t) = true

abbrev is_recreate : UpdateMode → Bool
is_recreate UpdateMode.in_place_or_recreate = true
is_recreate _ = false

-- The pods that the loop passes over.
abbrev pub is_skipped : {Q : Type 0} → Pod Q → Bool
is_skipped pod = is_set pod.deletion_timestamp || not (is_running pod.phase)

abbrev pub resize_labels : String → String → Direction → List String
resize_labels namespace deployment d = namespace ∷ deployment ∷ direction_name d ∷ []

abbrev add_resized : ActuationResult → ActuationResult
add_resized r = record r { resized = r.resized + 1 }

module _ {Q : Type 0} where
  -- `resizedDirections[d] = true`.
  abbrev pub mark : Direction → Pass Q → Pass Q
  mark up s = record s { went_up = true }
  mark down s = record s { went_down = true }

  abbrev pub asked : Pass Q → Pass Q
  asked s = record s { requests = s.requests + 1 }

  abbrev pub accepted : Action Q → Pass Q → Pass Q
  accepted a s = record s { result = add_resized s.result; actions = a ∷ s.actions }

  -- `resizesTotal.WithLabelValues(...).Inc()`.
  abbrev pub counted : String → String → Direction → Pass Q → Pass Q
  counted namespace deployment d s = record s {
    resizes = increment (resize_labels namespace deployment d) s.resizes;
  }

  abbrev pub emitted : EventType → String → String → Pass Q → Pass Q
  emitted kind reason note s = record s {
    events = s.events ++ record { kind = kind; reason = reason; note = note } ∷ [];
  }

module _ {Q S F : Type 0} where
  -- An eviction that is refused or throttled is left for the next pass.
  abbrev pub after_evict : Workload Q S F → Reply → String → Pass Q → Flow (Pass Q)
  after_evict w done pod s = next (
      emitted normal "PodEvictedForResize" (evict_message pod) (
        counted w.namespace w.deployment down
          (mark down (accepted (evicted pod) (asked (record s { budget = s.budget - 1 }))))))
  after_evict w rate_limited pod s = next (asked s)
  after_evict w failed pod s = next (asked s)

  -- A bump does not count toward the cooldowns.
  abbrev pub after_bump : Workload Q S F → List String → Reply → PodPlan Q → Pass Q → Flow (Pass Q)
  after_bump w killed done plan s = next (
      emitted warning "OOMFastPath" (bump_message w.printer plan.pod killed)
        (counted w.namespace w.deployment up (accepted (bumped plan) (asked s))))
  after_bump w killed rate_limited plan s = next (asked s)
  after_bump w killed failed plan s = stop (asked s)

  abbrev pub after_resize : Workload Q S F → Reply → PodPlan Q → Pass Q → Flow (Pass Q)
  after_resize w done plan s = next (
      counted w.namespace w.deployment plan.direction
        (accepted (Action.resized plan) (mark plan.direction (asked s))))
  after_resize w rate_limited plan s = next (asked s)
  after_resize w failed plan s = stop (asked s)

module _ {Q S F : Type 0} ⦃q : Quantity Q⦄ ⦃f : Float64 F⦄ where
  abbrev pub is_allowed : Workload Q S F → Direction → Bool
  is_allowed w d = allow w.cooldowns w.key d (cooldown_for w.spec d) w.now

  -- The fallback: evict, at most once, and only with the webhook to size the replacement.
  unfoldable pub recreate_step : Workload Q S F → Cluster Q → Pod Q → Pass Q → Pass Q
  recreate_step w cluster pod s =
      if not w.webhook_enabled
      then record s { result = record s.result { recreate_blocked = true } }
      else (if s.budget == 0 || not (is_allowed w down)
          then s
          else state_of (after_evict w (evict cluster s.requests w.namespace pod.name) pod.name s))

  abbrev planned_step : Workload Q S F → Cluster Q → Option (PodPlan Q) → Pass Q → Flow (Pass Q)
  planned_step w cluster none s = next s
  planned_step w cluster (some plan) s =
      if not (is_allowed w plan.direction)
      then next s
      else after_resize w (apply cluster s.requests w.namespace plan) plan s

  -- The regular resize.
  unfoldable pub resize_step : Workload Q S F → Cluster Q → Pod Q → Pass Q → Flow (Pass Q)
  resize_step w cluster pod s = planned_step w cluster (plan_pod pod w.targets w.policy) s

  abbrev bump_of : Workload Q S F → Pod Q → List String → Option (PodPlan Q)
  bump_of w pod [] = none
  bump_of w pod (name ∷ names) =
      plan_oom_bump pod (name ∷ names) (max_memory_bounds w.spec (name ∷ names)) w.policy

  abbrev bump_or_resize :
      Workload Q S F → Cluster Q → Pod Q → List String → Option (PodPlan Q) → Pass Q → Flow (Pass Q)
  bump_or_resize w cluster pod killed none s = resize_step w cluster pod s
  bump_or_resize w cluster pod killed (some plan) s =
      after_bump w killed (apply cluster s.requests w.namespace plan) plan s

  -- The fast path after an OOMKill, else the regular resize.
  unfoldable pub in_place_step : Workload Q S F → Cluster Q → Pod Q → Pass Q → Flow (Pass Q)
  in_place_step w cluster pod s =
      let killed = oom_killed_containers pod w.now in
      bump_or_resize w cluster pod killed (bump_of w pod killed) s

  -- `recreateMode && (podResizeInfeasible(pod) || BlockedMemoryShrink(pod, targets, policy))`.
  unfoldable pub needs_recreate : Workload Q S F → Pod Q → Bool
  needs_recreate w pod =
      is_recreate w.spec.update_mode
      && (pod_resize_infeasible pod.conditions || blocked_memory_shrink pod w.targets w.policy)

  -- The body of the loop.
  unfoldable pub pod_step : Workload Q S F → Cluster Q → Pod Q → Pass Q → Flow (Pass Q)
  pod_step w cluster pod s =
      if is_skipped pod
      then next s
      else (if needs_recreate w pod
          then next (recreate_step w cluster pod s)
          else (if pod_resize_infeasible pod.conditions
              then next (record s {
                result = record s.result { infeasible = s.result.infeasible ++ pod.name ∷ [] };
              })
              else in_place_step w cluster pod s))

  unfoldable pub pods_loop : Workload Q S F → Cluster Q → List (Pod Q) → Pass Q → Flow (Pass Q)
  pods_loop w cluster [] s = next s
  pods_loop w cluster (pod ∷ pods) s =
      and_then (pod_step w cluster pod s) (pods_loop w cluster pods)
