-- ===== src/Controller/Actuation/Pods/Steps.antt =====
-- internal/controller/actuation.go: what the loop over a workload's pods does to them.
use kubera.Base.{
  ℕ, suc, ◌+◌, ◌-◌, ◌==◌, ◌≡◌, refl, ◌||◌, Bool, arith, true, false, some, String, List, [], ◌∷◌,
  Bool-cases, Option-cases, inl, inr,
}
use kubera.Go.Float64.{Float64}
use kubera.Kube.Quantity.{Quantity}
use kubera.Kube.Objects.{Pod}
use kubera.Actuator.Cooldown.Laws.{same_direction}
use kubera.Actuator.Policy.{Direction, up, down}
use kubera.Actuator.Plan.{PodPlan, plan_pod}
use kubera.Actuator.Oom.{oom_killed_containers}
use kubera.Controller.Gauges.{increment}
use kubera.Actuator.Resizer.{Reply, done, rate_limited, failed, Cluster, apply, evict}
use kubera.Controller.Actuation.{pod_resize_infeasible}
use kubera.Controller.Actuation.Pods.{
  Action, evicted, bumped, Workload, Pass, state_of, is_skipped, asked, mark, resize_labels,
  after_evict, after_bump, after_resize, is_allowed, recreate_step, resize_step, in_place_step,
  needs_recreate, pod_step, bump_of,
}

abbrev pub evictions : {Q : Type 0} → List (Action Q) → ℕ
evictions [] = 0
evictions (evicted pod ∷ rest) = suc (evictions rest)
evictions (bumped plan ∷ rest) = evictions rest
evictions (Action.resized plan ∷ rest) = evictions rest

abbrev pub of_direction : {A : Type 0} → Direction → A → A → A
of_direction up a b = a
of_direction down a b = b

-- `resizedDirections[d]`.
abbrev pub flag : {Q : Type 0} → Direction → Pass Q → Bool
flag d s = of_direction d s.went_up s.went_down

-- The directions that the cooldowns are recorded for.
abbrev pub acts_in : {Q : Type 0} → Direction → Action Q → Bool
acts_in d (evicted pod) = same_direction d down
acts_in d (bumped plan) = false
acts_in d (Action.resized plan) = same_direction d plan.direction

-- The direction that `resizesTotal` counts a request under.
abbrev pub counted_in : {Q : Type 0} → Action Q → Direction
counted_in (evicted pod) = down
counted_in (bumped plan) = up
counted_in (Action.resized plan) = plan.direction

budget-pos : (n : ℕ) → n == 0 ≡ false → 1 + (n - 1) ≡ n
budget-pos n h = ground arith

mark-same :
    {Q : Type 0} (d : Direction) (s : Pass Q)
    → ((mark d s).actions ≡ s.actions)
      × ((mark d s).result ≡ s.result)
      × ((mark d s).budget ≡ s.budget)
      × ((mark d s).resizes ≡ s.resizes)
mark-same up s = (refl, refl, refl, refl)
mark-same down s = (refl, refl, refl, refl)

mark-flag :
    {Q : Type 0} (d e : Direction) (s : Pass Q)
    → flag e (mark d s) ≡ (flag e s || same_direction e d)
mark-flag up up s = ground arith
mark-flag up down s = ground arith
mark-flag down up s = ground arith
mark-flag down down s = ground arith

pub or_false : (b : Bool) → b ≡ (b || false)
or_false b = ground arith

module _ {Q S F : Type 0} ⦃q : Quantity Q⦄ ⦃f : Float64 F⦄ where
  -- Why the pass may do this to the pod.
  abbrev pub IsJustified : Workload Q S F → Pod Q → Action Q → Type 0
  IsJustified w pod (evicted name) =
      (name ≡ pod.name)
      × (w.webhook_enabled ≡ true)
      × (needs_recreate w pod ≡ true)
      × (is_allowed w down ≡ true)
  IsJustified w pod (bumped plan) =
      (needs_recreate w pod ≡ false)
      × (pod_resize_infeasible pod.conditions ≡ false)
      × (bump_of w pod (oom_killed_containers pod w.now) ≡ some plan)
  IsJustified w pod (Action.resized plan) =
      (needs_recreate w pod ≡ false)
      × (pod_resize_infeasible pod.conditions ≡ false)
      × (plan_pod pod w.targets w.policy ≡ some plan)
      × (is_allowed w plan.direction ≡ true)

  -- One pod is left alone, or there is one accepted request more, which counts as a resize and
  -- takes from the budget if it is an eviction, and the direction it counts for is noted.
  pub data Handled (w : Workload Q S F) (pod : Pod Q) (s after : Pass Q) : Type 0 where
    idle :
        after.actions ≡ s.actions
        → after.result.resized ≡ s.result.resized
        → after.budget ≡ s.budget
        → ((d : Direction) → flag d after ≡ flag d s)
        → after.resizes ≡ s.resizes
        → Handled w pod s after
    acted :
        (a : Action Q)
        → after.actions ≡ a ∷ s.actions
        → after.result.resized ≡ s.result.resized + 1
        → evictions (a ∷ []) + after.budget ≡ s.budget
        → ((d : Direction) → flag d after ≡ (flag d s || acts_in d a))
        → after.resizes
          ≡ increment (resize_labels w.namespace w.deployment (counted_in a)) s.resizes
        → is_skipped pod ≡ false
        → IsJustified w pod a
        → Handled w pod s after

  Handled-id : (w : Workload Q S F) (pod : Pod Q) (s : Pass Q) → Handled w pod s s
  Handled-id w pod s = idle refl refl refl (λ d. refl) refl

  after_evict-Handled :
      (w : Workload Q S F) (pod : Pod Q) (s : Pass Q) (reply : Reply)
      → s.budget == 0 ≡ false
      → is_skipped pod ≡ false
      → w.webhook_enabled ≡ true
      → needs_recreate w pod ≡ true
      → is_allowed w down ≡ true
      → Handled w pod s (state_of (after_evict w reply pod.name s))
  after_evict-Handled w pod s done left seen webhook needs allowed =
      acted (evicted pod.name) refl refl (budget-pos s.budget left) (λ d. mark-flag down d s) refl
        seen (refl, webhook, needs, allowed)
  after_evict-Handled w pod s rate_limited left seen webhook needs allowed =
      idle refl refl refl (λ d. refl) refl
  after_evict-Handled w pod s failed left seen webhook needs allowed =
      idle refl refl refl (λ d. refl) refl

  recreate_step-Handled :
      (w : Workload Q S F) (cluster : Cluster Q) (pod : Pod Q) (s : Pass Q)
      → is_skipped pod ≡ false
      → needs_recreate w pod ≡ true
      → Handled w pod s (recreate_step w cluster pod s)
  unfolding recreate_step
  recreate_step-Handled w cluster pod s seen needs = elim (Bool-cases w.webhook_enabled) [
    | inr off ↦ simp off (idle refl refl refl (λ d. refl) refl)
    | inl on ↦ elim (Bool-cases (s.budget == 0)) [
      | inl spent ↦ simp (on, spent) (Handled-id w pod s)
      | inr left ↦ elim (Bool-cases (is_allowed w down)) [
        | inr held ↦ simp (on, left, held) (Handled-id w pod s)
        | inl free ↦
            simp (on, left, free)
              (after_evict-Handled w pod s (evict cluster s.requests w.namespace pod.name) left seen
                on needs free)
      ]
    ]
  ]

  after_bump-Handled :
      (w : Workload Q S F) (pod : Pod Q) (s : Pass Q) (killed : List String) (reply : Reply)
      (plan : PodPlan Q)
      → is_skipped pod ≡ false
      → IsJustified w pod (bumped plan)
      → Handled w pod s (state_of (after_bump w killed reply plan s))
  after_bump-Handled w pod s killed done plan seen why =
      acted (bumped plan) refl refl (omega arith) (λ d. or_false (flag d s)) refl seen why
  after_bump-Handled w pod s killed rate_limited plan seen why =
      idle refl refl refl (λ d. refl) refl
  after_bump-Handled w pod s killed failed plan seen why = idle refl refl refl (λ d. refl) refl

  after_resize-Handled :
      (w : Workload Q S F) (pod : Pod Q) (s : Pass Q) (reply : Reply) (plan : PodPlan Q)
      → is_skipped pod ≡ false
      → IsJustified w pod (Action.resized plan)
      → Handled w pod s (state_of (after_resize w reply plan s))
  after_resize-Handled w pod s done plan seen why =
      let (actions_eq, result_eq, budget_eq, resizes_eq) = mark-same plan.direction (asked s) in
      acted (Action.resized plan) (rw actions_eq refl) (rw result_eq refl)
        (rw budget_eq (omega arith)) (λ d. mark-flag plan.direction d (asked s))
        (rw resizes_eq refl) seen why
  after_resize-Handled w pod s rate_limited plan seen why = idle refl refl refl (λ d. refl) refl
  after_resize-Handled w pod s failed plan seen why = idle refl refl refl (λ d. refl) refl

  resize_step-Handled :
      (w : Workload Q S F) (cluster : Cluster Q) (pod : Pod Q) (s : Pass Q)
      → is_skipped pod ≡ false
      → needs_recreate w pod ≡ false
      → pod_resize_infeasible pod.conditions ≡ false
      → Handled w pod s (state_of (resize_step w cluster pod s))
  unfolding resize_step
  resize_step-Handled w cluster pod s seen needs fits =
      elim (Option-cases (plan_pod pod w.targets w.policy)) [
        | inl nothing ↦ rw nothing (Handled-id w pod s)
        | inr (plan, e) ↦ elim (Bool-cases (is_allowed w plan.direction)) [
          | inr held ↦ rw (e, held) (Handled-id w pod s)
          | inl free ↦
              rw (e, free)
                (after_resize-Handled w pod s (apply cluster s.requests w.namespace plan) plan seen
                  (needs, fits, e, free))
        ]
      ]

  in_place_step-Handled :
      (w : Workload Q S F) (cluster : Cluster Q) (pod : Pod Q) (s : Pass Q)
      → is_skipped pod ≡ false
      → needs_recreate w pod ≡ false
      → pod_resize_infeasible pod.conditions ≡ false
      → Handled w pod s (state_of (in_place_step w cluster pod s))
  unfolding in_place_step
  in_place_step-Handled w cluster pod s seen needs fits =
      elim (Option-cases (bump_of w pod (oom_killed_containers pod w.now))) [
        | inl nothing ↦ rw nothing (resize_step-Handled w cluster pod s seen needs fits)
        | inr (plan, e) ↦ rw e (
            after_bump-Handled w pod s (oom_killed_containers pod w.now)
              (apply cluster s.requests w.namespace plan) plan seen (needs, fits, e))
      ]

  -- Whatever the API server answers, handling a pod either makes no accepted request or one: then
  -- the pod is running and not being deleted, the request is counted, and it is an eviction (with
  -- recreate mode, the webhook and the cooldown permitting, and out of the budget), a bump after an
  -- OOMKill, or the regular plan within its cooldown.
  pub pod_step-Handled :
      (w : Workload Q S F) (cluster : Cluster Q) (pod : Pod Q) (s : Pass Q)
      → Handled w pod s (state_of (pod_step w cluster pod s))
  unfolding pod_step
  pod_step-Handled w cluster pod s = elim (Bool-cases (is_skipped pod)) [
    | inl skip ↦ rw skip (Handled-id w pod s)
    | inr seen ↦ elim (Bool-cases (needs_recreate w pod)) [
      | inl needs ↦ rw (seen, needs) (recreate_step-Handled w cluster pod s seen needs)
      | inr in_place ↦ elim (Bool-cases (pod_resize_infeasible pod.conditions)) [
        | inl stuck ↦ rw (seen, in_place, stuck) (idle refl refl refl (λ d. refl) refl)
        | inr fits ↦
            rw (seen, in_place, fits) (in_place_step-Handled w cluster pod s seen in_place fits)
      ]
    ]
  ]
