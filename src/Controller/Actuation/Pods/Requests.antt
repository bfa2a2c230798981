-- ===== src/Controller/Actuation/Pods/Requests.antt =====
-- internal/controller/actuation.go: the requests that the loop over a workload's pods makes.
use kubera.Base.{
  ◌+◌, ◌≡◌, refl, arith, false, List, [], ◌∷◌, All, Among, All-map, inl, inr, ◌⊎◌, length,
}
use kubera.Go.Float64.{Float64}
use kubera.Kube.Quantity.{Quantity}
use kubera.Kube.Objects.{Pod}
use kubera.Actuator.Resizer.{Cluster}
use kubera.Controller.Actuation.Pods.{
  Action, Workload, Pass, Flow, next, stop, state_of, is_skipped, pod_step, pods_loop, and_then,
}
use kubera.Controller.Actuation.Pods.Steps.{
  evictions, Handled, idle, acted, IsJustified, pod_step-Handled,
}

evictions-cons :
    {Q : Type 0} (a : Action Q) (rest : List (Action Q))
    → evictions (a ∷ rest) ≡ evictions (a ∷ []) + evictions rest
evictions-cons (Action.evicted pod) rest = ground arith
evictions-cons (Action.bumped plan) rest = ground arith
evictions-cons (Action.resized plan) rest = ground arith

-- The resizes are counted as the accepted requests, and the evictions come out of the budget.
abbrev Balanced : {Q : Type 0} → Pass Q → Pass Q → Type 0
Balanced s after =
    (after.result.resized + length s.actions ≡ s.result.resized + length after.actions)
    × (evictions after.actions + after.budget ≡ evictions s.actions + s.budget)

Balanced-trans : {Q : Type 0} (s t u : Pass Q) → Balanced s t → Balanced t u → Balanced s u
Balanced-trans s t u h k = (omega (arith, h.0, k.0), omega (arith, h.1, k.1))

flow-Balanced :
    {Q : Type 0} (s : Pass Q) (flow : Flow (Pass Q)) (rest : Pass Q → Flow (Pass Q))
    → Balanced s (state_of flow)
    → ((t : Pass Q) → Balanced t (state_of (rest t)))
    → Balanced s (state_of (and_then flow rest))
flow-Balanced s (next t) rest h k = Balanced-trans s t (state_of (rest t)) h (k t)
flow-Balanced s (stop t) rest h k = h

flow-All :
    {Q : Type 0} (P : Action Q → Type 0) (flow : Flow (Pass Q)) (rest : Pass Q → Flow (Pass Q))
    → All P (state_of flow).actions
    → ((t : Pass Q) → All P t.actions → All P (state_of (rest t)).actions)
    → All P (state_of (and_then flow rest)).actions
flow-All P (next t) rest h k = k t h
flow-All P (stop t) rest h k = h

self-Among : {A : Type 0} (xs : List A) → All (λ x. Among (λ y. y ≡ x) xs) xs
self-Among [] = tt
self-Among (x ∷ xs) = (inl refl, All-map xs (λ y h. inr h) (self-Among xs))

module _ {Q S F : Type 0} ⦃q : Quantity Q⦄ ⦃f : Float64 F⦄ where
  Handled-Balanced :
      {w : Workload Q S F} {pod : Pod Q} {s after : Pass Q}
      → Handled w pod s after
      → Balanced s after
  Handled-Balanced (idle actions_eq resized_eq budget_eq flag_eq resizes_eq) =
      (rw (actions_eq, resized_eq) refl, rw (actions_eq, budget_eq) refl)
  Handled-Balanced {s = s} {after = after}
        (acted a actions_eq resized_eq budget_eq flag_eq resizes_eq seen why) =
      (
        rw (actions_eq, resized_eq) (omega arith),
        rw (actions_eq, evictions-cons a s.actions) (omega (arith, budget_eq)),
      )

  -- Whatever the API server answers, and also when an error ends the loop early, the loop over the
  -- pods counts each accepted request as one resize, and evictions and budget left add up to what
  -- they were: with a budget of one there is at most one eviction.
  pub pods_loop-balanced :
      (w : Workload Q S F) (cluster : Cluster Q) (pods : List (Pod Q)) (s : Pass Q)
      → let after = state_of (pods_loop w cluster pods s) in
        (after.result.resized + length s.actions ≡ s.result.resized + length after.actions)
        × (evictions after.actions + after.budget ≡ evictions s.actions + s.budget)
  unfolding pods_loop
  pods_loop-balanced w cluster [] s = (refl, refl)
  pods_loop-balanced w cluster (pod ∷ pods) s =
      flow-Balanced s (pod_step w cluster pod s) (pods_loop w cluster pods)
        (Handled-Balanced (pod_step-Handled w cluster pod s)) (pods_loop-balanced w cluster pods)

  -- The request is for a pod of the list that is running and not being deleted.
  abbrev pub IsDue : Workload Q S F → List (Pod Q) → Action Q → Type 0
  IsDue w pods a = Among (λ pod. (is_skipped pod ≡ false) × IsJustified w pod a) pods

  Handled-All :
      {w : Workload Q S F} {pod : Pod Q} {s after : Pass Q} (P : Action Q → Type 0)
      → Handled w pod s after
      → All P s.actions
      → ((a : Action Q) → is_skipped pod ≡ false → IsJustified w pod a → P a)
      → All P after.actions
  Handled-All P (idle actions_eq resized_eq budget_eq flag_eq resizes_eq) h f = rw actions_eq h
  Handled-All P (acted a actions_eq resized_eq budget_eq flag_eq resizes_eq seen why) h f =
      rw actions_eq (f a seen why, h)

  pods_loop-All :
      (P : Action Q → Type 0) (w : Workload Q S F) (cluster : Cluster Q) (pods : List (Pod Q))
      (s : Pass Q)
      → All P s.actions
      → ((a : Action Q) → IsDue w pods a → P a)
      → All P (state_of (pods_loop w cluster pods s)).actions
  unfolding pods_loop
  pods_loop-All P w cluster [] s h f = h
  pods_loop-All P w cluster (pod ∷ pods) s h f =
      flow-All P (pod_step w cluster pod s) (pods_loop w cluster pods)
        (Handled-All P (pod_step-Handled w cluster pod s) h (λ a seen why. f a (inl (seen, why))))
        (λ t ht. pods_loop-All P w cluster pods t ht (λ a due. f a (inr due)))

  -- Each accepted request after the loop was there before it, or it is for a pod of the list that
  -- is running and not being deleted and is justified: an eviction needs recreate mode, a resize
  -- that can not be done in place, the webhook and a passed cooldown; a bump is what the OOM fast
  -- path plans for the pod; a resize is the regular plan of the pod within its cooldown; and
  -- neither of the latter is made while the pod's pending resize is infeasible.
  pub pods_loop-justified :
      (w : Workload Q S F) (cluster : Cluster Q) (pods : List (Pod Q)) (s : Pass Q)
      → All
          (λ a. Among (λ b. b ≡ a) s.actions ⊎ IsDue w pods a)
          (state_of (pods_loop w cluster pods s)).actions
  pods_loop-justified w cluster pods s =
      pods_loop-All (λ a. Among (λ b. b ≡ a) s.actions ⊎ IsDue w pods a) w cluster pods s
        (All-map s.actions (λ a h. inl h) (self-Among s.actions)) (λ a due. inr due)
