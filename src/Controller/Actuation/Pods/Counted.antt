-- ===== src/Controller/Actuation/Pods/Counted.antt =====
-- internal/controller/actuation.go: the counter `resizesTotal` over the pods of a workload.
use mathlib.Core.List.{append_assoc}
use kubera.Base.{ℕ, ◌+◌, ◌≡◌, refl, arith, sym, String, List, [], ◌∷◌, ◌++◌}
use kubera.Go.Float64.{Float64}
use kubera.Kube.Quantity.{Quantity}
use kubera.Kube.Objects.{Pod}
use kubera.Controller.Gauges.{same_labels, count_of}
use kubera.Controller.Gauges.Counted.{one_if, count_of-increment}
use kubera.Actuator.Resizer.{Cluster}
use kubera.Controller.Actuation.Pods.{
  Action, Workload, Pass, Flow, next, stop, state_of, and_then, resize_labels, pod_step, pods_loop,
}
use kubera.Controller.Actuation.Pods.Steps.{counted_in, Handled, idle, acted, pod_step-Handled}

module _ {Q S F : Type 0} ⦃q : Quantity Q⦄ ⦃f : Float64 F⦄ where
  -- How many of the requests belong to this series of labels.
  abbrev pub tally : Workload Q S F → List String → List (Action Q) → ℕ
  tally w read [] = 0
  tally w read (a ∷ rest) =
      one_if (same_labels (resize_labels w.namespace w.deployment (counted_in a)) read)
      + tally w read rest

  tally-append :
      (w : Workload Q S F) (read : List String) (xs ys : List (Action Q))
      → tally w read (xs ++ ys) ≡ tally w read xs + tally w read ys
  tally-append w read [] ys = omega arith
  tally-append w read (x ∷ xs) ys = omega (arith, tally-append w read xs ys)

  -- The requests that were added, and the series that they count for.
  abbrev Counted : Workload Q S F → Pass Q → Pass Q → Type 0
  Counted w s after =
      (new : List (Action Q)) × (after.actions ≡ new ++ s.actions)
      × ((read : List String)
          → count_of read after.resizes ≡ count_of read s.resizes + tally w read new)

  Counted-trans :
      (w : Workload Q S F) (s t u : Pass Q) → Counted w s t → Counted w t u → Counted w s u
  Counted-trans w s t u (xs, xs_eq, xs_count) (ys, ys_eq, ys_count) = (
    ys ++ xs,
    rw (ys_eq, xs_eq) (sym (append_assoc ys xs s.actions)),
    λ read. omega (arith, ys_count read, xs_count read, tally-append w read ys xs),
  )

  Handled-Counted :
      {w : Workload Q S F} {pod : Pod Q} {s after : Pass Q}
      → Handled w pod s after
      → Counted w s after
  Handled-Counted (idle actions_eq resized_eq budget_eq flag_eq resizes_eq) =
      ([], actions_eq, λ read. rw resizes_eq (omega arith))
  Handled-Counted {w = w} {s = s}
        (acted a actions_eq resized_eq budget_eq flag_eq resizes_eq seen why) =
      (
        a ∷ [],
        actions_eq,
        λ read. rw resizes_eq (
            omega (
              arith,
              count_of-increment (resize_labels w.namespace w.deployment (counted_in a)) read
                  s.resizes,
            )),
      )

  flow-Counted :
      (w : Workload Q S F) (s : Pass Q) (flow : Flow (Pass Q)) (rest : Pass Q → Flow (Pass Q))
      → Counted w s (state_of flow)
      → ((t : Pass Q) → Counted w t (state_of (rest t)))
      → Counted w s (state_of (and_then flow rest))
  flow-Counted w s (next t) rest h k = Counted-trans w s t (state_of (rest t)) h (k t)
  flow-Counted w s (stop t) rest h k = h

  -- Whatever the API server answers, and also when an error ends the loop early, the loop over the
  -- pods adds to each series of the counter of resizes exactly the number of requests that were
  -- accepted in the loop and belong to it: those of the workload's namespace and name and of the
  -- request's direction, an eviction counting as down and a bump after an OOMKill as up. No other
  -- series changes.
  pub pods_loop-counted :
      (w : Workload Q S F) (cluster : Cluster Q) (pods : List (Pod Q)) (s : Pass Q)
      → let after = state_of (pods_loop w cluster pods s) in
        (new : List (Action Q)) × (after.actions ≡ new ++ s.actions)
        × ((read : List String)
            → count_of read after.resizes ≡ count_of read s.resizes + tally w read new)
  unfolding pods_loop
  pods_loop-counted w cluster [] s = ([], refl, λ read. omega arith)
  pods_loop-counted w cluster (pod ∷ pods) s =
      flow-Counted w s (pod_step w cluster pod s) (pods_loop w cluster pods)
        (Handled-Counted (pod_step-Handled w cluster pod s)) (pods_loop-counted w cluster pods)
