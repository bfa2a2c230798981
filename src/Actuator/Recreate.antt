-- ===== src/Actuator/Recreate.antt =====
-- internal/actuator/recreate.go: `BlockedMemoryShrink`.
use kubera.Base.{
  Option, none, some, Bool, false, not, ◌&&◌, ◌||◌, String, List, [], ◌∷◌, lookup, ltb_ℤ,
}
use kubera.Go.Float64.{Float64}
use kubera.Kube.Quantity.{Quantity}
use kubera.Kube.Objects.{ResourceList, Container, Pod, memory, index, or_zero}
use kubera.Actuator.Policy.{Policy}
use kubera.Actuator.Clamp.{within_tolerance}
use kubera.Actuator.Qos.{qos_class, is_guaranteed}

module _ {F : Type 0} ⦃f : Float64 F⦄ {Q : Type 0} ⦃q : Quantity Q⦄ where
  -- The recommendation wants less memory than the container requests, beyond the tolerance.
  abbrev pub wants_shrink : Container Q → Option (ResourceList Q) → Policy F → Bool
  wants_shrink c none policy = false
  wants_shrink c (some target) policy =
      let cur_mem = or_zero (index memory c.requests) in
      let want_mem = or_zero target.memory in
      not (q.is_zero cur_mem || q.is_zero want_mem)
      && (not (within_tolerance (q.value cur_mem) (q.value want_mem) policy.tolerance)
          && ltb_ℤ (q.value want_mem) (q.value cur_mem))

  unfoldable pub shrink_loop : List (Container Q) → List (String × ResourceList Q) → Policy F → Bool
  shrink_loop [] targets policy = false
  shrink_loop (c ∷ cs) targets policy =
      wants_shrink c (lookup c.name targets) policy || shrink_loop cs targets policy

  unfoldable pub blocked_memory_shrink : Pod Q → List (String × ResourceList Q) → Policy F → Bool
  unfolding shrink_loop
  blocked_memory_shrink pod targets policy =
      is_guaranteed (qos_class pod) && shrink_loop pod.containers targets policy
