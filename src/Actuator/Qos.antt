-- ===== src/Actuator/Qos.antt =====
-- internal/actuator/plan.go: `qosClass`.
pub mod Derived
use Prim.Native.Nat.{Ordering}
use kubera.Base.{
  Option, none, some, Bool, true, false, not, ◌&&◌, ◌||◌, List, [], ◌∷◌, if◌then◌else◌,
}
use kubera.Kube.Quantity.{Quantity}
use kubera.Kube.Objects.{
  ResourceName, cpu, memory, ResourceList, index, Container, QosClass, unset, guaranteed, burstable,
  best_effort, Pod,
}

abbrev pub is_equal : Ordering → Bool
is_equal Ordering.eq = true
is_equal _ = false

abbrev is_some : {A : Type 0} → Option A → Bool
is_some none = false
is_some (some _) = true

abbrev is_empty : {A : Type 0} → List A → Bool
is_empty [] = true
is_empty (_ ∷ _) = false

-- `len(res.Requests) > 0`.
abbrev pub has_entries : {Q : Type 0} → Option (ResourceList Q) → Bool
has_entries none = false
has_entries (some l) = is_some l.cpu || is_some l.memory || not (is_empty l.others)

-- `pod.Status.QOSClass` where it is set.
abbrev status_or : QosClass → QosClass → QosClass
status_or unset derived = derived
status_or assigned derived = assigned

module _ {Q : Type 0} ⦃q : Quantity Q⦄ where
  abbrev same : Option Q → Option Q → Bool
  same (some req) (some lim) = is_equal (q.cmp req lim)
  same _ _ = false

  -- The request and the limit of one resource are set and equal.
  abbrev pub pinned : ResourceName → Container Q → Bool
  pinned name c = same (index name c.requests) (index name c.limits)

  -- The loop over the containers, and the `switch` after it.
  unfoldable pub qos_loop : List (Container Q) → Bool → Bool → QosClass
  qos_loop [] requests_set all_guaranteed =
      if not requests_set then best_effort else (if all_guaranteed then guaranteed else burstable)
  qos_loop (c ∷ cs) requests_set all_guaranteed =
      qos_loop cs (requests_set || has_entries c.requests)
        (all_guaranteed && pinned cpu c && pinned memory c)

  unfoldable pub qos_class : Pod Q → QosClass
  unfolding qos_loop
  qos_class pod = status_or pod.qos_class (qos_loop pod.containers false true)

abbrev pub is_guaranteed : QosClass → Bool
is_guaranteed guaranteed = true
is_guaranteed _ = false

abbrev pub is_best_effort : QosClass → Bool
is_best_effort best_effort = true
is_best_effort _ = false
