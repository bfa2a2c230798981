-- ===== src/Actuator/Qos/Derived.antt =====
-- The QoS class of a pod whose status does not name one yet.
use kubera.Base.{◌≡◌, refl, arith, Bool, true, false, ◌&&◌, ◌||◌, List, [], ◌∷◌, ◌↔◌, ◌≢◌, All}
use kubera.Kube.Quantity.{Quantity}
use kubera.Kube.Objects.{Container, Pod, unset, guaranteed, cpu, memory}
use kubera.Actuator.Qos.{has_entries, pinned, qos_loop, qos_class}

module _ {Q : Type 0} ⦃q : Quantity Q⦄ where
  -- Requests and limits of CPU and memory are set and agree.
  abbrev pub IsPinned : Container Q → Type 0
  IsPinned c = (pinned cpu c ≡ true) × (pinned memory c ≡ true)

  pinned-has_entries : (c : Container Q) → pinned cpu c ≡ true → has_entries c.requests ≡ true
  pinned-has_entries c h = ground arith

  -- No container with a request was seen, or one was not pinned: the class cannot be Guaranteed.
  loop-not_pinned : (cs : List (Container Q)) (seen : Bool) → qos_loop cs seen false ≢ guaranteed
  unfolding qos_loop
  loop-not_pinned [] seen = ground arith
  loop-not_pinned (c ∷ cs) seen = loop-not_pinned cs (seen || has_entries c.requests)

  -- Only the flag as it stands can lead to Guaranteed.
  loop-flag :
      (cs : List (Container Q)) (seen flag : Bool)
      → qos_loop cs seen flag ≡ guaranteed
      → flag ≡ true
  loop-flag cs seen true h = refl
  loop-flag cs seen false h = absurd (loop-not_pinned cs seen h)

  loop-IsPinned :
      (cs : List (Container Q)) (seen : Bool) → qos_loop cs seen true ≡ guaranteed → All IsPinned cs
  unfolding qos_loop
  loop-IsPinned [] seen h = tt
  loop-IsPinned (c ∷ cs) seen h =
      let seen' = seen || has_entries c.requests in
      let both = loop-flag cs seen' (pinned cpu c && pinned memory c) h in
      let first : pinned cpu c ≡ true = ground arith in
      let second : pinned memory c ≡ true = ground arith in
      ((first, second), loop-IsPinned cs seen' (rw both at h))

  loop-guaranteed : (cs : List (Container Q)) → All IsPinned cs → qos_loop cs true true ≡ guaranteed
  unfolding qos_loop
  loop-guaranteed [] h = refl
  loop-guaranteed (c ∷ cs) h = rw (h.0.0, h.0.1) (loop-guaranteed cs h.1)

  loop-guaranteed_iff :
      (cs : List (Container Q))
      → (qos_loop cs false true ≡ guaranteed) ↔ ((cs ≢ []) × All IsPinned cs)
  unfolding qos_loop
  loop-guaranteed_iff [] = (λ h. cc h, λ h. absurd (h.0 refl))
  loop-guaranteed_iff (c ∷ cs) = (
    λ h. ((λ e. cc e), loop-IsPinned (c ∷ cs) false h),
    λ h. rw (pinned-has_entries c h.1.0.0, h.1.0.0, h.1.0.1) (loop-guaranteed cs h.1.1),
  )

  -- A pod with no class in its status counts as Guaranteed exactly if it has a container and every
  -- container's CPU and memory limits are set and equal its requests.
  pub qos_class-guaranteed_iff :
      (pod : Pod Q)
      → pod.qos_class ≡ unset
      → (qos_class pod ≡ guaranteed) ↔ ((pod.containers ≢ []) × All IsPinned pod.containers)
  unfolding qos_class
  qos_class-guaranteed_iff pod h = rw h (loop-guaranteed_iff pod.containers)
