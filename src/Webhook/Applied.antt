-- ===== src/Webhook/Applied.antt =====
-- internal/webhook/pod_webhook.go: what the injected recommendation keeps.
use mathlib.Core.Bool.{false≢true}
use kubera.Base.{
  ◌≡◌, ◌≢◌, ◌∙◌, sym, subst, refl, arith, true, false, Option, none, some, String, List, [], ◌∷◌,
  All, lookup, Option-cases, inl, inr,
}
use kubera.Go.Float64.{Float64}
use kubera.Kube.Quantity.{Quantity, IsQuantity}
use kubera.Kube.Objects.{
  cpu, memory, ResourceList, Container, Pod, guaranteed, unset, index, or_zero,
}
use kubera.Api.{UpdateMode, DynamicResourceStatus}
use kubera.Actuator.Qos.{pinned, is_equal, qos_class}
use kubera.Actuator.Qos.Derived.{IsPinned, qos_class-guaranteed_iff}
use kubera.Webhook.{
  Approximate, apply_resource, apply_target, with_target, inject_one, inject_containers,
  inject_found, find_targets, default_pod,
}

equal_flip :
    {Q : Type 0} ⦃q : Quantity Q⦄
    → IsQuantity Q
    → (x y : Q) → is_equal (q.cmp x y) ≡ true
    → is_equal (q.cmp y x) ≡ true
equal_flip laws x y h = ground (arith, laws.cmp_lt y x, laws.cmp_gt y x)

equal_self : {Q : Type 0} ⦃q : Quantity Q⦄ → IsQuantity Q → (x : Q) → is_equal (q.cmp x x) ≡ true
equal_self laws x = ground (arith, laws.cmp_refl x)

no_requests :
    {Q : Type 0} ⦃q : Quantity Q⦄ (c : Container Q) → c.requests ≡ none → pinned cpu c ≡ false
no_requests c e = rw e refl

module _ {Q F : Type 0} ⦃q : Quantity Q⦄ ⦃f : Float64 F⦄ (a : Approximate Q F) where
  apply_cpu-IsPinned :
      IsQuantity Q
      → (c : Container Q) (new : Option Q) → IsPinned c
      → IsPinned (apply_resource a cpu new c)
  apply_cpu-IsPinned laws c none h = h
  apply_cpu-IsPinned laws c (some new) (hc, hm) =
      let flipped =
        equal_flip laws (or_zero (index cpu c.requests)) (or_zero (index cpu c.limits)) in
      let self = equal_self laws new in (ground arith, ground arith)

  apply_memory-IsPinned :
      IsQuantity Q
      → (c : Container Q) (new : Option Q) → IsPinned c
      → IsPinned (apply_resource a memory new c)
  apply_memory-IsPinned laws c none h = h
  apply_memory-IsPinned laws c (some new) (hc, hm) =
      let flipped =
        equal_flip laws (or_zero (index memory c.requests)) (or_zero (index memory c.limits)) in
      let self = equal_self laws new in (ground arith, ground arith)

  -- The container has requests, so that they are set.
  inject_some :
      (c : Container Q) (target : ResourceList Q) {requests : ResourceList Q}
      → c.requests ≡ some requests
      → IsPinned (apply_target a c target)
      → IsPinned (inject_one a c (some target))
  inject_some c target e h = subst (λ r. IsPinned (with_target a r c target)) (sym e) h

  inject_one-IsPinned :
      IsQuantity Q
      → (c : Container Q) (target : Option (ResourceList Q)) → IsPinned c
      → IsPinned (inject_one a c target)
  unfolding apply_target
  inject_one-IsPinned laws c none h = h
  inject_one-IsPinned laws c (some target) h = elim (Option-cases c.requests) [
    | inl e ↦ absurd (false≢true (sym (no_requests c e) ∙ h.0))
    | inr (requests, e) ↦
        let first = apply_cpu-IsPinned laws c target.cpu h in
        inject_some c target e
          (apply_memory-IsPinned laws (apply_resource a cpu target.cpu c) target.memory first)
  ]

  inject_containers-IsPinned :
      IsQuantity Q
      → (cs : List (Container Q)) (targets : List (String × ResourceList Q)) → All IsPinned cs
      → All IsPinned (inject_containers a cs targets)
  unfolding inject_containers
  inject_containers-IsPinned laws [] targets h = tt
  inject_containers-IsPinned laws (c ∷ cs) targets h = (
    inject_one-IsPinned laws c (lookup c.name targets) h.0,
    inject_containers-IsPinned laws cs targets h.1,
  )

  inject_containers-nil :
      (cs : List (Container Q)) (targets : List (String × ResourceList Q))
      → cs ≢ []
      → inject_containers a cs targets ≢ []
  unfolding inject_containers
  inject_containers-nil [] targets h = absurd (h refl)
  inject_containers-nil (c ∷ cs) targets h = λ e. cc e

  inject_found-guaranteed :
      IsQuantity Q
      → (pod : Pod Q) (targets : Option (List (String × ResourceList Q))) → pod.qos_class ≡ unset
      → qos_class pod ≡ guaranteed
      → qos_class (inject_found a pod targets) ≡ guaranteed
  inject_found-guaranteed laws pod none h g = g
  inject_found-guaranteed laws pod (some targets) h g =
      let (some_container, all) = (qos_class-guaranteed_iff pod h).0 g in
      (qos_class-guaranteed_iff (inject_found a pod (some targets)) h).1 (
        inject_containers-nil pod.containers targets some_container,
        inject_containers-IsPinned laws pod.containers targets all,
      )

  -- A new pod whose containers make it Guaranteed is still Guaranteed after the recommendation is
  -- injected, whichever objects the namespace has.
  pub default_pod-guaranteed :
      IsQuantity Q
      → (owner : Option String) (objects : List (UpdateMode × DynamicResourceStatus Q))
        (pod : Pod Q)
      → pod.qos_class ≡ unset
      → qos_class pod ≡ guaranteed
      → qos_class (default_pod a owner objects pod) ≡ guaranteed
  unfolding default_pod
  default_pod-guaranteed laws none objects pod h g = g
  default_pod-guaranteed laws (some deployment) objects pod h g =
      inject_found-guaranteed laws pod (find_targets objects deployment) h g
