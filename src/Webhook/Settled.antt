-- ===== src/Webhook/Settled.antt =====
-- internal/webhook/pod_webhook.go with internal/actuator/plan.go and recreate.go: the pods that the
-- webhook has sized, as the actuator sees them.
use kubera.Base.{
  ◌≡◌, sym, refl, subst, arith, Bool, true, false, Option, none, some, String, List, [], ◌∷◌,
  lookup, Bool-cases, inl, inr, ℤ, pos, negsuc, eqb_ℤ,
}
use kubera.Go.Int64.{sub64}
use kubera.Go.Float64.{Float64, IsIeee, ◌≼◌}
use kubera.Kube.Quantity.{Quantity, IsQuantity}
use kubera.Kube.Objects.{ResourceList, Container, Pod, or_zero}
use kubera.Api.{UpdateMode, DynamicResourceStatus}
use kubera.Actuator.Policy.{Direction, down, Policy}
use kubera.Actuator.Clamp.{within_tolerance}
use kubera.Actuator.Qos.{qos_class, is_guaranteed, is_best_effort}
use kubera.Actuator.Plan.{
  ContainerChange, add_change, plan_container, plan_target, plan_loop, plan_pod,
}
use kubera.Actuator.Recreate.{wants_shrink, shrink_loop, blocked_memory_shrink}
use kubera.Webhook.{Approximate, inject_one, inject_containers, find_targets, default_pod}
use kubera.Webhook.Sized.{IsSized, IsSettled, inject_one-IsSettled, inject_one-name}

sub64_self : (v : ℤ) → sub64 v v ≡ pos 0
unfolding sub64
sub64_self (pos n) = ground arith
sub64_self (negsuc n) = ground arith

within_tolerance_self :
    {F : Type 0} ⦃f : Float64 F⦄ (laws : IsIeee F) (v : ℤ) (tolerance : F)
    → f.of_int (pos 0) ≼ tolerance
    → within_tolerance v v tolerance ≡ true
unfolding within_tolerance
within_tolerance_self laws v tolerance h = elim (Bool-cases (eqb_ℤ v (pos 0))) [
  | inl e ↦ rw e refl
  | inr e ↦ let (lt, le) = laws.zero_div v e in rw (e, sub64_self v, lt) (laws.le_trans _ _ _ le h)
]

module _ {Q F : Type 0} ⦃q : Quantity Q⦄ ⦃f : Float64 F⦄ (a : Approximate Q F) where
  plan_container-IsSettled :
      IsIeee F
      → (c : Container Q) (target : ResourceList Q) (policy : Policy F) (pinned : Bool)
      → f.of_int (pos 0) ≼ policy.tolerance
      → IsSettled c target
      → plan_container c target policy pinned ≡ none
  unfolding IsSettled IsSized plan_container
  plan_container-IsSettled laws c target policy pinned h (inl e, m) = ground arith
  plan_container-IsSettled laws c target policy pinned h (inr e, inl k) = ground arith
  plan_container-IsSettled laws c target policy pinned h (inr e, inr k) =
      let want_cpu = or_zero target.cpu in
      let want_mem = or_zero target.memory in
      let cpu_kept = within_tolerance_self laws (q.milli_value want_cpu) policy.tolerance h in
      let mem_kept = within_tolerance_self laws (q.value want_mem) policy.tolerance h in
      rw (e, k, cpu_kept, mem_kept) (ground arith)

  wants_shrink-IsSettled :
      (c : Container Q) (target : ResourceList Q) (policy : Policy F)
      → IsSettled c target
      → wants_shrink c (some target) policy ≡ false
  unfolding IsSettled IsSized
  wants_shrink-IsSettled c target policy (s, inl e) = ground arith
  wants_shrink-IsSettled c target policy (s, inr e) = ground arith

  plan_target-settled :
      IsQuantity Q
      → IsIeee F
      → (c : Container Q) (target : Option (ResourceList Q)) (policy : Policy F) (pinned : Bool)
      → f.of_int (pos 0) ≼ policy.tolerance
      → plan_target (inject_one a c target) target policy pinned ≡ none
  plan_target-settled laws ieee c none policy pinned h = refl
  plan_target-settled laws ieee c (some target) policy pinned h =
      plan_container-IsSettled ieee (inject_one a c (some target)) target policy pinned h
        (inject_one-IsSettled a laws c target)

  wants_shrink-settled :
      IsQuantity Q
      → (c : Container Q) (target : Option (ResourceList Q)) (policy : Policy F)
      → wants_shrink (inject_one a c target) target policy ≡ false
  wants_shrink-settled laws c none policy = refl
  wants_shrink-settled laws c (some target) policy =
      wants_shrink-IsSettled (inject_one a c (some target)) target policy
        (inject_one-IsSettled a laws c target)

  plan_loop-settled :
      IsQuantity Q
      → IsIeee F
      → (cs : List (Container Q)) (targets : List (String × ResourceList Q)) (policy : Policy F)
        (pinned : Bool) (acc : List (ContainerChange Q) × Direction)
      → f.of_int (pos 0) ≼ policy.tolerance
      → plan_loop (inject_containers a cs targets) targets policy pinned acc ≡ acc
  unfolding plan_loop inject_containers
  plan_loop-settled laws ieee [] targets policy pinned acc h = refl
  plan_loop-settled laws ieee (c ∷ cs) targets policy pinned acc h =
      let target = lookup c.name targets in
      let sized = inject_one a c target in
      let step : add_change (plan_target sized (lookup sized.name targets) policy pinned) acc
          ≡ acc =
        rw (inject_one-name a c target, plan_target-settled laws ieee c target policy pinned h)
          refl in
      subst (λ next. plan_loop (inject_containers a cs targets) targets policy pinned next ≡ acc)
        (sym step) (plan_loop-settled laws ieee cs targets policy pinned acc h)

  shrink_loop-settled :
      IsQuantity Q
      → (cs : List (Container Q)) (targets : List (String × ResourceList Q)) (policy : Policy F)
      → shrink_loop (inject_containers a cs targets) targets policy ≡ false
  unfolding shrink_loop inject_containers
  shrink_loop-settled laws [] targets policy = refl
  shrink_loop-settled laws (c ∷ cs) targets policy =
      let target = lookup c.name targets in
      rw (inject_one-name a c target, wants_shrink-settled laws c target policy)
        (shrink_loop-settled laws cs targets policy)

  plan_pod-none :
      (pod : Pod Q) (targets : List (String × ResourceList Q)) (policy : Policy F)
      → ((pinned : Bool) → plan_loop pod.containers targets policy pinned ([], down) ≡ ([], down))
      → plan_pod pod targets policy ≡ none
  unfolding plan_pod
  plan_pod-none pod targets policy h = elim (Bool-cases (is_best_effort (qos_class pod))) [
    | inl e ↦ rw e refl
    | inr e ↦ rw (e, h (is_guaranteed (qos_class pod))) refl
  ]

  shrink-none :
      (pod : Pod Q) (targets : List (String × ResourceList Q)) (policy : Policy F)
      → shrink_loop pod.containers targets policy ≡ false
      → blocked_memory_shrink pod targets policy ≡ false
  unfolding blocked_memory_shrink
  shrink-none pod targets policy h = ground arith

  -- A pod that the webhook has sized from the recommendation for its deployment needs nothing more
  -- for the same recommendation: no resize is planned for it, and it is not evicted to shrink its
  -- memory. The policy's tolerance is not negative.
  pub default_pod-settled :
      IsQuantity Q
      → IsIeee F
      → (deployment : String) (objects : List (UpdateMode × DynamicResourceStatus Q)) (pod : Pod Q)
        (targets : List (String × ResourceList Q)) (policy : Policy F)
      → f.of_int (pos 0) ≼ policy.tolerance
      → find_targets objects deployment ≡ some targets
      → let sized = default_pod a (some deployment) objects pod in
        (plan_pod sized targets policy ≡ none)
        × (blocked_memory_shrink sized targets policy ≡ false)
  unfolding default_pod
  default_pod-settled laws ieee deployment objects pod targets policy h found = rw found (
    plan_pod-none _ targets policy
        (λ pinned. plan_loop-settled laws ieee pod.containers targets policy pinned ([], down) h),
    shrink-none _ targets policy (shrink_loop-settled laws pod.containers targets policy),
  )
