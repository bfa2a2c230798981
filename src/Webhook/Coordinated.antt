-- ===== src/Webhook/Coordinated.antt =====
-- internal/webhook/pod_webhook.go with internal/controller/actuation.go: the targets that the
-- webhook reads in the status that a pass of the actuator leaves.
use mathlib.Core.Option.{some-injective}
use kubera.Base.{
  ◌≡◌, ◌≢◌, ◌∙◌, refl, sym, subst, false, Option, none, some, String, List, [], ◌∷◌, insert, str_eq,
  eq_iff, Bool-cases, inl, inr, pos,
}
use kubera.Go.Float64.{Float64, IsIeee, ◌≼◌}
use kubera.Go.Time.{Time}
use kubera.Kube.Quantity.{Quantity, IsQuantity}
use kubera.Kube.Objects.{ResourceList, Pod, Autoscaler}
use kubera.Api.{
  UpdateMode, HpaState, DynamicResourceSpec, DynamicResourceStatus, ContainerRecommendation,
  WorkloadRecommendation,
}
use kubera.Actuator.Policy.{Policy}
use kubera.Actuator.Lookups.{agree}
use kubera.Actuator.Plan.{plan_pod}
use kubera.Actuator.Recreate.{blocked_memory_shrink}
use kubera.Controller.Coupling.{ContainerUsageSnapshot, coordinated, coordinate_hpa}
use kubera.Controller.Coupling.Results.{coordinate_hpa-IsKept}
use kubera.Controller.Actuation.Targets.{
  find_recommendation, or_this, targets_of, nil_targets_of, share_containers, share_targets,
}
use kubera.Controller.Actuation.Targets.Shared.{
  Filled, shared-eq, shared-Filled, share_containers-nil, targets_of-nil,
}
use kubera.Webhook.{
  Approximate, container_targets, or_later, find_in_status, is_off, find_targets, default_pod,
}
use kubera.Webhook.Settled.{default_pod-settled}

-- No two recommendations are about the same workload.
unfoldable pub IsUnique : {Q : Type 0} → List (WorkloadRecommendation Q) → Type 0
IsUnique [] = Unit
IsUnique (r ∷ rs) = (find_recommendation r.workload rs ≡ none) × IsUnique rs

or_later-some :
    {Q : Type 0} (out : List (String × ResourceList Q))
    (later : Option (List (String × ResourceList Q)))
    → out ≢ []
    → or_later out later ≡ some out
or_later-some [] later h = absurd (h refl)
or_later-some (entry ∷ out) later h = refl

or_this-other :
    {Q : Type 0} (o : Option (WorkloadRecommendation Q)) (r : WorkloadRecommendation Q)
    → or_this o false r ≡ o
or_this-other none r = refl
or_this-other (some later) r = refl

module _ {Q : Type 0} where
  container_targets-eq :
      (cs : List (ContainerRecommendation Q)) (out : List (String × ResourceList Q))
      → Filled cs
      → container_targets cs out ≡ targets_of cs out
  unfolding Filled targets_of
  container_targets-eq [] out h = refl
  container_targets-eq (c ∷ cs) out h =
      rw h.0 (container_targets-eq cs (insert c.container_name c.target out) h.1)

  -- A recommendation whose targets all have a resource is found as the actuator reads it.
  found_here :
      (cs : List (ContainerRecommendation Q)) (later : Option (List (String × ResourceList Q)))
      → cs ≢ []
      → Filled cs
      → or_later (container_targets cs []) later ≡ some (targets_of cs [])
  found_here cs later some_container filled =
      rw (container_targets-eq cs [] filled)
        (or_later-some (targets_of cs []) later (targets_of-nil cs some_container))

  -- The webhook finds the recommendation that the actuator has written to.
  find_in_status-shared :
      (name : String) (after : List (String × ResourceList Q))
      (recs : List (WorkloadRecommendation Q)) {rec : WorkloadRecommendation Q}
      → IsUnique recs
      → find_recommendation name recs ≡ some rec
      → rec.containers ≢ []
      → Filled (share_containers after rec.containers)
      → find_in_status name (share_targets name after recs)
        ≡ some (targets_of (share_containers after rec.containers) [])
  unfolding IsUnique find_recommendation share_targets find_in_status
  find_in_status-shared name after [] unique found some_container filled = cc
  find_in_status-shared name after (r ∷ rs) {rec} unique found some_container filled =
      elim (Bool-cases (str_eq r.workload name)) [
        | inl same ↦
            let path : r.workload ≡ name = (eq_iff r.workload name).0 same in
            let last : find_recommendation name rs ≡ none =
              subst (λ n. find_recommendation n rs ≡ none) path unique.0 in
            let this : r ≡ rec = some-injective _ _ (rw (last, same) at found) in
            subst
              (λ x.
                find_in_status name (share_targets name after (r ∷ rs))
                ≡ some (targets_of (share_containers after x.containers) []))
              this
              (rw (same, same)
                (found_here (share_containers after r.containers) _
                  (share_containers-nil after r.containers
                    (subst (λ x. x.containers ≢ []) (sym this) some_container))
                  (subst (λ x. Filled (share_containers after x.containers)) (sym this) filled)))
        | inr other ↦
            let later = rw (other, or_this-other) at found in
            rw (other, other)
              (find_in_status-shared name after rs unique.1 later some_container filled)
      ]

-- The first object is read, whatever the others say.
find_targets-first :
    {Q : Type 0} (mode : UpdateMode) (status : DynamicResourceStatus Q)
    (others : List (UpdateMode × DynamicResourceStatus Q)) (deployment : String)
    {targets : List (String × ResourceList Q)}
    → is_off mode ≡ false
    → find_in_status deployment status.recommendations ≡ some targets
    → find_targets ((mode, status) ∷ others) deployment ≡ some targets
unfolding find_targets
find_targets-first mode status others deployment on found = rw (on, found) refl

module _ {Q F : Type 0} ⦃q : Quantity Q⦄ ⦃f : Float64 F⦄ where
  -- For the targets that a pass acts on, with the floors of the autoscaler, the webhook sizes the
  -- deployment's new pods so that nothing is to be done. The recommendation has a container and no
  -- empty target.
  pub default_pod-coordinated :
      {S : Type 0} (a : Approximate Q F)
      → IsQuantity Q
      → IsIeee F
      → (spec : DynamicResourceSpec Q S) (deployment : String) (hpas : Option (List Autoscaler))
        (usage : List (String × ContainerUsageSnapshot F)) (now : Time)
        (status : DynamicResourceStatus Q) (others : List (UpdateMode × DynamicResourceStatus Q))
        (pod : Pod Q) (policy : Policy F) {rec : WorkloadRecommendation Q} {state : HpaState}
        {targets : List (String × ResourceList Q)}
      → IsUnique status.recommendations
      → find_recommendation deployment status.recommendations ≡ some rec
      → rec.containers ≢ []
      → Filled rec.containers
      → coordinate_hpa spec deployment hpas
          (targets_of rec.containers [])
          (nil_targets_of rec.containers [])
          usage
          now
        ≡ coordinated state targets
      → is_off spec.update_mode ≡ false
      → f.of_int (pos 0) ≼ policy.tolerance
      → let left = record status {
        recommendations = share_targets deployment targets status.recommendations;
      } in
        let sized = default_pod a (some deployment) ((spec.update_mode, left) ∷ others) pod in
        (plan_pod sized targets policy ≡ none)
        × (blocked_memory_shrink sized targets policy ≡ false)
  default_pod-coordinated a laws ieee spec deployment hpas usage now status others pod policy {rec}
        {targets = targets} unique found some_container filled ended on h =
      let kept =
        coordinate_hpa-IsKept spec deployment hpas (targets_of rec.containers [])
          (nil_targets_of rec.containers []) usage now ended in
      let shared = share_containers targets rec.containers in
      let left = record status {
        recommendations = share_targets deployment targets status.recommendations;
      } in
      let objects = (spec.update_mode, left) ∷ others in
      let read = find_targets-first spec.update_mode left others deployment on (
        find_in_status-shared deployment targets status.recommendations unique found some_container
          (shared-Filled rec.containers targets kept filled)) in
      let settled =
        default_pod-settled a laws ieee deployment objects pod (targets_of shared []) policy h
          read in
      let same =
        agree (default_pod a (some deployment) objects pod) (targets_of shared []) targets policy
          (shared-eq rec.containers targets kept) in
      (sym same.0 ∙ settled.0, sym same.1 ∙ settled.1)
