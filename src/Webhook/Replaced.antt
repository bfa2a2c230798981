-- ===== src/Webhook/Replaced.antt =====
-- internal/webhook/pod_webhook.go with internal/controller: the replacements of evicted pods, from
-- the recommendations of a pass to what the next pass does to them.
use kubera.Base.{
  ◌≡◌, ◌≢◌, refl, subst, false, Option, none, some, String, List, [], ◌∷◌, All-map, lookup, pos,
}
use kubera.Go.Float64.{Float64, IsIeee, ◌≼◌}
use kubera.Go.Time.{Time}
use kubera.Kube.Quantity.{Quantity, IsQuantity}
use kubera.Kube.Objects.{ResourceList, Pod, Autoscaler}
use kubera.Api.{UpdateMode, HpaState, DynamicResourceStatus, WorkloadRecommendation}
use kubera.Actuator.Policy.{Policy}
use kubera.Actuator.Plan.{plan_pod}
use kubera.Actuator.Recreate.{blocked_memory_shrink}
use kubera.Recommender.States.{Recommender}
use kubera.Controller.Bounds.{validate_bounds}
use kubera.Controller.Conflicts.{Deployment}
use kubera.Controller.Collection.{ok}
use kubera.Controller.Collection.Workloads.{Source, Computed, compute_recommendations}
use kubera.Controller.Collection.Workloads.Published.{
  IsPublished, IsResult, compute_recommendations-IsResult,
}
use kubera.Controller.Coupling.{coordinated, coordinate_hpa}
use kubera.Controller.Actuation.Targets.Found.{find_recommendation-All}
use kubera.Controller.Actuation.Targets.{
  find_recommendation, targets_of, nil_targets_of, share_targets,
}
use kubera.Controller.Actuation.Targets.Shared.{Filled}
use kubera.Controller.Actuation.Pass.{usage_of}
use kubera.Webhook.{Approximate, is_off, default_pod}
use kubera.Webhook.Coordinated.{IsUnique, default_pod-coordinated}

published-Filled :
    {Q S P L : Type 0} ⦃q : Quantity Q⦄ (x : Source Q S P L) (matched : List (Deployment S L))
    (rec : WorkloadRecommendation Q)
    → IsPublished x matched rec
    → (rec.containers ≢ []) × Filled rec.containers
unfolding Filled
published-Filled x matched rec (of_matched, (c, cs, e), all) = (
  (λ empty. let impossible = rw e at empty in cc),
  All-map rec.containers
      (λ c target.
        let (cpu, mem, target_eq, cpu_within, mem_within) = target.2 in rw target_eq refl)
      all,
)

module _ {Q F : Type 0} ⦃q : Quantity Q⦄ ⦃f : Float64 F⦄ where
  -- The replacement of an evicted pod. Of a spec that passes the validation, a pass computes the
  -- recommendations and sets the floors of the autoscaler in the targets of a deployment that has
  -- one. Then the webhook, which reads the status with these targets, sizes the deployment's new
  -- pods so that for the same targets nothing is to be done: no resize is planned, and no eviction
  -- to shrink the memory. No two recommendations are about the same workload, the object is not in
  -- the mode Off and is the first that the webhook lists, and the tolerance is not negative.
  pub default_pod-replaced :
      {S P L : Type 0} (a : Approximate Q F)
      → IsQuantity Q
      → IsIeee F
      → (x : Source Q S P L) (matched : List (Deployment S L)) (r : Recommender F)
        (deployment : String) (hpas : Option (List Autoscaler)) (now : Time)
        (status : DynamicResourceStatus Q) (others : List (UpdateMode × DynamicResourceStatus Q))
        (pod : Pod Q) (policy : Policy F) {computed : Computed Q F} {rec : WorkloadRecommendation Q}
        {state : HpaState} {targets : List (String × ResourceList Q)}
      → validate_bounds x.spec ≡ none
      → compute_recommendations x matched r ≡ ok computed
      → IsUnique computed.recommendations
      → find_recommendation deployment computed.recommendations ≡ some rec
      → coordinate_hpa x.spec deployment hpas
          (targets_of rec.containers [])
          (nil_targets_of rec.containers [])
          (usage_of (lookup deployment computed.usage))
          now
        ≡ coordinated state targets
      → is_off x.spec.update_mode ≡ false
      → f.of_int (pos 0) ≼ policy.tolerance
      → let left = record status {
        recommendations = share_targets deployment targets computed.recommendations;
      } in
        let sized = default_pod a (some deployment) ((x.spec.update_mode, left) ∷ others) pod in
        (plan_pod sized targets policy ≡ none)
        × (blocked_memory_shrink sized targets policy ≡ false)
  default_pod-replaced a laws ieee x matched r deployment hpas now status others pod policy
        {computed = computed} {rec = rec} valid ran unique found ended on h =
      let result =
        subst (λ o. IsResult x matched o) ran
          (compute_recommendations-IsResult laws x matched valid r) in
      let (some_container, filled) = published-Filled x matched rec (
        find_recommendation-All (IsPublished x matched) deployment computed.recommendations result.1
          found) in
      let before = record status { recommendations = computed.recommendations } in
      default_pod-coordinated a laws ieee x.spec deployment hpas
        (usage_of (lookup deployment computed.usage)) now before others pod policy unique found
        some_container filled ended on h
