-- ===== src/Controller/Reconcile/Quiet.antt =====
-- internal/controller/dynamicresource_controller.go: when the call of `actuate` does not panic.
use kubera.Base.{
  ◌≡◌, refl, sym, subst, Bool, true, false, none, inl, inr, List, [], ◌∷◌, All, All-map, Bool-cases,
  Option-cases, map,
}
use kubera.Go.Float64.{Float64}
use kubera.Kube.Quantity.{Quantity, IsQuantity}
use kubera.Api.{DynamicResource, WorkloadRecommendation}
use kubera.Recommender.States.{Recommender}
use kubera.Controller.Bounds.{validate_bounds}
use kubera.Controller.Conflicts.{Deployment}
use kubera.Controller.Collection.{ok, UsageSnapshots}
use kubera.Controller.Collection.Workloads.{Computed, compute_recommendations}
use kubera.Controller.Collection.Workloads.Published.{IsResult, compute_recommendations-IsResult}
use kubera.Controller.Actuation.Pass.Quiet.{HasTargets, actuate-quiet}
use kubera.Controller.Reconcile.{Environment}
use kubera.Controller.Reconcile.Endings.{Progress, kept}
use kubera.Controller.Reconcile.Handler.{source_of, setting_of, with_computed, updated, is_panic}
use kubera.Controller.Reconcile.Verdict.{clear, verdict}

kept-HasTargets :
    {Q : Type 0} (last recs : List (WorkloadRecommendation Q))
    → All HasTargets last
    → All HasTargets recs
    → All HasTargets (kept last recs)
kept-HasTargets last [] h k = h
kept-HasTargets last (w ∷ ws) h k = k

clear-valid :
    {Q S P L : Type 0} ⦃q : Quantity Q⦄ (env : Environment Q S P L) (dr : DynamicResource Q S)
    {matched : List (Deployment S L)}
    → verdict env dr ≡ clear matched
    → validate_bounds dr.spec ≡ none
clear-valid env dr free = elim (Option-cases (validate_bounds dr.spec)) [
  | inl valid ↦ valid
  | inr (b, e) ↦ let refused_ = rw e at free in cc
]

module _ {Q F S P L : Type 0} ⦃q : Quantity Q⦄ ⦃f : Float64 F⦄ (env : Environment Q S P L)
    (dr : DynamicResource Q S) where
  updated-HasTargets :
      (recs : List (WorkloadRecommendation Q)) (w : Progress Q F)
      → All HasTargets w.status.recommendations
      → All HasTargets recs
      → All HasTargets (updated env dr recs w).status.recommendations
  updated-HasTargets recs w h k =
      elim (Bool-cases (env.same_recommendations w.status.recommendations recs)) [
        | inl same ↦ simp same h
        | inr other ↦ simp other k
      ]

  is_panic-quiet :
      (b : Bool) (matched : List (Deployment S L)) (usage : UsageSnapshots F) (w : Progress Q F)
      → All HasTargets w.status.recommendations
      → is_panic env dr b matched usage w ≡ false
  is_panic-quiet false matched usage w h = refl
  is_panic-quiet true matched usage w h =
      let quiet =
        actuate-quiet (setting_of env dr matched usage) (map (λ d. d.name) matched) w.status
          w.reconciler.cooldowns w.gauges h in
      elim (Bool-cases env.resize_supported) [
        | inl supported ↦ simp (supported, quiet) refl
        | inr unsupported ↦ simp unsupported refl
      ]

  computed-HasTargets :
      IsQuantity Q
      → (r : Recommender F) {matched : List (Deployment S L)} {c : Computed Q F}
      → verdict env dr ≡ clear matched
      → compute_recommendations (source_of env dr) matched r ≡ ok c
      → All HasTargets c.recommendations
  computed-HasTargets laws r {matched} {c} free computed =
      let result =
        subst (λ o. IsResult (source_of env dr) matched o) computed
          (compute_recommendations-IsResult laws (source_of env dr) matched
            (clear-valid env dr free) r) in
      All-map c.recommendations (λ w p. All-map w.containers (λ c t. t.0) p.2) result.1

  -- Where no stored recommendation has a nil target, the call of `actuate` does not panic, whether
  -- the recommendations are computed or kept.
  pub pass-quiet :
      IsQuantity Q
      → (r : Recommender F) (b : Bool) (w : Progress Q F) {matched : List (Deployment S L)}
        {c : Computed Q F}
      → verdict env dr ≡ clear matched
      → compute_recommendations (source_of env dr) matched r ≡ ok c
      → w.status.recommendations ≡ dr.status.recommendations
      → All HasTargets dr.status.recommendations
      → let recs = kept w.status.recommendations c.recommendations in
        is_panic env dr b matched c.usage (updated env dr recs (with_computed env dr recs c w))
        ≡ false
  pass-quiet laws r b w {matched} {c} free computed same stored =
      let before = subst (All HasTargets) (sym same) stored in
      let recs = kept w.status.recommendations c.recommendations in
      let all =
        kept-HasTargets w.status.recommendations c.recommendations before
          (computed-HasTargets laws r free computed) in
      is_panic-quiet b matched c.usage (updated env dr recs (with_computed env dr recs c w))
        (updated-HasTargets recs (with_computed env dr recs c w) before all)
