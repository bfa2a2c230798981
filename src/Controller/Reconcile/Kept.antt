-- ===== src/Controller/Reconcile/Kept.antt =====
-- internal/controller/dynamicresource_controller.go: the recommendations that a pass of `Reconcile`
-- stores.
use kubera.Base.{
  ◌≡◌, refl, sym, ap, subst, ◌∙◌, Bool, true, false, Option, none, some, ◌⊎◌, inl, inr, String,
  List, [], ◌∷◌, Bool-cases, map,
}
use kubera.Go.Float64.{Float64}
use kubera.Go.Time.{Duration}
use kubera.Kube.Quantity.{Quantity}
use kubera.Api.{DynamicResource, WorkloadRecommendation}
use kubera.Recommender.States.{Recommender}
use kubera.Controller.Conflicts.{Deployment}
use kubera.Controller.Collection.{Outcome, ok, err, panic}
use kubera.Controller.Collection.Workloads.{Computed, compute_recommendations}
use kubera.Controller.Gauges.{Gauges}
use kubera.Controller.Actuation.Pass.{Actuated, actuate}
use kubera.Controller.Actuation.Pass.Named.{names_of, names_of-actuate}
use kubera.Controller.Reconcile.{Environment, Reconciler, polling_interval, set_condition}
use kubera.Controller.Reconcile.Endings.{
  Progress, Reconciled, patch_status, kept, no_requeue, feasibility, with_actuated, readied, close,
  after_actuation, is_actuating,
}
use kubera.Controller.Reconcile.Handler.{
  source_of, setting_of, with_computed, updated, is_panic, actuate_if, without_usage,
  after_computation, reconcile_object,
}
use kubera.Controller.Reconcile.Verdict.{
  Verdict, refused, broken, clear, IsApi, verdict, IsUntouched, IsPassOf, reconcile_object-IsPassOf,
}
use kubera.Controller.Reconcile.Refused.{patch_status-IsPatched, patch_status-recommendations}

module _ {Q F S P L : Type 0} ⦃q : Quantity Q⦄ ⦃f : Float64 F⦄ (env : Environment Q S P L)
    (laws : IsApi env) (dr : DynamicResource Q S) where
  -- The names are the last ones, or those that were computed, of which there are some.
  abbrev pub IsNamed : Computed Q F → List (WorkloadRecommendation Q) → Type 0
  IsNamed c recs =
      (names_of recs ≡ names_of dr.status.recommendations)
      ⊎ ((names_of recs ≡ names_of c.recommendations)
          × ((w : WorkloadRecommendation Q) × (ws : List (WorkloadRecommendation Q))
              × (c.recommendations ≡ w ∷ ws)))

  IsNamed-congr :
      (c : Computed Q F) (recs later : List (WorkloadRecommendation Q))
      → names_of later ≡ names_of recs
      → IsNamed c recs
      → IsNamed c later
  IsNamed-congr c recs later e (inl h) = inl (e ∙ h)
  IsNamed-congr c recs later e (inr h) = inr (e ∙ h.0, h.1)

  patch_status-IsNamed :
      (c : Computed Q F) (w : Progress Q F) (requeue : Duration)
      → IsNamed c w.status.recommendations
      → IsNamed c (patch_status env dr w requeue).stored.recommendations
  patch_status-IsNamed c w requeue h = elim (patch_status-IsPatched env laws dr w requeue).1 [
    | inl (error, stored) ↦ inl (ap (λ s. names_of s.recommendations) stored)
    | inr (fine, conditions, inl stored, later) ↦ inl (ap (λ s. names_of s.recommendations) stored)
    | inr (fine, conditions, inr stored, later) ↦
        IsNamed-congr c w.status.recommendations
          (patch_status env dr w requeue).stored.recommendations
          (ap (λ s. names_of s.recommendations) stored) h
  ]

  close-IsNamed :
      (c : Computed Q F) (matched : List (Deployment S L)) (w : Progress Q F)
      → IsNamed c w.status.recommendations
      → IsNamed c (close env dr matched w).stored.recommendations
  unfolding set_condition
  close-IsNamed c matched w h =
      patch_status-IsNamed c (readied env dr matched w) (polling_interval dr.spec) h

  feasibility-recommendations :
      (blocked : Bool) (pods : List String) (w : Progress Q F)
      → (feasibility env dr blocked pods w).status.recommendations ≡ w.status.recommendations
  unfolding set_condition
  feasibility-recommendations true pods w = refl
  feasibility-recommendations false [] w = refl
  feasibility-recommendations false (pod ∷ pods) w = refl

  after_actuation-IsNamed :
      (c : Computed Q F) (matched : List (Deployment S L)) (a : Actuated Q F) (w : Progress Q F)
      → IsNamed c a.status.recommendations
      → IsNamed c (after_actuation env dr matched a w).stored.recommendations
  unfolding set_condition
  after_actuation-IsNamed c matched a w h =
      let done = with_actuated a w in
      let blocked = a.state.result.recreate_blocked in
      let pods = a.state.result.infeasible in
      elim (Bool-cases a.is_error) [
        | inl error ↦ simp error (patch_status-IsNamed c done no_requeue h)
        | inr fine ↦ simp fine (
            close-IsNamed c matched (feasibility env dr blocked pods done)
              (subst (IsNamed c) (sym (feasibility-recommendations blocked pods done)) h))
      ]

  actuate_if-IsNamed :
      (c : Computed Q F) (matched : List (Deployment S L)) (w : Progress Q F)
      → IsNamed c w.status.recommendations
      → IsNamed c
          (actuate_if env dr
            (is_actuating dr.spec.update_mode)
            matched
            c.usage
            w).stored.recommendations
  unfolding set_condition
  actuate_if-IsNamed c matched w h =
      let names = map (λ d. d.name) matched in
      let a =
        actuate (setting_of env dr matched c.usage) names w.status w.reconciler.cooldowns
          w.gauges in
      let named : IsNamed c a.status.recommendations =
        IsNamed-congr c w.status.recommendations a.status.recommendations
          (names_of-actuate (setting_of env dr matched c.usage) names w.status
            w.reconciler.cooldowns w.gauges)
          h in
      elim (Bool-cases (is_actuating dr.spec.update_mode)) [
        | inr off ↦ rw off (close-IsNamed c matched w h)
        | inl on ↦ elim (Bool-cases env.resize_supported) [
          | inr unsupported ↦ rw on (simp unsupported (patch_status-IsNamed c _ _ h))
          | inl supported ↦ rw on (simp supported (after_actuation-IsNamed c matched a w named))
        ]
      ]

  kept-IsNamed :
      (c : Computed Q F) (recs : List (WorkloadRecommendation Q))
      → c.recommendations ≡ recs
      → IsNamed c (kept dr.status.recommendations recs)
  kept-IsNamed c [] e = inl refl
  kept-IsNamed c (w ∷ ws) e = inr (ap names_of (sym e), (w, ws, e))

  updated-IsNamed :
      (c : Computed Q F) (w : Progress Q F)
      → w.status.recommendations ≡ dr.status.recommendations
      → let recs = kept w.status.recommendations c.recommendations in
        IsNamed c (updated env dr recs (with_computed env dr recs c w)).status.recommendations
  updated-IsNamed c w h =
      let recs = kept w.status.recommendations c.recommendations in
      elim (Bool-cases (env.same_recommendations w.status.recommendations recs)) [
        | inl same ↦ simp same (inl (ap names_of h))
        | inr other ↦ simp other (rw h (kept-IsNamed c c.recommendations refl))
      ]

  -- What a pass stores: the last names, or those of recommendations that it has computed.
  abbrev pub IsStored : Reconciler F → Verdict S L → Option (Reconciled Q F) → Type 0
  IsStored r v none = Unit
  IsStored r v (some out) =
      (names_of out.stored.recommendations ≡ names_of dr.status.recommendations)
      ⊎ ((matched : List (Deployment S L)) × (c : Computed Q F) × (v ≡ clear matched)
          × (compute_recommendations (source_of env dr) matched r.recommender ≡ ok c)
          × (names_of out.stored.recommendations ≡ names_of c.recommendations)
          × ((w : WorkloadRecommendation Q) × (ws : List (WorkloadRecommendation Q))
              × (c.recommendations ≡ w ∷ ws)))

  after_computation-IsStored :
      (r : Reconciler F) (g : Gauges F) (matched : List (Deployment S L))
      (o : Outcome (Computed Q F) (Recommender F)) (w : Progress Q F)
      → compute_recommendations (source_of env dr) matched r.recommender ≡ o
      → IsUntouched env laws dr r g w
      → IsStored r (clear matched) (after_computation env dr matched o w)
  unfolding set_condition
  after_computation-IsStored r g matched panic w e h = tt
  after_computation-IsStored r g matched (err s) w e h = inl (
      ap names_of
        (patch_status-recommendations env laws dr (without_usage env dr s w) no_requeue h.3))
  after_computation-IsStored r g matched (ok c) w e h =
      let recs = kept w.status.recommendations c.recommendations in
      let after = updated env dr recs (with_computed env dr recs c w) in
      elim (Bool-cases (is_panic env dr (is_actuating dr.spec.update_mode) matched c.usage after)) [
        | inl panics ↦ rw panics tt
        | inr fine ↦ rw fine (elim (actuate_if-IsNamed c matched after (updated-IsNamed c w h.3)) [
          | inl last ↦ inl last
          | inr (named, some_) ↦ inr (matched, c, refl, e, named, some_)
        ])
      ]

  pass-IsStored :
      (r : Reconciler F) (g : Gauges F) (v : Verdict S L) (o : Option (Reconciled Q F))
      → IsPassOf env laws dr r g v o
      → IsStored r v o
  pass-IsStored r g (refused reason requeue) o (w, e, h, k) =
      subst (IsStored r (refused reason requeue)) (sym e)
        (inl (ap names_of (patch_status-recommendations env laws dr w requeue h.3)))
  pass-IsStored r g broken o (w, e, h) = subst (IsStored r broken) (sym e) (inl refl)
  pass-IsStored r g (clear matched) o (w, e, h) =
      subst (IsStored r (clear matched)) (sym e) (after_computation-IsStored r g matched _ w refl h)

  -- However a pass ends, the workloads that the stored recommendations name, in their order, are
  -- those of before, or those of all the recommendations that this pass has computed, of which
  -- there are some. So a list that is not empty stays so; in the second case a workload of before
  -- that has none among them is gone.
  pub reconcile_object-keeps :
      (r : Reconciler F) (g : Gauges F) {out : Reconciled Q F}
      → reconcile_object env dr r g ≡ some out
      → (names_of out.stored.recommendations ≡ names_of dr.status.recommendations)
        ⊎ ((matched : List (Deployment S L)) × (c : Computed Q F) × (verdict env dr ≡ clear matched)
            × (compute_recommendations (source_of env dr) matched r.recommender ≡ ok c)
            × (names_of out.stored.recommendations ≡ names_of c.recommendations)
            × ((w : WorkloadRecommendation Q) × (ws : List (WorkloadRecommendation Q))
                × (c.recommendations ≡ w ∷ ws)))
  reconcile_object-keeps r g e = subst (IsStored r (verdict env dr)) e (
      pass-IsStored r g (verdict env dr) (reconcile_object env dr r g)
        (reconcile_object-IsPassOf env laws dr r g))
