-- ===== src/Controller/Reconcile/Total.antt =====
-- internal/controller/dynamicresource_controller.go: no pass of `Reconcile` panics.
use kubera.Base.{
  All, ◌≡◌, refl, ◌∙◌, sym, subst, Bool, true, false, Option, none, some, inl, inr, String, List,
  [], ◌∷◌, Bool-cases, map,
}
use kubera.Go.Float64.{Float64, IsIeee}
use kubera.Go.Float64.Log.{IsLog}
use kubera.Go.Time.{Duration}
use kubera.Kube.Quantity.{Quantity, IsQuantity}
use kubera.Api.{DynamicResource, WorkloadRecommendation}
use kubera.Recommender.States.{Recommender, new_recommender}
use kubera.Recommender.States.Total.{IsSound}
use kubera.Controller.Conflicts.{Deployment}
use kubera.Controller.Collection.{Outcome, ok, err, panic, UsageSnapshots}
use kubera.Controller.Collection.Workloads.{Computed, compute_recommendations}
use kubera.Controller.Collection.Workloads.Total.{IsSafe, compute_recommendations-IsSafe}
use kubera.Controller.Gauges.{Gauges, initial_gauges}
use kubera.Cmd.Manager.{initial_reconciler}
use kubera.Controller.Actuation.Pass.{actuate}
use kubera.Controller.Reconcile.{Environment, Reconciler, set_condition, polling_interval}
use kubera.Controller.Reconcile.Endings.{
  Progress, Reconciled, patch_status, fail, no_requeue, is_actuating, kept, with_actuated,
  feasibility,
}
use kubera.Controller.Reconcile.Handler.{
  source_of, setting_of, updated, with_computed, is_panic, without_usage, actuate_if,
  after_computation, reconcile_object,
}
use kubera.Controller.Reconcile.Verdict.{
  Verdict, refused, broken, clear, IsApi, verdict, IsPassOf, reconcile_object-IsPassOf,
}
use kubera.Controller.Actuation.Pass.Quiet.{HasTargets}
use kubera.Controller.Reconcile.Quiet.{pass-quiet}
use kubera.Controller.Reconcile.Refused.{patch_status-IsPatched}

module _ {Q F S P L : Type 0} ⦃q : Quantity Q⦄ ⦃f : Float64 F⦄ (env : Environment Q S P L)
    (laws : IsApi env) (dr : DynamicResource Q S) where
  -- The recommender that is left takes in every sample.
  abbrev IsLeft : Reconciled Q F → Type 0
  IsLeft out = IsSound out.progress.reconciler.recommender

  patch_status-IsLeft :
      (w : Progress Q F) (requeue : Duration)
      → IsSound w.reconciler.recommender
      → IsLeft (patch_status env dr w requeue)
  patch_status-IsLeft w requeue sound =
      subst (λ p. IsSound p.reconciler.recommender)
        (sym (patch_status-IsPatched env laws dr w requeue).0) sound

  feasibility-reconciler :
      (blocked : Bool) (pods : List String) (w : Progress Q F)
      → (feasibility env dr blocked pods w).reconciler ≡ w.reconciler
  unfolding set_condition
  feasibility-reconciler true pods w = refl
  feasibility-reconciler false [] w = refl
  feasibility-reconciler false (pod ∷ pods) w = refl

  actuate_if-IsLeft :
      (b : Bool) (matched : List (Deployment S L)) (usage : UsageSnapshots F) (w : Progress Q F)
      → IsSound w.reconciler.recommender
      → IsLeft (actuate_if env dr b matched usage w)
  unfolding set_condition
  actuate_if-IsLeft false matched usage w sound = patch_status-IsLeft _ _ sound
  actuate_if-IsLeft true matched usage w sound =
      let a =
        actuate (setting_of env dr matched usage) (map (λ d. d.name) matched) w.status
          w.reconciler.cooldowns w.gauges in
      let done = with_actuated a w in
      let blocked = a.state.result.recreate_blocked in
      let pods = a.state.result.infeasible in
      elim (Bool-cases env.resize_supported) [
        | inr unsupported ↦ simp unsupported (patch_status-IsLeft _ _ sound)
        | inl supported ↦ elim (Bool-cases a.is_error) [
          | inl error ↦ simp (supported, error) (patch_status-IsLeft done no_requeue sound)
          | inr fine ↦
              simp (supported, fine)
                (patch_status-IsLeft _ (polling_interval dr.spec) (
                  subst (λ r. IsSound r.recommender)
                    (sym (feasibility-reconciler blocked pods done)) sound))
        ]
      ]

  updated-reconciler :
      (recs : List (WorkloadRecommendation Q)) (w : Progress Q F)
      → (updated env dr recs w).reconciler ≡ w.reconciler
  updated-reconciler recs w =
      elim (Bool-cases (env.same_recommendations w.status.recommendations recs)) [
        | inl same ↦ simp same refl
        | inr other ↦ simp other refl
      ]

  -- So does the recommender of a pass that does not panic.
  abbrev pub IsSoundIn : Option (Reconciled Q F) → Type 0
  IsSoundIn none = Unit
  IsSoundIn (some out) = IsLeft out

  after_computation-IsSoundIn :
      (matched : List (Deployment S L)) (o : Outcome (Computed Q F) (Recommender F))
      (w : Progress Q F)
      → IsSafe o
      → IsSoundIn (after_computation env dr matched o w)
  unfolding set_condition
  after_computation-IsSoundIn matched panic w safe = tt
  after_computation-IsSoundIn matched (err r) w safe =
      patch_status-IsLeft (without_usage env dr r w) no_requeue safe
  after_computation-IsSoundIn matched (ok c) w safe =
      let recs = kept w.status.recommendations c.recommendations in
      let after = updated env dr recs (with_computed env dr recs c w) in
      let left = actuate_if-IsLeft (is_actuating dr.spec.update_mode) matched c.usage after (
        subst (λ r. IsSound r.recommender)
          (sym (updated-reconciler recs (with_computed env dr recs c w))) safe) in
      elim (Bool-cases (is_panic env dr (is_actuating dr.spec.update_mode) matched c.usage after)) [
        | inl panics ↦ rw panics tt
        | inr fine ↦ rw fine left
      ]

  pass-IsSoundIn :
      (quantities : IsQuantity Q) (ieee : IsIeee F) (log : IsLog F) (r : Reconciler F)
      (g : Gauges F) (v : Verdict S L) (o : Option (Reconciled Q F))
      → IsSound r.recommender
      → IsPassOf env laws dr r g v o
      → IsSoundIn o
  pass-IsSoundIn quantities ieee log r g (refused reason requeue) o sound (w, e, h, k) =
      subst IsSoundIn (sym e)
        (patch_status-IsLeft w requeue (subst (λ x. IsSound x.recommender) (sym h.0) sound))
  pass-IsSoundIn quantities ieee log r g broken o sound (w, e, h) =
      subst IsSoundIn (sym e) (subst (λ x. IsSound x.recommender) (sym h.0) sound)
  pass-IsSoundIn quantities ieee log r g (clear matched) o sound (w, e, h) =
      subst IsSoundIn (sym e) (
        after_computation-IsSoundIn matched
          (compute_recommendations (source_of env dr) matched r.recommender) w
          (compute_recommendations-IsSafe quantities ieee log (source_of env dr) matched
            r.recommender sound))

  after_computation-ends :
      (quantities : IsQuantity Q) (r : Recommender F) (matched : List (Deployment S L))
      (o : Outcome (Computed Q F) (Recommender F)) (w : Progress Q F)
      → verdict env dr ≡ clear matched
      → compute_recommendations (source_of env dr) matched r ≡ o
      → w.status.recommendations ≡ dr.status.recommendations
      → All HasTargets dr.status.recommendations
      → IsSafe o
      → (out : Reconciled Q F) × (after_computation env dr matched o w ≡ some out)
  unfolding set_condition
  after_computation-ends quantities r matched panic w free e same stored safe = elim safe [ ]
  after_computation-ends quantities r matched (err s) w free e same stored safe = (_, refl)
  after_computation-ends quantities r matched (ok c) w free e same stored safe =
      let quiet =
        pass-quiet env dr quantities r (is_actuating dr.spec.update_mode) w free e same stored in
      let recs = kept w.status.recommendations c.recommendations in
      let after = updated env dr recs (with_computed env dr recs c w) in
      (actuate_if env dr (is_actuating dr.spec.update_mode) matched c.usage after, rw quiet refl)

  pass-ends :
      (quantities : IsQuantity Q) (ieee : IsIeee F) (log : IsLog F) (r : Reconciler F)
      (g : Gauges F) (v : Verdict S L) {o : Option (Reconciled Q F)}
      → verdict env dr ≡ v
      → All HasTargets dr.status.recommendations
      → IsSound r.recommender
      → IsPassOf env laws dr r g v o
      → (out : Reconciled Q F) × (o ≡ some out)
  pass-ends quantities ieee log r g (refused reason requeue) free stored sound (w, e, h, k) =
      (patch_status env dr w requeue, e)
  pass-ends quantities ieee log r g broken free stored sound (w, e, h) = (fail env dr w, e)
  pass-ends quantities ieee log r g (clear matched) free stored sound (w, e, h) =
      let (out, ended) =
        after_computation-ends quantities r.recommender matched
          (compute_recommendations (source_of env dr) matched r.recommender) w free refl h.3 stored
          (compute_recommendations-IsSafe quantities ieee log (source_of env dr) matched
            r.recommender sound) in
      (out, e ∙ ended)

-- What the operator holds after any number of passes of `Reconcile` since its start, for any objects
-- and answers of the API server and of the metrics.
pub data Reached (Q F S P L : Type 0) ⦃q : Quantity Q⦄ ⦃f : Float64 F⦄
    : Reconciler F → Gauges F → Type 0 where
  start : Reached Q F S P L initial_reconciler initial_gauges
  pass :
      {r : Reconciler F} {g : Gauges F} {out : Reconciled Q F}
      → Reached Q F S P L r g
      → (env : Environment Q S P L) (dr : DynamicResource Q S) → IsApi env
      → reconcile_object env dr r g ≡ some out
      → Reached Q F S P L out.progress.reconciler out.progress.gauges

module _ {Q F S P L : Type 0} ⦃q : Quantity Q⦄ ⦃f : Float64 F⦄ (quantities : IsQuantity Q)
    (ieee : IsIeee F) (log : IsLog F) where
  Reached-IsSound :
      {r : Reconciler F} {g : Gauges F} → Reached Q F S P L r g → IsSound r.recommender
  unfolding new_recommender
  Reached-IsSound start = tt
  Reached-IsSound (pass {r = r} {g = g} before env dr laws ended) =
      subst (λ o. IsSoundIn env laws dr o) ended
        (pass-IsSoundIn env laws dr quantities ieee log r g (verdict env dr) _
          (Reached-IsSound before) (reconcile_object-IsPassOf env laws dr r g))

  -- However many passes the operator has made since its start, and whatever objects, samples and
  -- answers it has met, the next pass of `Reconcile` ends and does not panic, if no container of the
  -- object's stored recommendations has a nil map as its target.
  pub reconcile_object-ends :
      {r : Reconciler F} {g : Gauges F} (env : Environment Q S P L) (dr : DynamicResource Q S)
      → Reached Q F S P L r g
      → IsApi env
      → All HasTargets dr.status.recommendations
      → (out : Reconciled Q F) × (reconcile_object env dr r g ≡ some out)
  reconcile_object-ends {r} {g} env dr reached laws stored =
      pass-ends env laws dr quantities ieee log r g (verdict env dr) refl stored
        (Reached-IsSound reached) (reconcile_object-IsPassOf env laws dr r g)
