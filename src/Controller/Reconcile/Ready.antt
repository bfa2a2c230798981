-- ===== src/Controller/Reconcile/Ready.antt =====
-- internal/controller/dynamicresource_controller.go: a pass of `Reconcile` that meets no guard.
use kubera.Base.{
  ◌≡◌, refl, sym, ap, subst, ◌∙◌, true, false, Option, none, some, ◌⊎◌, inl, inr, List, All,
  Bool-cases, map, pos, ltb_ℤ,
}
use kubera.Go.Float64.{Float64}
use kubera.Go.Time.{Duration}
use kubera.Kube.Quantity.{Quantity, IsQuantity}
use kubera.Kube.Objects.{yes}
use kubera.Api.{MetricsConfig, DynamicResource}
use kubera.Controller.Conflicts.{Deployment}
use kubera.Controller.Collection.{ok, UsageSnapshots}
use kubera.Controller.Collection.Workloads.{Computed, compute_recommendations}
use kubera.Controller.Gauges.{Gauges}
use kubera.Controller.Actuation.Pass.{actuate}
use kubera.Controller.Reconcile.{
  Environment, Reconciler, positive_or_default, interval_of, polling_interval, set_condition,
}
use kubera.Controller.Reconcile.Endings.{
  Progress, Reconciled, kept, feasibility, with_actuated, readied, close, is_actuating,
}
use kubera.Controller.Reconcile.Handler.{
  source_of, setting_of, with_computed, updated, actuate_if, reconcile_object,
}
use kubera.Controller.Reconcile.Verdict.{
  clear, HasCondition, IsApi, verdict, IsPassOf, reconcile_object-IsPassOf,
}
use kubera.Controller.Actuation.Pass.Quiet.{HasTargets}
use kubera.Controller.Reconcile.Quiet.{pass-quiet}
use kubera.Controller.Reconcile.Refused.{patch_status-IsPatched}

positive_or_default-positive : (o : Option Duration) → ltb_ℤ (pos 0) (positive_or_default o) ≡ true
positive_or_default-positive none = refl
positive_or_default-positive (some d) = elim (Bool-cases (ltb_ℤ (pos 0) d)) [
  | inl positive ↦ rw positive positive
  | inr other ↦ rw other refl
]

interval_of-positive : (o : Option MetricsConfig) → ltb_ℤ (pos 0) (interval_of o) ≡ true
interval_of-positive none = refl
interval_of-positive (some m) = positive_or_default-positive m.polling_interval

module _ {Q F S P L : Type 0} ⦃q : Quantity Q⦄ ⦃f : Float64 F⦄ (env : Environment Q S P L)
    (laws : IsApi env) (dr : DynamicResource Q S) where
  -- The stored status is ready, and the pass is repeated.
  abbrev pub IsReady : Reconciled Q F → Type 0
  IsReady out =
      (out.is_error ≡ false)
      × HasCondition "Ready" yes "Reconciled" out.stored.conditions
      × (out.requeue_after ≡ polling_interval dr.spec)
      × (ltb_ℤ (pos 0) out.requeue_after ≡ true)

  -- Or an error, which keeps the stored status or has the excuse.
  abbrev pub IsEnded : Type 0 → Reconciled Q F → Type 0
  IsEnded Excuse out = IsReady out ⊎ ((out.is_error ≡ true) × ((out.stored ≡ dr.status) ⊎ Excuse))

  close-IsEnded :
      (Excuse : Type 0) (matched : List (Deployment S L)) (w : Progress Q F)
      → IsEnded Excuse (close env dr matched w)
  unfolding set_condition polling_interval
  close-IsEnded Excuse matched w =
      elim (patch_status-IsPatched env laws dr (readied env dr matched w)
        (polling_interval dr.spec)).1 [
          | inl (error, stored) ↦ inr (error, inl stored)
          | inr (fine, conditions, stored, later) ↦ inl (
            fine,
            subst (λ cs. HasCondition "Ready" yes "Reconciled" cs) (sym conditions)
                (laws.set-found _ _),
            later,
            ap (ltb_ℤ (pos 0)) later ∙ interval_of-positive dr.spec.metrics,
          )
        ]

  actuate_if-IsEnded :
      (Excuse : Type 0) (matched : List (Deployment S L)) (usage : UsageSnapshots F)
      (w : Progress Q F)
      → (is_actuating dr.spec.update_mode ≡ true → env.resize_supported ≡ true → Excuse)
      → IsEnded Excuse (actuate_if env dr (is_actuating dr.spec.update_mode) matched usage w)
  actuate_if-IsEnded Excuse matched usage w excuse =
      let a =
        actuate (setting_of env dr matched usage) (map (λ d. d.name) matched) w.status
          w.reconciler.cooldowns w.gauges in
      let done = with_actuated a w in
      let blocked = a.state.result.recreate_blocked in
      let pods = a.state.result.infeasible in
      elim (Bool-cases (is_actuating dr.spec.update_mode)) [
        | inr off ↦ rw off (close-IsEnded Excuse matched w)
        | inl on ↦ elim (Bool-cases env.resize_supported) [
          | inr unsupported ↦ rw on (simp unsupported (close-IsEnded Excuse matched _))
          | inl supported ↦ elim (Bool-cases a.is_error) [
            | inl error ↦ rw on (simp (supported, error) (inr (refl, inr (excuse on supported))))
            | inr fine ↦ rw on (
                simp (supported, fine)
                  (close-IsEnded Excuse matched (feasibility env dr blocked pods done)))
          ]
        ]
      ]

  -- Where the guards let matched deployments pass, the recommendations are computed, and no container
  -- of the stored recommendations has a nil map as its target, the pass does not panic, and ends in one of these ways: the stored status has the condition `Ready` as
  -- true and the pass is repeated after the polling interval, which is positive; the API server
  -- rejects the patch, which leaves the stored status as it was; or an error ends the actuation,
  -- in an update mode that actuates and on a cluster that resizes pods.
  pub reconcile_object-IsEnded :
      IsQuantity Q
      → (r : Reconciler F) (g : Gauges F) {matched : List (Deployment S L)} {c : Computed Q F}
      → All HasTargets dr.status.recommendations
      → verdict env dr ≡ clear matched
      → compute_recommendations (source_of env dr) matched r.recommender ≡ ok c
      → (out : Reconciled Q F) × (reconcile_object env dr r g ≡ some out)
        × IsEnded ((is_actuating dr.spec.update_mode ≡ true) × (env.resize_supported ≡ true)) out
  reconcile_object-IsEnded quantities r g {matched} {c} stored free computed =
      let passed : IsPassOf env laws dr r g (clear matched) (reconcile_object env dr r g) =
        subst (λ v. IsPassOf env laws dr r g v (reconcile_object env dr r g)) free
          (reconcile_object-IsPassOf env laws dr r g) in
      let (w, ended, untouched) = passed in
      let recs = kept w.status.recommendations c.recommendations in
      let after = updated env dr recs (with_computed env dr recs c w) in
      let quiet =
        pass-quiet env dr quantities r.recommender (is_actuating dr.spec.update_mode) w free
          computed untouched.3 stored in
      (
        actuate_if env dr (is_actuating dr.spec.update_mode) matched c.usage after,
        rw (computed, quiet) at ended,
        actuate_if-IsEnded _ matched c.usage after (λ on supported. (on, supported)),
      )
