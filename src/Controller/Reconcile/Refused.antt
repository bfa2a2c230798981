-- ===== src/Controller/Reconcile/Refused.antt =====
-- internal/controller/dynamicresource_controller.go: a pass that a guard ends, and one that leaves
-- the pods alone.
use kubera.Base.{
  ◌≡◌, refl, sym, ap, subst, ◌∙◌, true, false, Option, none, some, ◌⊎◌, inl, inr, String, List, [],
  Bool-cases,
}
use kubera.Go.Float64.{Float64}
use kubera.Go.Time.{Duration}
use kubera.Kube.Quantity.{Quantity}
use kubera.Kube.Objects.{no}
use kubera.Api.{DynamicResource, WorkloadRecommendation}
use kubera.Controller.Conflicts.{Deployment}
use kubera.Controller.Collection.{Outcome, ok, err, panic, UsageSnapshots}
use kubera.Recommender.States.{Recommender}
use kubera.Controller.Collection.Workloads.{Computed}
use kubera.Controller.Gauges.{Gauges}
use kubera.Controller.Reconcile.{Environment, Reconciler, set_condition}
use kubera.Controller.Reconcile.Endings.{Progress, Reconciled, patch_status, is_actuating, kept}
use kubera.Controller.Reconcile.Handler.{
  updated, with_computed, is_panic, actuate_if, after_computation, reconcile_object,
}
use kubera.Controller.Reconcile.Verdict.{
  Verdict, refused, broken, clear, HasCondition, IsApi, verdict, IsUntouched, IsPassOf,
  reconcile_object-IsPassOf,
}

module _ {Q F S P L : Type 0} ⦃q : Quantity Q⦄ ⦃f : Float64 F⦄ (env : Environment Q S P L)
    (laws : IsApi env) (dr : DynamicResource Q S) where
  -- An error with the status as it was, or the status as it is now.
  abbrev pub IsPatched : Progress Q F → Duration → Reconciled Q F → Type 0
  IsPatched w requeue out =
      (out.progress ≡ w)
      × (((out.is_error ≡ true) × (out.stored ≡ dr.status))
          ⊎ ((out.is_error ≡ false)
              × (out.stored.conditions ≡ w.status.conditions)
              × ((out.stored ≡ dr.status) ⊎ (out.stored ≡ w.status))
              × (out.requeue_after ≡ requeue)))

  pub patch_status-IsPatched :
      (w : Progress Q F) (requeue : Duration) → IsPatched w requeue (patch_status env dr w requeue)
  unfolding patch_status
  patch_status-IsPatched w requeue = elim (Bool-cases (env.same_status dr.status w.status)) [
    | inl same ↦ rw same (refl, inr (refl, laws.same-conditions same, inl refl, refl))
    | inr other ↦ elim (Bool-cases (env.patch w.status)) [
      | inl taken ↦ rw (other, taken) (refl, inr (refl, refl, inr refl, refl))
      | inr rejected ↦ rw (other, rejected) (refl, inl (refl, refl))
    ]
  ]

  pub patch_status-recommendations :
      (w : Progress Q F) (requeue : Duration)
      → w.status.recommendations ≡ dr.status.recommendations
      → (patch_status env dr w requeue).stored.recommendations ≡ dr.status.recommendations
  patch_status-recommendations w requeue h = elim (patch_status-IsPatched w requeue).1 [
    | inl (error, stored) ↦ ap (λ s. s.recommendations) stored
    | inr (fine, conditions, inl stored, later) ↦ ap (λ s. s.recommendations) stored
    | inr (fine, conditions, inr stored, later) ↦ ap (λ s. s.recommendations) stored ∙ h
  ]

  -- A guard that refuses ends the pass without a panic and without touching a pod, the recommender,
  -- the cooldowns, the gauges or the stored recommendations. Either the API server rejects the
  -- patch, which is an error that leaves the stored status as it was, or the stored status has the
  -- condition `Ready` as false with the guard's reason, and the pass is repeated when the guard says.
  pub reconcile_object-refused :
      (r : Reconciler F) (g : Gauges F) {reason : String} {requeue : Duration}
      → verdict env dr ≡ refused reason requeue
      → (out : Reconciled Q F) × (reconcile_object env dr r g ≡ some out)
        × (out.progress.reconciler ≡ r)
        × (out.progress.gauges ≡ g)
        × (out.progress.actions ≡ [])
        × (out.stored.recommendations ≡ dr.status.recommendations)
        × (((out.is_error ≡ true) × (out.stored ≡ dr.status))
            ⊎ ((out.is_error ≡ false)
                × HasCondition "Ready" no reason out.stored.conditions
                × (out.requeue_after ≡ requeue)))
  reconcile_object-refused r g {reason} {requeue} e =
      let passed : IsPassOf env laws dr r g (refused reason requeue) (reconcile_object env dr r g) =
        subst (λ v. IsPassOf env laws dr r g v (reconcile_object env dr r g)) e
          (reconcile_object-IsPassOf env laws dr r g) in
      let (w, ended, untouched, not_ready) = passed in
      let (same, ending) = patch_status-IsPatched w requeue in
      (
        patch_status env dr w requeue,
        ended,
        ap (λ a. a.reconciler) same ∙ untouched.0,
        ap (λ a. a.gauges) same ∙ untouched.1,
        ap (λ a. a.actions) same ∙ untouched.2,
        patch_status-recommendations w requeue untouched.3,
        elim ending [
          | inl failed ↦ inl failed
          | inr (fine, conditions, stored, later) ↦ inr (
            fine,
            subst (λ cs. HasCondition "Ready" no reason cs) (sym conditions) not_ready,
            later,
          )
        ],
      )

module _ {Q F S P L : Type 0} ⦃q : Quantity Q⦄ ⦃f : Float64 F⦄ (env : Environment Q S P L)
    (laws : IsApi env) (dr : DynamicResource Q S) (r : Reconciler F) (g : Gauges F) where
  -- No request for a pod is accepted, and no cooldown is set.
  abbrev pub IsHarmless : Reconciled Q F → Type 0
  IsHarmless out = (out.progress.actions ≡ []) × (out.progress.reconciler.cooldowns ≡ r.cooldowns)

  abbrev pub IsAll : (Reconciled Q F → Type 0) → Option (Reconciled Q F) → Type 0
  IsAll P none = Unit
  IsAll P (some out) = P out

  abbrev IsCautious : Option (Reconciled Q F) → Type 0
  IsCautious none = Unit
  IsCautious (some out) =
      ((is_actuating dr.spec.update_mode ≡ true) × (env.resize_supported ≡ true)) ⊎ IsHarmless out

  patch_status-IsHarmless :
      (w : Progress Q F) (requeue : Duration)
      → w.actions ≡ []
      → w.reconciler.cooldowns ≡ r.cooldowns
      → IsHarmless (patch_status env dr w requeue)
  patch_status-IsHarmless w requeue h k =
      let same = (patch_status-IsPatched env laws dr w requeue).0 in
      (ap (λ a. a.actions) same ∙ h, ap (λ a. a.reconciler.cooldowns) same ∙ k)

  updated_lem :
      (recs : List (WorkloadRecommendation Q)) (w : Progress Q F)
      → ((updated env dr recs w).actions ≡ w.actions)
        × ((updated env dr recs w).reconciler ≡ w.reconciler)
  updated_lem recs w = elim (Bool-cases (env.same_recommendations w.status.recommendations recs)) [
    | inl same ↦ simp same (refl, refl)
    | inr other ↦ simp other (refl, refl)
  ]

  actuate_if-IsCautious :
      (matched : List (Deployment S L)) (usage : UsageSnapshots F) (w : Progress Q F)
      → w.actions ≡ []
      → w.reconciler.cooldowns ≡ r.cooldowns
      → IsCautious (some (actuate_if env dr (is_actuating dr.spec.update_mode) matched usage w))
  unfolding set_condition
  actuate_if-IsCautious matched usage w h k = elim (Bool-cases (is_actuating dr.spec.update_mode)) [
    | inr off ↦ rw off (inr (patch_status-IsHarmless _ _ h k))
    | inl on ↦ elim (Bool-cases env.resize_supported) [
      | inl supported ↦ inl (on, supported)
      | inr unsupported ↦ rw on (simp unsupported (inr (patch_status-IsHarmless _ _ h k)))
    ]
  ]

  after_computation-IsCautious :
      (matched : List (Deployment S L)) (o : Outcome (Computed Q F) (Recommender F))
      (w : Progress Q F)
      → IsUntouched env laws dr r g w
      → IsCautious (after_computation env dr matched o w)
  unfolding set_condition
  after_computation-IsCautious matched panic w h = tt
  after_computation-IsCautious matched (err e) w h =
      inr (patch_status-IsHarmless _ _ h.2 (ap (λ a. a.cooldowns) h.0))
  after_computation-IsCautious matched (ok c) w h =
      let recs = kept w.status.recommendations c.recommendations in
      let same = updated_lem recs (with_computed env dr recs c w) in
      let after = updated env dr recs (with_computed env dr recs c w) in
      let cautious =
        actuate_if-IsCautious matched c.usage after (same.0 ∙ h.2)
          (ap (λ a. a.cooldowns) same.1 ∙ ap (λ a. a.cooldowns) h.0) in
      elim (Bool-cases (is_panic env dr (is_actuating dr.spec.update_mode) matched c.usage after)) [
        | inl panics ↦ rw panics tt
        | inr fine ↦ rw fine cautious
      ]

  pass-IsCautious :
      (v : Verdict S L) (o : Option (Reconciled Q F))
      → IsPassOf env laws dr r g v o
      → ((matched : List (Deployment S L)) × (v ≡ clear matched) × IsCautious o)
        ⊎ IsAll IsHarmless o
  pass-IsCautious (refused reason requeue) o (w, e, h, k) = inr (
      subst (IsAll IsHarmless) (sym e)
        (patch_status-IsHarmless w requeue h.2 (ap (λ a. a.cooldowns) h.0)))
  pass-IsCautious broken o (w, e, h) =
      inr (subst (IsAll IsHarmless) (sym e) (h.2, ap (λ a. a.cooldowns) h.0))
  pass-IsCautious (clear matched) o (w, e, h) =
      inl (matched, refl, subst IsCautious (sym e) (after_computation-IsCautious matched _ w h))

  -- A pass resizes or evicts a pod, or sets a cooldown, only where every guard lets matched
  -- deployments pass, the update mode is not `Off` or empty, and the cluster resizes pods.
  pub reconcile_object-cautious :
      {out : Reconciled Q F}
      → reconcile_object env dr r g ≡ some out
      → ((matched : List (Deployment S L)) × (verdict env dr ≡ clear matched)
          × (is_actuating dr.spec.update_mode ≡ true)
          × (env.resize_supported ≡ true))
        ⊎ IsHarmless out
  reconcile_object-cautious e =
      let passed =
        pass-IsCautious (verdict env dr) (reconcile_object env dr r g)
          (reconcile_object-IsPassOf env laws dr r g) in
      elim passed [
        | inr harmless ↦ inr (subst (IsAll IsHarmless) e harmless)
        | inl (matched, free, cautious) ↦ elim (subst IsCautious e cautious) [
          | inl (on, supported) ↦ inl (matched, free, on, supported)
          | inr harmless ↦ inr harmless
        ]
      ]
