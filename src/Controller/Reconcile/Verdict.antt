-- ===== src/Controller/Reconcile/Verdict.antt =====
-- internal/controller/dynamicresource_controller.go: what the guards of `Reconcile` decide, apart
-- from what they write, and that a pass goes by it.
use mathlib.Core.Option
use kubera.Base.{
  ◌≡◌, refl, ap, true, Option, none, some, ◌⊎◌, inl, inr, String, List, [], ◌∷◌, map, str_eq,
  Bool-cases, if◌then◌else◌,
}
use kubera.Go.Float64.{Float64}
use kubera.Go.Time.{Duration}
use kubera.Kube.Quantity.{Quantity}
use kubera.Kube.Objects.{Condition, ConditionStatus, no}
use kubera.Api.{DynamicResource}
use kubera.Controller.Conflicts.{Deployment, conflicted_workloads}
use kubera.Controller.Vpa.{vpa_conflicts}
use kubera.Controller.Bounds.{InvertedBounds, validate_bounds}
use kubera.Controller.Collection.Workloads.{compute_recommendations}
use kubera.Controller.Gauges.{Gauges}
use kubera.Controller.Reconcile.{
  Failure, Environment, Reconciler, managed_of, polling_interval, resolve_selector, set_condition,
}
use kubera.Controller.Reconcile.Endings.{
  Progress, Reconciled, no_requeue, is_unsupported, patch_status, fail,
}
use kubera.Controller.Reconcile.Handler.{
  source_of, after_computation, check_match, check_vpa, check_conflicts, check_selector,
  check_bounds, started, reconcile_object,
}

-- A guard that gives its reason and when to look again, an error before any write, or the matched
-- deployments that are free to manage.
pub data Verdict (S L : Type 0) : Type 0 where
  refused : String → Duration → Verdict S L
  broken : Verdict S L
  clear : List (Deployment S L) → Verdict S L

-- `meta.FindStatusCondition`.
abbrev pub find_condition : String → List Condition → Option Condition
find_condition kind [] = none
find_condition kind (c ∷ cs) = if str_eq c.kind kind then some c else find_condition kind cs

-- The list has a condition of this kind, with this status and reason.
abbrev pub HasCondition : String → ConditionStatus → String → List Condition → Type 0
HasCondition kind status reason cs =
    (c : Condition) × (find_condition kind cs ≡ some c) × (c.status ≡ status) × (c.reason ≡ reason)

-- What the code relies on of the libraries and the API server: a condition that was set is found,
-- and statuses that are the same have the same conditions.
pub record IsApi {Q S P L : Type 0} (env : Environment Q S P L) : Type 0 where
  pub set-found :
      (c : Condition) (cs : List Condition)
      → HasCondition c.kind c.status c.reason (env.set_status_condition c cs)
  pub same-conditions : {a b : _} → env.same_status a b ≡ true → a.conditions ≡ b.conditions

module _ {Q S P L : Type 0} ⦃q : Quantity Q⦄ (env : Environment Q S P L)
    (dr : DynamicResource Q S) where
  abbrev of_match : List (Deployment S L) → Verdict S L
  of_match [] = refused "NoMatch" (polling_interval dr.spec)
  of_match (d ∷ ds) =
      if is_unsupported dr.spec.metrics env.prometheus
      then refused "UnsupportedProvider" no_requeue
      else clear (d ∷ ds)

  abbrev of_vpa : List (Deployment S L) → Option (List String) → Verdict S L
  of_vpa matched none = broken
  of_vpa matched (some []) = of_match matched
  of_vpa matched (some (name ∷ names)) = refused "Conflicted" (polling_interval dr.spec)

  abbrev of_conflicts : List (Deployment S L) → Option (List String) → Verdict S L
  of_conflicts matched none = broken
  of_conflicts matched (some []) =
      of_vpa matched (vpa_conflicts env.vertical_autoscalers (map (λ d. d.name) matched))
  of_conflicts matched (some (name ∷ names)) = refused "Conflicted" no_requeue

  abbrev of_selector : Failure ⊎ List (Deployment S L) → Verdict S L
  of_selector (inl failure) = refused "InvalidSelector" no_requeue
  of_selector (inr matched) = of_conflicts matched (
      Option.map (λ all. conflicted_workloads env.selectors (managed_of dr) all matched)
        env.objects)

  abbrev of_bounds : Option InvertedBounds → Verdict S L
  of_bounds (some b) = refused "InvalidBounds" no_requeue
  of_bounds none = of_selector (resolve_selector env dr.spec.selector)

  abbrev pub verdict : Verdict S L
  verdict = of_bounds (validate_bounds dr.spec)

module _ {Q F S P L : Type 0} ⦃q : Quantity Q⦄ ⦃f : Float64 F⦄ (env : Environment Q S P L)
    (laws : IsApi env) (dr : DynamicResource Q S) (r : Reconciler F) (g : Gauges F) where
  -- Nothing has changed but the status, and of it not the recommendations.
  abbrev pub IsUntouched : Progress Q F → Type 0
  IsUntouched w =
      (w.reconciler ≡ r)
      × (w.gauges ≡ g)
      × (w.actions ≡ [])
      × (w.status.recommendations ≡ dr.status.recommendations)

  abbrev pub IsPassOf : Verdict S L → Option (Reconciled Q F) → Type 0
  IsPassOf (refused reason requeue) o =
      (w : Progress Q F) × (o ≡ some (patch_status env dr w requeue))
      × IsUntouched w
      × HasCondition "Ready" no reason w.status.conditions
  IsPassOf broken o = (w : Progress Q F) × (o ≡ some (fail env dr w)) × IsUntouched w
  IsPassOf (clear matched) o =
      (w : Progress Q F) × (o
        ≡ after_computation env dr matched
            (compute_recommendations (source_of env dr) matched r.recommender) w)
      × IsUntouched w

  check_match-IsPassOf :
      (matched : List (Deployment S L)) (w : Progress Q F)
      → IsUntouched w
      → IsPassOf (of_match env dr matched) (check_match env dr matched w)
  unfolding set_condition
  check_match-IsPassOf [] w h = (_, refl, h, laws.set-found _ _)
  check_match-IsPassOf (d ∷ ds) w h =
      elim (Bool-cases (is_unsupported dr.spec.metrics env.prometheus)) [
        | inl unsupported ↦ rw unsupported (_, refl, h, laws.set-found _ _)
        | inr supported ↦ rw supported (
          w,
          ap
              (λ s.
                after_computation env dr (d ∷ ds)
                  (compute_recommendations (source_of env dr) (d ∷ ds) s.recommender) w)
              h.0,
          h,
        )
      ]

  check_vpa-IsPassOf :
      (matched : List (Deployment S L)) (conflicts : Option (List String)) (w : Progress Q F)
      → IsUntouched w
      → IsPassOf (of_vpa env dr matched conflicts) (check_vpa env dr matched conflicts w)
  unfolding set_condition
  check_vpa-IsPassOf matched none w h = (w, refl, h)
  check_vpa-IsPassOf matched (some []) w h = check_match-IsPassOf matched _ h
  check_vpa-IsPassOf matched (some (name ∷ names)) w h = (_, refl, h, laws.set-found _ _)

  check_conflicts-IsPassOf :
      (matched : List (Deployment S L)) (conflicts : Option (List String)) (w : Progress Q F)
      → IsUntouched w
      → IsPassOf
          (of_conflicts env dr matched conflicts)
          (check_conflicts env dr matched conflicts w)
  unfolding set_condition
  check_conflicts-IsPassOf matched none w h = (w, refl, h)
  check_conflicts-IsPassOf matched (some []) w h = check_vpa-IsPassOf matched _ w h
  check_conflicts-IsPassOf matched (some (name ∷ names)) w h = (_, refl, h, laws.set-found _ _)

  check_selector-IsPassOf :
      (resolved : Failure ⊎ List (Deployment S L)) (w : Progress Q F)
      → IsUntouched w
      → IsPassOf (of_selector env dr resolved) (check_selector env dr resolved w)
  unfolding set_condition
  check_selector-IsPassOf (inl failure) w h = (_, refl, h, laws.set-found _ _)
  check_selector-IsPassOf (inr matched) w h = check_conflicts-IsPassOf matched _ _ h

  check_bounds-IsPassOf :
      (o : Option InvertedBounds) (w : Progress Q F)
      → IsUntouched w
      → IsPassOf (of_bounds env dr o) (check_bounds env dr o w)
  unfolding set_condition
  check_bounds-IsPassOf (some b) w h = (_, refl, h, laws.set-found _ _)
  check_bounds-IsPassOf none w h = check_selector-IsPassOf _ w h

  -- A pass refines the decision of its guards. Where a guard refuses, it patches a status that has
  -- the condition `Ready` as false with the guard's reason, as it also does where the deployments
  -- can not be listed (`InvalidSelector`); where the objects of the namespace can not be listed, or
  -- its vertical autoscalers on a cluster that has them, it fails without a patch; and where matched
  -- deployments are free to manage, it goes on with what the recommender computes for them. Up to
  -- there the reconciler, the gauges, the pods and the recommendations are untouched.
  pub reconcile_object-IsPassOf : IsPassOf (verdict env dr) (reconcile_object env dr r g)
  unfolding reconcile_object
  reconcile_object-IsPassOf =
      check_bounds-IsPassOf (validate_bounds dr.spec) (started dr r g) (refl, refl, refl, refl)
