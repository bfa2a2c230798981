-- ===== src/Examples/Reconciles.antt =====
-- Passes of the reconciler.
use kubera.Base.{◌≡◌, refl, true, false, some, ◌⊎◌, String, List, [], ◌∷◌, get_or, pos}
use kubera.Go.Float64.Fixed.{Fixed, fixed_float64}
use kubera.Go.Time.{seconds, since}
use kubera.Kube.Quantity.Milli.{Milli, milli_quantity, milli-IsQuantity}
use kubera.Kube.Objects.{no}
use kubera.Api.{UpdateMode, WorkloadRecommendation}
use kubera.Controller.Conflicts.{Deployment, conflicted_workloads, is_taken, Managed, older_than}
use kubera.Controller.Watches.Claimed.{IsReached, is_taken-IsReached}
use kubera.Recommender.States
use kubera.Recommender.Histogram
use kubera.Recommender.States.{Recommender}
use kubera.Base.Sorting.{sort_by}
use kubera.Controller.Vpa.{vpa_conflicts, targeted, conflicts_of}
use kubera.Controller.Actuation.Pass.Named.{names_of}
use kubera.Controller.Collection.{Outcome, ok}
use kubera.Controller.Collection.Workloads.{Computed, compute_recommendations}
use kubera.Controller.Collection.Workloads.Published.{IsResult, compute_recommendations-IsResult}
use kubera.Controller.Reconcile.Kept.{reconcile_object-keeps}
use kubera.Controller.Reconcile.Ready.{IsEnded, reconcile_object-IsEnded}
use kubera.Controller.Reconcile.Handler.{reconcile_object, source_of}
use kubera.Controller.Reconcile.Refused.{
  reconcile_object-refused, reconcile_object-cautious, IsHarmless,
}
use kubera.Controller.Bounds.{validate_bounds, check_overrides}
use kubera.Controller.Reconcile.{Environment, resolve_selector, polling_interval}
use kubera.Controller.Reconcile.Endings.{Reconciled, is_actuating}
use kubera.Controller.Reconcile.Verdict.{
  IsPassOf, reconcile_object-IsPassOf, verdict, clear, HasCondition,
}
use kubera.Controller.Actuation.Pass.{actuate, workloads_loop, workload_step}
use kubera.Controller.Actuation.Targets.{find_recommendation}
use kubera.Controller.Bounds.{find_override}
use kubera.Controller.Coupling.{coordinate_hpa}
use kubera.Coordination.{find_hpa}
use kubera.Controller.Reconcile.{pods_of_workload, list_workload_pods}
use kubera.Controller.Actuation.Pods.{pods_loop}
use kubera.Examples.Objects.{
  by_label, web_deployment, env_of, env_of-IsApi, object_of, reconciler, gauges,
}

reconcile_object-refused_example :
    (out : Reconciled Milli Fixed) × (reconcile_object
        (env_of [])
        (object_of UpdateMode.off)
        reconciler
        gauges
      ≡ some out)
    × (out.progress.reconciler ≡ reconciler)
    × (out.progress.gauges ≡ gauges)
    × (out.progress.actions ≡ [])
    × (out.stored.recommendations ≡ [])
    × (((out.is_error ≡ true) × (out.stored ≡ (object_of UpdateMode.off).status))
        ⊎ ((out.is_error ≡ false)
            × HasCondition "Ready" no "NoMatch" out.stored.conditions
            × (out.requeue_after ≡ pos 30_000_000_000)))
unfolding validate_bounds check_overrides resolve_selector conflicted_workloads sort_by
    vpa_conflicts polling_interval
reconcile_object-refused_example =
    reconcile_object-refused (env_of []) (env_of-IsApi []) (object_of UpdateMode.off) reconciler
      gauges refl

compute_recommendations-IsResult_example :
    let x = source_of (env_of []) (object_of UpdateMode.off) in
    IsResult x
      (web_deployment ∷ [])
      (compute_recommendations x (web_deployment ∷ []) reconciler.recommender)
unfolding validate_bounds check_overrides
compute_recommendations-IsResult_example =
    compute_recommendations-IsResult milli-IsQuantity
      (source_of (env_of []) (object_of UpdateMode.off)) (web_deployment ∷ []) refl
      reconciler.recommender

-- What the sample makes of the recommender and the recommendations.
abbrev computed : Outcome (Computed Milli Fixed) (Recommender Fixed)
unfolding compute_recommendations
computed =
    compute_recommendations (source_of (env_of (web_deployment ∷ [])) (object_of UpdateMode.off))
      (web_deployment ∷ []) reconciler.recommender

abbrev computed_or : Outcome (Computed Milli Fixed) (Recommender Fixed) → Computed Milli Fixed
computed_or (ok c) = c
computed_or _ = record { recommender = reconciler.recommender; recommendations = []; usage = [] }

reconcile_object-IsEnded_example :
    let env = env_of (web_deployment ∷ []) in
    let dr = object_of UpdateMode.off in
    (out : Reconciled Milli Fixed) × (reconcile_object env dr reconciler gauges ≡ some out)
    × IsEnded env
        (env_of-IsApi (web_deployment ∷ []))
        dr
        ((is_actuating UpdateMode.off ≡ true) × (env.resize_supported ≡ true))
        out
unfolding validate_bounds check_overrides resolve_selector conflicted_workloads is_taken sort_by
    vpa_conflicts targeted conflicts_of computed compute_recommendations States.observe
    States.add_sample Histogram.observe seconds Histogram.new_decaying_histogram since
reconcile_object-IsEnded_example =
    reconcile_object-IsEnded (env_of (web_deployment ∷ [])) (env_of-IsApi (web_deployment ∷ []))
      (object_of UpdateMode.off) milli-IsQuantity reconciler gauges {matched = web_deployment ∷ []}
      {c = computed_or computed} tt refl refl

abbrev pub nothing : Reconciled Milli Fixed
nothing = record {
  progress = record {
    status = (object_of UpdateMode.off).status;
    reconciler = reconciler;
    gauges = gauges;
    events = [];
    actions = [];
  };
  stored = (object_of UpdateMode.off).status;
  requeue_after = pos 0;
  is_error = false;
}

abbrev pub web_env : Environment Milli String String String
web_env = env_of (web_deployment ∷ [])

-- The pass for an object that actuates, on a workload without pods.
abbrev passed : Reconciled Milli Fixed
unfolding reconcile_object
passed =
    get_or (reconcile_object web_env (object_of UpdateMode.in_place_only) reconciler gauges) nothing

reconcile_object-cautious_example :
    ((matched : List (Deployment String String)) × (verdict web_env
          (object_of UpdateMode.in_place_only)
        ≡ clear matched)
      × (is_actuating UpdateMode.in_place_only ≡ true)
      × (web_env.resize_supported ≡ true))
    ⊎ IsHarmless web_env
        (env_of-IsApi (web_deployment ∷ []))
        (object_of UpdateMode.in_place_only)
        reconciler
        gauges
        passed
unfolding passed reconcile_object validate_bounds resolve_selector conflicted_workloads sort_by
    is_taken vpa_conflicts compute_recommendations States.observe States.add_sample
    Histogram.observe seconds Histogram.new_decaying_histogram since actuate workloads_loop
    workload_step find_recommendation find_override States.recommend States.key_eq Histogram.empty
    coordinate_hpa find_hpa pods_of_workload list_workload_pods pods_loop
reconcile_object-cautious_example =
    reconcile_object-cautious web_env (env_of-IsApi (web_deployment ∷ []))
      (object_of UpdateMode.in_place_only) reconciler gauges {out = passed} refl

reconcile_object-keeps_example :
    (names_of passed.stored.recommendations ≡ [])
    ⊎ ((matched : List (Deployment String String)) × (c : Computed Milli Fixed) × (verdict web_env
            (object_of UpdateMode.in_place_only)
          ≡ clear matched)
        × (compute_recommendations
              (source_of web_env (object_of UpdateMode.in_place_only))
              matched
              reconciler.recommender
            ≡ ok c)
        × (names_of passed.stored.recommendations ≡ names_of c.recommendations)
        × ((w : WorkloadRecommendation Milli) × (ws : List (WorkloadRecommendation Milli))
            × (c.recommendations ≡ w ∷ ws)))
unfolding passed reconcile_object validate_bounds resolve_selector conflicted_workloads sort_by
    is_taken vpa_conflicts compute_recommendations States.observe States.add_sample
    Histogram.observe seconds Histogram.new_decaying_histogram since actuate workloads_loop
    workload_step find_recommendation find_override States.recommend States.key_eq Histogram.empty
    coordinate_hpa find_hpa pods_of_workload list_workload_pods pods_loop
reconcile_object-keeps_example =
    reconcile_object-keeps web_env (env_of-IsApi (web_deployment ∷ []))
      (object_of UpdateMode.in_place_only) reconciler gauges {out = passed} refl

reconcile_object-IsPassOf_example :
    IsPassOf web_env
      (env_of-IsApi (web_deployment ∷ []))
      (object_of UpdateMode.off)
      reconciler
      gauges
      (clear (web_deployment ∷ []))
      (reconcile_object web_env (object_of UpdateMode.off) reconciler gauges)
unfolding validate_bounds check_overrides resolve_selector conflicted_workloads is_taken sort_by
    vpa_conflicts targeted conflicts_of
reconcile_object-IsPassOf_example =
    reconcile_object-IsPassOf web_env (env_of-IsApi (web_deployment ∷ []))
      (object_of UpdateMode.off) reconciler gauges

-- Another object, made later.
abbrev younger : Managed String
younger = record { name = "web-2"; creation_timestamp = 20; selector = "app=web" }

is_taken-IsReached_example : IsReached by_label "app=web" younger (object_of UpdateMode.off ∷ [])
unfolding is_taken older_than
is_taken-IsReached_example =
    is_taken-IsReached by_label "app=web" younger (object_of UpdateMode.off ∷ []) refl
