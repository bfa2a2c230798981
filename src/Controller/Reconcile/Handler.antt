-- ===== src/Controller/Reconcile/Handler.antt =====
-- internal/controller/dynamicresource_controller.go: `Reconcile`. The guards and the later stages
-- each are a function that continues with the next one.
use mathlib.Core.Option
use kubera.Base.{
  Bool, true, false, not, ◌&&◌, Option, none, some, ◌⊎◌, inl, inr, String, List, [], ◌∷◌, length,
  if◌then◌else◌, map,
}
use kubera.Go.Float64.{Float64}
use kubera.Kube.Quantity.{Quantity}
use kubera.Kube.Objects.{yes, no, normal, warning}
use kubera.Api.{WorkloadRecommendation, DynamicResource}
use kubera.Recommender.States.{Recommender}
use kubera.Controller.Conflicts.{Deployment, conflicted_workloads}
use kubera.Controller.Vpa.{vpa_conflicts}
use kubera.Controller.Bounds.{InvertedBounds, validate_bounds}
use kubera.Controller.Collection.{Outcome, ok, err, panic, UsageSnapshots}
use kubera.Controller.Collection.Workloads.{Source, Computed, compute_recommendations}
use kubera.Controller.Gauges.{Gauges, publish_recommendation_metrics}
use kubera.Controller.Actuation.Pass.{Setting, actuate}
use kubera.Controller.Reconcile.{
  Failure, inverted_bounds, no_usage, Environment, Reconciler, polling_interval, workload_refs,
  managed_of, resolve_selector, pods_of_workload, overlap_message, vpa_message, updated_message,
}
use kubera.Controller.Reconcile.Endings.{
  Progress, Reconciled, no_requeue, kept, is_actuating, is_unsupported, patch_status, fail,
  patch_and_fail, with_condition, with_event, not_ready, close, after_actuation,
}

-- What `Get` gives.
pub data Got (A : Type 0) : Type 0 where
  found : A → Got A
  not_found not_read : Got A

abbrev pub source_of :
    {Q S P L : Type 0} → Environment Q S P L → DynamicResource Q S → Source Q S P L
source_of env dr = record {
  spec = dr.spec;
  namespace = dr.namespace;
  selectors = env.selectors;
  metrics = env.metrics;
  prometheus = env.prometheus;
}

abbrev pub started : {Q F S : Type 0} → DynamicResource Q S → Reconciler F → Gauges F → Progress Q F
started dr r gauges = record {
  status = record dr.status { observed_generation = dr.generation };
  reconciler = r;
  gauges = gauges;
  events = [];
  actions = [];
}

module _ {Q F S P L : Type 0} ⦃q : Quantity Q⦄ ⦃f : Float64 F⦄ (env : Environment Q S P L)
    (dr : DynamicResource Q S) where
  abbrev pub setting_of : List (Deployment S L) → UsageSnapshots F → Setting Q S F
  setting_of matched usage = record {
    spec = dr.spec;
    namespace = dr.namespace;
    name = dr.name;
    printer = env.printer;
    webhook_enabled = env.webhook_enabled;
    world = record {
      autoscalers = env.autoscalers;
      pods = pods_of_workload env matched;
      cluster = env.cluster;
    };
    usage = usage;
    now = env.now;
  }

  -- `if dr.Spec.UpdateMode != Off && dr.Spec.UpdateMode != ""`, and the end.
  abbrev pub actuate_if :
      Bool → List (Deployment S L) → UsageSnapshots F → Progress Q F → Reconciled Q F
  actuate_if false matched usage w = close env dr matched w
  actuate_if true matched usage w =
      if not env.resize_supported
      then close env dr matched (
          with_condition env dr "ResizeInfeasible" yes "ClusterUnsupported"
            "cluster does not support the Pod resize subresource (needs Kubernetes 1.33+)" w)
      else after_actuation env dr matched
          (actuate (setting_of matched usage) (map (λ d. d.name) matched) w.status
            w.reconciler.cooldowns w.gauges)
          w

  -- `if !equality.Semantic.DeepEqual(dr.Status.Recommendations, recs)`.
  abbrev pub updated : List (WorkloadRecommendation Q) → Progress Q F → Progress Q F
  updated recs w =
      if env.same_recommendations w.status.recommendations recs
      then w
      else with_event env dr normal "RecommendationUpdated" (updated_message env (length recs))
          (record w { status = record w.status { recommendations = recs } })

  -- The recommender and the gauges, given what is going to be stored.
  abbrev pub with_computed :
      List (WorkloadRecommendation Q) → Computed Q F → Progress Q F → Progress Q F
  with_computed recs c w = record w {
    reconciler = record w.reconciler { recommender = c.recommender };
    gauges = publish_recommendation_metrics dr.namespace dr.name recs w.gauges;
  }

  -- The call of `actuate` panics.
  abbrev pub is_panic : Bool → List (Deployment S L) → UsageSnapshots F → Progress Q F → Bool
  is_panic actuating matched usage w =
      actuating
      && (env.resize_supported
          && (actuate (setting_of matched usage) (map (λ d. d.name) matched) w.status
              w.reconciler.cooldowns w.gauges).state.is_panic)

  abbrev pub publish_and_actuate :
      List (Deployment S L) → Computed Q F → Progress Q F → Option (Reconciled Q F)
  publish_and_actuate matched c w =
      let recs = kept w.status.recommendations c.recommendations in
      let after = updated recs (with_computed recs c w) in
      if is_panic (is_actuating dr.spec.update_mode) matched c.usage after
      then none
      else some (actuate_if (is_actuating dr.spec.update_mode) matched c.usage after)

  -- The samples that were taken in before the error stay.
  abbrev pub without_usage : Recommender F → Progress Q F → Progress Q F
  without_usage r w =
      not_ready env dr "MetricsUnavailable" (env.text_of no_usage)
        (record w { reconciler = record w.reconciler { recommender = r } })

  -- `none` is a panic.
  abbrev pub after_computation :
      List (Deployment S L)
      → Outcome (Computed Q F) (Recommender F)
      → Progress Q F
      → Option (Reconciled Q F)
  after_computation matched panic w = none
  after_computation matched (err r) w = some (patch_and_fail env dr (without_usage r w))
  after_computation matched (ok c) w = publish_and_actuate matched c w

  abbrev pub check_provider : List (Deployment S L) → Progress Q F → Option (Reconciled Q F)
  check_provider matched w =
      if is_unsupported dr.spec.metrics env.prometheus
      then some (
          patch_status env dr
            (not_ready env dr "UnsupportedProvider"
              "Prometheus provider requested but the operator was started without --prometheus-url"
              w)
            no_requeue)
      else after_computation matched
          (compute_recommendations (source_of env dr) matched w.reconciler.recommender) w

  abbrev pub check_match : List (Deployment S L) → Progress Q F → Option (Reconciled Q F)
  check_match [] w = some (
      patch_status env dr
        (not_ready env dr "NoMatch" "selector matches no Deployment in namespace" w)
        (polling_interval dr.spec))
  check_match (d ∷ ds) w = check_provider (d ∷ ds) w

  -- The two conditions and the event of a conflict.
  abbrev pub conflicted : String → String → String → Progress Q F → Progress Q F
  conflicted reason event message w = with_event env dr warning event message (
      not_ready env dr "Conflicted" message
        (with_condition env dr "Conflicted" yes reason message w))

  abbrev pub check_vpa :
      List (Deployment S L) → Option (List String) → Progress Q F → Option (Reconciled Q F)
  check_vpa matched none w = some (fail env dr w)
  check_vpa matched (some []) w =
      check_match matched (
        with_condition env dr "Conflicted" no "NoConflict" "no overlapping DynamicResource or VPA"
          w)
  check_vpa matched (some (name ∷ names)) w = some (
      patch_status env dr
        (conflicted "VPAConflict" "VPAConflict" (vpa_message env (name ∷ names)) w)
        (polling_interval dr.spec))

  abbrev pub check_conflicts :
      List (Deployment S L) → Option (List String) → Progress Q F → Option (Reconciled Q F)
  check_conflicts matched none w = some (fail env dr w)
  check_conflicts matched (some []) w =
      check_vpa matched (vpa_conflicts env.vertical_autoscalers (map (λ d. d.name) matched)) w
  check_conflicts matched (some (name ∷ names)) w = some (
      patch_status env dr
        (conflicted "OverlappingSelector" "Conflicted" (overlap_message env (name ∷ names)) w)
        no_requeue)

  abbrev pub check_overlap : List (Deployment S L) → Progress Q F → Option (Reconciled Q F)
  check_overlap matched w =
      check_conflicts matched
        (Option.map (λ all. conflicted_workloads env.selectors (managed_of dr) all matched)
          env.objects)
        w

  abbrev pub check_selector :
      Failure ⊎ List (Deployment S L) → Progress Q F → Option (Reconciled Q F)
  check_selector (inl failure) w =
      some (
        patch_status env dr (not_ready env dr "InvalidSelector" (env.text_of failure) w) no_requeue)
  check_selector (inr matched) w =
      check_overlap matched
        (record w { status = record w.status { matched_workloads = workload_refs matched } })

  abbrev pub check_bounds : Option InvertedBounds → Progress Q F → Option (Reconciled Q F)
  check_bounds (some b) w = some (
      patch_status env dr (not_ready env dr "InvalidBounds" (env.text_of (inverted_bounds b)) w)
        no_requeue)
  check_bounds none w = check_selector (resolve_selector env dr.spec.selector) w

  -- The pass for the object that was read.
  unfoldable pub reconcile_object : Reconciler F → Gauges F → Option (Reconciled Q F)
  reconcile_object r gauges = check_bounds (validate_bounds dr.spec) (started dr r gauges)

-- An object that is gone, one that can not be read, and a pass that ends or panics.
pub data Response (Q F : Type 0) : Type 0 where
  gone unread panicked : Response Q F
  ended : Reconciled Q F → Response Q F

abbrev response : {Q F : Type 0} → Option (Reconciled Q F) → Response Q F
response none = panicked
response (some out) = ended out

unfoldable pub reconcile :
    {Q F S P L : Type 0} ⦃q : Quantity Q⦄ ⦃f : Float64 F⦄
    → Environment Q S P L
    → Got (DynamicResource Q S)
    → Reconciler F
    → Gauges F
    → Response Q F
unfolding reconcile_object
reconcile env (found dr) r gauges = response (reconcile_object env dr r gauges)
reconcile env not_found r gauges = gone
reconcile env not_read r gauges = unread
