-- ===== src/Examples/Replacements.antt =====
-- The replacement of an evicted pod, under an autoscaler.
use kubera.Base.{◌≡◌, refl, none, some, false, [], ◌∷◌, List, String, pos}
use kubera.Base.Sorting.{sort_by}
use kubera.Go.Float64.Fixed.{Fixed, fixed_float64, fixed-IsIeee}
use kubera.Go.Int64.{sub32, mul64}
use kubera.Go.Time.{seconds, since}
use kubera.Kube.Quantity.Milli.{Milli, milli_quantity, milli-IsQuantity}
use kubera.Kube.Objects.{Autoscaler, ResourceList}
use kubera.Api.{UpdateMode, ControlledValues}
use kubera.Actuator.Plan.{plan_pod}
use kubera.Actuator.Recreate.{blocked_memory_shrink}
use kubera.Coordination.{find_hpa, is_scaling, target_utilization, utilization_loop, request_floor}
use kubera.Recommender.Histogram
use kubera.Recommender.States
use kubera.Recommender.States.{Recommender}
use kubera.Controller.Bounds.{
  container_bounds, find_override, validate_bounds, check_overrides, bounds_for, clamp_quantity,
}
use kubera.Controller.Targets.{percentiles, target_of, round_up_milli, round_up_bytes}
use kubera.Controller.Collection.{Outcome, ok}
use kubera.Controller.Collection.Workloads.{Source, Computed, compute_recommendations}
use kubera.Controller.Coupling.{
  settings, floor_target, floor_targets, all_at_max, writes_nil, coordinate_hpa,
}
use kubera.Controller.Actuation.Targets.{
  find_recommendation, targets_of, nil_targets_of, share_targets,
}
use kubera.Controller.Reconcile.Handler.{source_of}
use kubera.Webhook.{default_pod}
use kubera.Webhook.Coordinated.{IsUnique}
use kubera.Webhook.Replaced.{default_pod-replaced}
use kubera.Examples.{web, pod_of, policy_of}
use kubera.Examples.Admission.{thousandths, status}
use kubera.Examples.Objects.{web_deployment, env_of, object_of, reconciler}

-- A target of 60 percent for the CPU.
abbrev autoscaler : Autoscaler
autoscaler = record {
  target_kind = "Deployment";
  target_name = "web";
  metrics =
      record {
        kind = "Resource";
        resource = some (record {
          name = "cpu";
          target = record { kind = "Utilization"; average_utilization = some (pos 60) };
        });
        container_resource = none;
      }
      ∷ [];
  desired_replicas = pos 2;
  current_replicas = pos 2;
  last_scale_time = none;
}

-- What is known of the object: its deployment and one sample of a pod.
abbrev source : Source Milli String String String
source = source_of (env_of (web_deployment ∷ [])) (object_of UpdateMode.in_place_or_recreate)

abbrev computed_or : Outcome (Computed Milli Fixed) (Recommender Fixed) → Computed Milli Fixed
computed_or (ok c) = c
computed_or _ = record { recommender = reconciler.recommender; recommendations = []; usage = [] }

abbrev computed : Computed Milli Fixed
unfolding compute_recommendations
computed = computed_or (compute_recommendations source (web_deployment ∷ []) reconciler.recommender)

-- The recommendation of 30m is raised to 40m, in the status as well.
abbrev raised : List (String × ResourceList Milli)
raised = ("web", record { cpu = some (pos 40); memory = some (pos 9_000_000); others = [] }) ∷ []

default_pod-replaced_example :
    let left = record status {
      recommendations = share_targets "web" raised computed.recommendations;
    } in
    let sized =
      default_pod thousandths
        (some "web")
        ((UpdateMode.in_place_or_recreate, left) ∷ [])
        (pod_of web) in
    (plan_pod sized raised (policy_of ControlledValues.requests_and_limits) ≡ none)
    × (blocked_memory_shrink sized raised (policy_of ControlledValues.requests_and_limits) ≡ false)
unfolding computed compute_recommendations States.observe States.add_sample Histogram.observe
    seconds Histogram.new_decaying_histogram since validate_bounds check_overrides
    find_recommendation targets_of nil_targets_of writes_nil IsUnique coordinate_hpa find_hpa
    is_scaling target_utilization utilization_loop request_floor sub32 settings floor_target
    floor_targets all_at_max container_bounds find_override sort_by States.recommend States.key_eq
    Histogram.empty target_of clamp_quantity round_up_milli mul64 Histogram.percentile percentiles
    bounds_for round_up_bytes
default_pod-replaced_example =
    default_pod-replaced thousandths milli-IsQuantity fixed-IsIeee source (web_deployment ∷ [])
      reconciler.recommender "web" (some (autoscaler ∷ [])) 1000 status [] (pod_of web)
      (policy_of ControlledValues.requests_and_limits) {computed = computed} {targets = raised} refl
      refl (refl, tt) refl refl refl refl
