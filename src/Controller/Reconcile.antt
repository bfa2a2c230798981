-- ===== src/Controller/Reconcile.antt =====
-- internal/controller/dynamicresource_controller.go: what a reconciliation works on, and its small
-- functions. The API server, the metrics and the libraries are the fields of `Environment`.
pub mod Endings
pub mod Handler
pub mod Verdict
pub mod Refused
pub mod Kept
pub mod Quiet
pub mod Ready
pub mod Total
use Prim.Native.Nat.{ℕ}
use Prim.Native.String.{◌++◌}
use kubera.Base.{
  ◌*◌, Bool, Option, none, some, ◌⊎◌, inl, inr, String, List, [], ◌∷◌, sort_by, str_eq,
  if◌then◌else◌, ℤ, pos, ltb_ℤ,
}
use kubera.Go.Time.{Time, Duration, second}
use kubera.Go.Fmt.{Printer}
use kubera.Kube.Objects.{Condition, ConditionStatus, Pod, Autoscaler}
use kubera.Api.{
  MetricsConfig, WorkloadReference, WorkloadRecommendation, DynamicResourceSpec,
  DynamicResourceStatus, DynamicResource,
}
use kubera.Metrics.{Provider}
use kubera.Recommender.States.{Recommender}
use kubera.Actuator.Cooldown.{CooldownTracker}
use kubera.Controller.Conflicts.{Selectors, Managed, Deployment}
use kubera.Controller.Vpa.{Listing, TargetRef}
use kubera.Controller.Bounds.{InvertedBounds}
use kubera.Actuator.Resizer.{Cluster}

-- The errors whose texts become messages of conditions.
pub data Failure : Type 0 where
  inverted_bounds : InvertedBounds → Failure
  invalid_selector empty_selector not_listed no_usage : Failure

pub record Environment (Q S P L : Type 0) : Type 0 where
  pub selectors : Selectors S P L
  -- What listing the namespace gives, `none` for an error.
  pub deployments : P → Option (List (Deployment S L))
  pub objects : Option (List (Managed S))
  pub vertical_autoscalers : Listing TargetRef
  pub autoscalers : String → Option (List Autoscaler)
  pub pods : P → Option (List (Pod Q))
  -- What the API server answers to resizes and evictions.
  pub cluster : Cluster Q
  -- `r.Metrics` and `r.PrometheusMetrics`.
  pub metrics : Provider Q P
  pub prometheus : Option (Provider Q P)
  pub webhook_enabled : Bool
  pub resize_supported : Bool
  pub now : Time
  -- `meta.SetStatusCondition`.
  pub set_status_condition : Condition → List Condition → List Condition
  -- `equality.Semantic.DeepEqual`.
  pub same_status : DynamicResourceStatus Q → DynamicResourceStatus Q → Bool
  pub same_recommendations :
      List (WorkloadRecommendation Q) → List (WorkloadRecommendation Q) → Bool
  -- Whether the API server takes the patch to this status.
  pub patch : DynamicResourceStatus Q → Bool
  -- `err.Error()`.
  pub text_of : Failure → String
  pub printer : Printer

-- What a Reconciler keeps between the passes.
pub record Reconciler (F : Type 0) : Type 0 where
  pub recommender : Recommender F
  pub cooldowns : CooldownTracker

abbrev default_polling_interval : Duration
default_polling_interval = pos (30 * second)

abbrev pub positive_or_default : Option Duration → Duration
positive_or_default none = default_polling_interval
positive_or_default (some d) = if ltb_ℤ (pos 0) d then d else default_polling_interval

abbrev pub interval_of : Option MetricsConfig → Duration
interval_of none = default_polling_interval
interval_of (some m) = positive_or_default m.polling_interval

unfoldable pub polling_interval : {Q S : Type 0} → DynamicResourceSpec Q S → Duration
polling_interval spec = interval_of spec.metrics

unfoldable pub workload_refs : {S L : Type 0} → List (Deployment S L) → List WorkloadReference
workload_refs [] = []
workload_refs (d ∷ ds) = record { kind = "Deployment"; name = d.name } ∷ workload_refs ds

abbrev pub managed_of : {Q S : Type 0} → DynamicResource Q S → Managed S
managed_of dr = record {
  name = dr.name;
  creation_timestamp = dr.creation_timestamp;
  selector = dr.spec.selector;
}

module _ {Q S P L : Type 0} (env : Environment Q S P L) where
  -- The messages that print something.
  abbrev pub overlap_message : List String → String
  overlap_message names =
      "workloads already managed by an older DynamicResource: " ++ env.printer.print_names names

  abbrev pub vpa_message : List String → String
  vpa_message names =
      "workloads already managed by a VerticalPodAutoscaler: " ++ env.printer.print_names names

  abbrev pub updated_message : ℕ → String
  updated_message n = "updated recommendations for " ++ env.printer.print_count n ++ " workload(s)"

  abbrev pub capacity_message : List String → String
  capacity_message pods = "resize infeasible for pod(s): " ++ env.printer.print_names pods

  abbrev pub managing_message : ℕ → String
  managing_message n = "managing " ++ env.printer.print_count n ++ " workload(s)"

  abbrev sorted_deployments : Option (List (Deployment S L)) → Failure ⊎ List (Deployment S L)
  sorted_deployments none = inl not_listed
  sorted_deployments (some ds) = inr (sort_by (λ d. d.name) ds)

  abbrev deployments_of : Option P → Failure ⊎ List (Deployment S L)
  deployments_of none = inl invalid_selector
  deployments_of (some p) =
      if env.selectors.is_empty p
      then inl empty_selector
      else sorted_deployments (env.deployments p)

  unfoldable pub resolve_selector : S → Failure ⊎ List (Deployment S L)
  resolve_selector selector = deployments_of (env.selectors.compile selector)

  abbrev selected_pods : Option P → Option (List (Pod Q))
  selected_pods none = none
  selected_pods (some p) = env.pods p

  unfoldable pub list_workload_pods : Deployment S L → Option (List (Pod Q))
  list_workload_pods deploy = selected_pods (env.selectors.compile deploy.pod_selector)

  -- By the deployment's name, which no other one in the namespace has.
  unfoldable pub pods_of_workload : List (Deployment S L) → String → Option (List (Pod Q))
  pods_of_workload [] name = none
  pods_of_workload (d ∷ ds) name =
      if str_eq d.name name then list_workload_pods d else pods_of_workload ds name

  -- `setCondition`, on the status.
  unfoldable pub set_condition :
      ℤ
      → String
      → ConditionStatus
      → String
      → String
      → DynamicResourceStatus Q
      → DynamicResourceStatus Q
  set_condition generation kind status reason message s = record s {
    conditions =
        env.set_status_condition
          (record {
            kind = kind;
            status = status;
            reason = reason;
            message = message;
            observed_generation = generation;
            last_transition_time = 0;
          })
          s.conditions;
  }
