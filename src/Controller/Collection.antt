-- ===== src/Controller/Collection.antt =====
-- internal/controller/recommendation.go: the parts of `computeRecommendations` that are about one
-- workload.
pub mod Workloads
use kubera.Base.{
  ℕ, ◌+◌, Bool, true, false, Option, none, some, String, List, [], ◌∷◌, ◌++◌, lookup, insert,
  get_or, sort_by, pos,
}
use kubera.Go.Float64.{Float64}
use kubera.Kube.Quantity.{Quantity}
use kubera.Kube.Objects.{ResourceList}
use kubera.Api.{
  ContainerMode, MetricsProvider, MetricsConfig, ContainerOverride, DynamicResourceSpec,
  ContainerRecommendation, WorkloadRecommendation,
}
use kubera.Metrics.{ContainerUsage, PodUsage, Provider}
use kubera.Recommender.States.{ContainerKey, Recommendation, Recommender, observe, recommend}
use kubera.Controller.Bounds.{find_override}
use kubera.Controller.Coupling.{ContainerUsageSnapshot}
use kubera.Controller.Conflicts.{Deployment}
use kubera.Controller.Targets.{percentiles, target_of}

-- An error comes with the state as it is then; a panic is the write of a histogram out of range.
pub data Outcome (A E : Type 0) : Type 0 where
  ok : A → Outcome A E
  err : E → Outcome A E
  panic : Outcome A E

abbrev pub then_do : {A B E : Type 0} → Outcome A E → (A → Outcome B E) → Outcome B E
then_do (ok a) f = f a
then_do (err e) f = err e
then_do panic f = panic

-- What one workload's samples add up to: `containers`, `sums` and `counts`.
pub record Samples (F : Type 0) : Type 0 where
  pub recommender : Recommender F
  pub containers : List (String × Bool)
  pub sums : List (String × ContainerUsageSnapshot F)
  pub counts : List (String × ℕ)

abbrev pub UsageSnapshots : Type 0 → Type 0
UsageSnapshots F = List (String × List (String × ContainerUsageSnapshot F))

abbrev keys : List (String × Bool) → List String
keys [] = []
keys ((k, _) ∷ rest) = k ∷ keys rest

-- A key is in the map once.
unfoldable pub sorted_keys : List (String × Bool) → List String
sorted_keys m = sort_by (λ s. s) (keys m)

-- `r.PrometheusMetrics` for an object that asks for it, where there is one.
abbrev asked_for : {A : Type 0} → MetricsProvider → A → Option A → A
asked_for MetricsProvider.prometheus metrics (some prometheus) = prometheus
asked_for _ metrics _ = metrics

unfoldable pub provider_for : {A : Type 0} → Option MetricsConfig → A → Option A → A
provider_for none metrics prometheus = metrics
provider_for (some m) metrics prometheus = asked_for m.provider metrics prometheus

module _ {Q : Type 0} where
  abbrev no_resources : ResourceList Q
  no_resources = record { cpu = none; memory = none; others = [] }

  -- A nil override, or one that is not `Off`.
  abbrev pub is_managed : Option (ContainerOverride Q) → Bool
  is_managed none = true
  is_managed (some o) = elim o.mode [ ContainerMode.off ↦ false | _ ↦ true ]

  abbrev add_recommendation :
      Option (ContainerRecommendation Q)
      → List (ContainerRecommendation Q)
      → List (ContainerRecommendation Q)
  add_recommendation none later = later
  add_recommendation (some c) later = c ∷ later

module _ {F : Type 0} ⦃f : Float64 F⦄ where
  abbrev sum_or_zero : Option (ContainerUsageSnapshot F) → ContainerUsageSnapshot F
  sum_or_zero none = record { cpu_milli = f.of_int (pos 0); mem_bytes = f.of_int (pos 0) }
  sum_or_zero (some s) = s

  abbrev mean_of : ContainerUsageSnapshot F → ℕ → ContainerUsageSnapshot F
  mean_of s count = record {
    cpu_milli = f.div s.cpu_milli (f.of_int (pos count));
    mem_bytes = f.div s.mem_bytes (f.of_int (pos count));
  }

  unfoldable pub means :
      List (String × ℕ)
      → List (String × ContainerUsageSnapshot F)
      → List (String × ContainerUsageSnapshot F)
  means counts [] = []
  means counts ((name, s) ∷ rest) =
      (name, mean_of s (get_or (lookup name counts) 0)) ∷ means counts rest

  module _ {Q : Type 0} ⦃q : Quantity Q⦄ where
    abbrev noted : ContainerUsage Q → Samples F → Recommender F → Samples F
    noted cu acc recommender =
        let sum = sum_or_zero (lookup cu.container acc.sums) in
        record {
          recommender = recommender;
          containers = insert cu.container true acc.containers;
          sums =
              insert cu.container
                (record {
                  cpu_milli = f.add sum.cpu_milli (f.of_int (q.milli_value cu.cpu));
                  mem_bytes = f.add sum.mem_bytes (f.of_int (q.value cu.memory));
                })
                acc.sums;
          counts = insert cu.container (get_or (lookup cu.container acc.counts) 0 + 1) acc.counts;
        }

    -- The inner loop, over the containers of a pod's sample; `none` is the panic of a histogram.
    unfoldable pub collect_containers :
        String → String → PodUsage Q → List (ContainerUsage Q) → Samples F → Option (Samples F)
    collect_containers namespace workload pod [] acc = some acc
    collect_containers namespace workload pod (cu ∷ cus) acc =
        let key : ContainerKey = record {
          namespace = namespace;
          workload = workload;
          container = cu.container;
        } in
        elim (observe acc.recommender key pod.pod (f.of_int (q.milli_value cu.cpu))
          (f.of_int (q.value cu.memory)) pod.timestamp) [
            | none ↦ none
            | some recommender ↦
                collect_containers namespace workload pod cus (noted cu acc recommender)
          ]

    unfoldable pub collect_pods :
        String → String → List (PodUsage Q) → Samples F → Option (Samples F)
    unfolding collect_containers
    collect_pods namespace workload [] acc = some acc
    collect_pods namespace workload (pod ∷ pods) acc =
        elim (collect_containers namespace workload pod pod.containers acc) [
          | none ↦ none
          | some after ↦ collect_pods namespace workload pods after
        ]

    abbrev recommended :
        {S : Type 0}
        → DynamicResourceSpec Q S
        → String
        → Option (Recommendation F)
        → Option (ContainerRecommendation Q)
    recommended spec name none = none
    recommended spec name (some raw) = some (record {
      container_name = name;
      is_nil_target = false;
      target = target_of raw spec.resources (find_override spec.container_overrides name);
      applied = no_resources;
    })

    abbrev recommend_if :
        {S : Type 0}
        → Bool
        → DynamicResourceSpec Q S
        → String
        → Option (Recommendation F)
        → Option (ContainerRecommendation Q)
    recommend_if false spec name raw = none
    recommend_if true spec name raw = recommended spec name raw

    -- The loop over the sorted names.
    unfoldable pub recommend_containers :
        {S : Type 0}
        → DynamicResourceSpec Q S
        → String
        → String
        → Recommender F
        → List String
        → List (ContainerRecommendation Q)
    recommend_containers spec namespace workload r [] = []
    recommend_containers spec namespace workload r (name ∷ names) =
        let (cpu_percentile, mem_percentile) = percentiles spec.metrics in
        let key : ContainerKey = record {
          namespace = namespace;
          workload = workload;
          container = name;
        } in
        add_recommendation
          (recommend_if (is_managed (find_override spec.container_overrides name)) spec name
            (recommend r key cpu_percentile mem_percentile))
          (recommend_containers spec namespace workload r names)
