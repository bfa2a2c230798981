-- ===== src/Controller/Collection/Workloads.antt =====
-- internal/controller/recommendation.go: `computeRecommendations`, the loop over the workloads.
pub mod Published
pub mod Total
use kubera.Base.{Bool, Option, none, some, String, List, [], ◌∷◌, ◌++◌, insert, sort_by}
use kubera.Go.Float64.{Float64}
use kubera.Kube.Quantity.{Quantity}
use kubera.Api.{DynamicResourceSpec, ContainerRecommendation, WorkloadRecommendation}
use kubera.Metrics.{PodUsage, Provider}
use kubera.Recommender.States.{Recommender}
use kubera.Controller.Conflicts.{Selectors, Deployment}
use kubera.Controller.Collection.{
  Outcome, ok, err, panic, then_do, Samples, UsageSnapshots, sorted_keys, provider_for, means,
  collect_pods, recommend_containers,
}

-- The object and what the reconciler holds of usage: `r.Metrics` and `r.PrometheusMetrics`.
pub record Source (Q S P L : Type 0) : Type 0 where
  pub spec : DynamicResourceSpec Q S
  pub namespace : String
  pub selectors : Selectors S P L
  pub metrics : Provider Q P
  pub prometheus : Option (Provider Q P)

-- What changes over the workloads: the recommender, `out` and `usageSnapshot`.
pub record Computed (Q F : Type 0) : Type 0 where
  pub recommender : Recommender F
  pub recommendations : List (WorkloadRecommendation Q)
  pub usage : UsageSnapshots F

module _ {F : Type 0} ⦃f : Float64 F⦄ where
  abbrev pub no_samples : Recommender F → Samples F
  no_samples r = record { recommender = r; containers = []; sums = []; counts = [] }

  -- `len(sums) > 0`.
  abbrev with_means : String → Samples F → UsageSnapshots F → UsageSnapshots F
  with_means workload samples usage = elim samples.sums [
    | [] ↦ usage
    | sum ∷ sums ↦ insert workload (means samples.counts (sum ∷ sums)) usage
  ]

module _ {Q : Type 0} where
  -- `len(rec.Containers) > 0`.
  abbrev pub with_containers :
      String
      → List (ContainerRecommendation Q)
      → List (WorkloadRecommendation Q)
      → List (WorkloadRecommendation Q)
  with_containers workload [] out = out
  with_containers workload (c ∷ cs) out =
      out ++ (record { workload = workload; containers = c ∷ cs }) ∷ []

  abbrev pub workload_name : WorkloadRecommendation Q → String
  workload_name w = w.workload

  abbrev pub sorted : {F : Type 0} → Computed Q F → Computed Q F
  sorted acc = record acc { recommendations = sort_by workload_name acc.recommendations }

module _ {Q F : Type 0} ⦃q : Quantity Q⦄ ⦃f : Float64 F⦄ where
  module _ {S P L : Type 0} where
    abbrev pub publish : Source Q S P L → String → Samples F → Computed Q F → Computed Q F
    publish x workload samples acc = record {
      recommender = samples.recommender;
      recommendations =
          with_containers workload
            (recommend_containers x.spec x.namespace workload samples.recommender
              (sorted_keys samples.containers))
            acc.recommendations;
      usage = with_means workload samples acc.usage;
    }

    abbrev pub published :
        Source Q S P L
        → String
        → Option (Samples F)
        → Computed Q F
        → Outcome (Computed Q F) (Recommender F)
    published x workload none acc = panic
    published x workload (some samples) acc = ok (publish x workload samples acc)

    abbrev pub sampled :
        Source Q S P L
        → String
        → Option (List (PodUsage Q))
        → Computed Q F
        → Outcome (Computed Q F) (Recommender F)
    sampled x workload none acc = err acc.recommender
    sampled x workload (some pods) acc =
        published x workload (collect_pods x.namespace workload pods (no_samples acc.recommender))
          acc

    abbrev pub selected :
        Source Q S P L → String → Option P → Computed Q F → Outcome (Computed Q F) (Recommender F)
    selected x workload none acc = ok acc
    selected x workload (some p) acc =
        sampled x workload (provider_for x.spec.metrics x.metrics x.prometheus x.namespace p) acc

    -- The body of the loop.
    unfoldable pub compute_workload :
        Source Q S P L → Deployment S L → Computed Q F → Outcome (Computed Q F) (Recommender F)
    unfolding collect_pods recommend_containers sorted_keys means provider_for
    compute_workload x deploy acc =
        selected x deploy.name (x.selectors.compile deploy.pod_selector) acc

    unfoldable pub compute_workloads :
        Source Q S P L
        → List (Deployment S L)
        → Computed Q F
        → Outcome (Computed Q F) (Recommender F)
    unfolding compute_workload
    compute_workloads x [] acc = ok acc
    compute_workloads x (deploy ∷ deploys) acc =
        then_do (compute_workload x deploy acc) (compute_workloads x deploys)

    unfoldable pub compute_recommendations :
        Source Q S P L
        → List (Deployment S L)
        → Recommender F
        → Outcome (Computed Q F) (Recommender F)
    unfolding compute_workloads
    compute_recommendations x matched r =
        then_do
          (compute_workloads x matched
            (record { recommender = r; recommendations = []; usage = [] }))
          (λ acc. ok (sorted acc))
