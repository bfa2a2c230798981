-- ===== src/Metrics/Prometheus.antt =====
-- internal/metrics/prometheus.go: `ListPodUsage`. The server's answers are an argument. `%q` is
-- modelled for printable ASCII, which label values and namespaces are.
pub mod Names
pub mod Query
pub mod Merge
use kubera.Base.{Option, none, some, String, List, []}
use kubera.Go.Float64.{Float64}
use kubera.Go.Time.{Time}
use kubera.Kube.Quantity.{Quantity}
use kubera.Metrics.{PodUsage}
use kubera.Metrics.Prometheus.Query.{
  Requirement, PrometheusServer, PromSample, selector_matchers, cpu_query, mem_query, query,
}
use kubera.Metrics.Prometheus.Merge.{merge_samples, usages_of}

module _ {Q F : Type 0} ⦃q : Quantity Q⦄ ⦃f : Float64 F⦄ where
  abbrev merged :
      Time
      → Option (List (PromSample F))
      → Option (List (PromSample F))
      → Option (List (PodUsage Q))
  merged now (some cpu) (some mem) = some (usages_of now (merge_samples cpu mem))
  merged now _ _ = none

  abbrev list_matching :
      PrometheusServer F → Time → String → Option String → Option (List (PodUsage Q))
  list_matching server now namespace none = none
  list_matching server now namespace (some matchers) =
      merged now (query server (cpu_query namespace matchers))
        (query server (mem_query namespace matchers))

  -- `ListPodUsage`, with `none` for an error.
  unfoldable pub list_from_prometheus :
      PrometheusServer F → Time → String → Option (List Requirement) → Option (List (PodUsage Q))
  unfolding usages_of merge_samples
  list_from_prometheus server now namespace requirements =
      list_matching server now namespace (selector_matchers requirements)
