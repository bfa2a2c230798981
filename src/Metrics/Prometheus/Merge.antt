-- ===== src/Metrics/Prometheus/Merge.antt =====
-- internal/metrics/prometheus.go: the samples of the two queries, merged by pod and container. The
-- order of a Go map's keys is not determined; it is that of insertion here.
pub mod Merged
use kubera.Base.{◌*◌, Option, none, some, String, List, [], ◌∷◌, lookup, insert}
use kubera.Go.Float64.{Float64}
use kubera.Go.Time.{Time}
use kubera.Kube.Quantity.{Quantity}
use kubera.Metrics.{ContainerUsage, PodUsage}
use kubera.Metrics.Prometheus.Query.{PromSample}

-- `map[string]map[string]*ContainerUsage`.
abbrev pub ByPod : Type 0 → Type 0
ByPod Q = List (String × List (String × ContainerUsage Q))

abbrev pub inner :
    {Q : Type 0} → Option (List (String × ContainerUsage Q)) → List (String × ContainerUsage Q)
inner none = []
inner (some m) = m

module _ {Q : Type 0} ⦃q : Quantity Q⦄ where
  abbrev pub usage_or_new : String → Option (ContainerUsage Q) → ContainerUsage Q
  usage_or_new container none = record {
    container = container;
    cpu = q.zero_quantity;
    memory = q.zero_quantity;
  }
  usage_or_new container (some u) = u

  -- `cu := ensure(pod, container)`, and what is assigned to it.
  unfoldable pub assign :
      String → String → (ContainerUsage Q → ContainerUsage Q) → ByPod Q → ByPod Q
  assign pod container f by_pod =
      let containers = inner (lookup pod by_pod) in
      insert pod
        (insert container (f (usage_or_new container (lookup container containers))) containers)
        by_pod

  module _ {F : Type 0} ⦃f : Float64 F⦄ where
    abbrev pub cpu_of : F → Q
    cpu_of v = q.new_milli (f.to_int (f.mul v (f.decimal 1000 0)))

    abbrev pub memory_of : F → Q
    memory_of v = q.new_quantity (f.to_int v)

    abbrev pub set_cpu : F → ContainerUsage Q → ContainerUsage Q
    set_cpu v u = record u { cpu = cpu_of v }

    abbrev pub set_memory : F → ContainerUsage Q → ContainerUsage Q
    set_memory v u = record u { memory = memory_of v }

    -- Each of the two loops over samples, which differ in the field that they assign.
    unfoldable pub assign_all :
        (F → ContainerUsage Q → ContainerUsage Q) → List (PromSample F) → ByPod Q → ByPod Q
    assign_all set [] by_pod = by_pod
    assign_all set (s ∷ ss) by_pod =
        assign_all set ss (assign s.pod s.container (set s.value) by_pod)

    unfoldable pub merge_samples : List (PromSample F) → List (PromSample F) → ByPod Q
    unfolding assign_all
    merge_samples cpu mem = assign_all set_memory mem (assign_all set_cpu cpu [])

  abbrev values : List (String × ContainerUsage Q) → List (ContainerUsage Q)
  values [] = []
  values ((container, u) ∷ rest) = u ∷ values rest

  unfoldable pub usages_of : Time → ByPod Q → List (PodUsage Q)
  usages_of now [] = []
  usages_of now ((pod, containers) ∷ rest) =
      record { pod = pod; timestamp = now; containers = values containers } ∷ usages_of now rest
