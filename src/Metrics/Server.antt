-- ===== src/Metrics/Server.antt =====
-- internal/metrics/metricsserver.go. What listing the metrics API gives is an argument.
use kubera.Base.{Option, none, some, String, List, [], ◌∷◌}
use kubera.Go.Time.{Time}
use kubera.Kube.Quantity.{Quantity}
use kubera.Kube.Objects.{ResourceList, or_zero}
use kubera.Metrics.{ContainerUsage, PodUsage}

-- The fields that are read of metrics/v1beta1 objects.
pub record ContainerMetrics (Q : Type 0) : Type 0 where
  pub name : String
  pub usage : ResourceList Q

pub record PodMetrics (Q : Type 0) : Type 0 where
  pub name : String
  pub timestamp : Time
  pub containers : List (ContainerMetrics Q)

module _ {Q : Type 0} ⦃q : Quantity Q⦄ where
  unfoldable pub container_usages : List (ContainerMetrics Q) → List (ContainerUsage Q)
  container_usages [] = []
  container_usages (c ∷ cs) =
      record { container = c.name; cpu = or_zero c.usage.cpu; memory = or_zero c.usage.memory }
      ∷ container_usages cs

  unfoldable pub pod_usages : List (PodMetrics Q) → List (PodUsage Q)
  unfolding container_usages
  pod_usages [] = []
  pod_usages (p ∷ ps) =
      record { pod = p.name; timestamp = p.timestamp; containers = container_usages p.containers }
      ∷ pod_usages ps

  -- `ListPodUsage`.
  unfoldable pub list_from_server : Option (List (PodMetrics Q)) → Option (List (PodUsage Q))
  unfolding pod_usages
  list_from_server none = none
  list_from_server (some items) = some (pod_usages items)
