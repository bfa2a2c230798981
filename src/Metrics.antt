-- ===== src/Metrics.antt =====
-- internal/metrics: where usage samples come from.
pub mod Server
pub mod Fake
pub mod Prometheus
use kubera.Base.{String, List, Option}
use kubera.Go.Time.{Time}

-- provider.go.
pub record ContainerUsage (Q : Type 0) : Type 0 where
  pub container : String
  pub cpu : Q
  pub memory : Q

pub record PodUsage (Q : Type 0) : Type 0 where
  pub pod : String
  pub timestamp : Time
  pub containers : List (ContainerUsage Q)

-- What a namespace and a selector give; `none` is an error.
abbrev pub Provider : Type 0 → Type 0 → Type 0
Provider Q P = String → P → Option (List (PodUsage Q))
