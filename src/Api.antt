-- ===== src/Api.antt =====
-- api/v1alpha1/dynamicresource_types.go: the DynamicResource object. `Q` is the type of quantities
-- and `S` that of label selectors. Enumerations are strings that the object's schema restricts to
-- the values below, with `unset` for the empty string; `int32` and `int64` fields are integers.
pub mod Schema
use kubera.Base.{Bool, Option, String, List, ℤ}
use kubera.Go.Time.{Time, Duration}
use kubera.Kube.Objects.{ResourceList, Condition}

pub data UpdateMode : Type 0 where
  unset off in_place_only in_place_or_recreate : UpdateMode

pub data ControlledValues : Type 0 where
  unset requests_and_limits requests_only : ControlledValues

pub data ContainerMode : Type 0 where
  unset auto off : ContainerMode

pub data MetricsProvider : Type 0 where
  unset metrics_server prometheus : MetricsProvider

pub data HpaMode : Type 0 where
  unset cooperative ignore : HpaMode

pub data HpaState : Type 0 where
  unset idle scaling at_max_vertical : HpaState

pub record ResourceBounds (Q : Type 0) : Type 0 where
  pub min : Q
  pub max : Q

pub record ResourcePolicy (Q : Type 0) : Type 0 where
  pub cpu : ResourceBounds Q
  pub memory : ResourceBounds Q
  pub controlled_values : ControlledValues

pub record ContainerOverride (Q : Type 0) : Type 0 where
  pub container_name : String
  pub mode : ContainerMode
  pub cpu : Option (ResourceBounds Q)
  pub memory : Option (ResourceBounds Q)

pub record MetricsConfig : Type 0 where
  pub provider : MetricsProvider
  pub polling_interval : Option Duration
  pub cpu_percentile : ℤ
  pub memory_percentile : ℤ
  pub prometheus_url : String

pub record ScalingPolicy : Type 0 where
  pub stabilization_window : Option Duration
  pub max_step_percent : ℤ
  pub cooldown : Option Duration

pub record BehaviorSpec : Type 0 where
  pub scale_up : Option ScalingPolicy
  pub scale_down : Option ScalingPolicy

pub record HpaCoordination : Type 0 where
  pub mode : HpaMode
  pub reserve_headroom_percent : ℤ
  pub pause_while_hpa_scaling : Option Bool
  pub cooldown_after_hpa : Option Duration

pub record DynamicResourceSpec (Q S : Type 0) : Type 0 where
  pub selector : S
  pub update_mode : UpdateMode
  pub resources : ResourcePolicy Q
  pub container_overrides : List (ContainerOverride Q)
  pub metrics : Option MetricsConfig
  pub behavior : Option BehaviorSpec
  pub hpa : Option HpaCoordination

pub record WorkloadReference : Type 0 where
  pub kind : String
  pub name : String

-- `Target` is optional in the schema: `target` is what reads of the map give, and `is_nil_target`
-- tells the nil map, which has no entries and on which an assignment panics.
pub record ContainerRecommendation (Q : Type 0) : Type 0 where
  pub container_name : String
  pub is_nil_target : Bool
  pub target : ResourceList Q
  pub applied : ResourceList Q

pub record WorkloadRecommendation (Q : Type 0) : Type 0 where
  pub workload : String
  pub containers : List (ContainerRecommendation Q)

pub record DynamicResourceStatus (Q : Type 0) : Type 0 where
  pub conditions : List Condition
  pub matched_workloads : List WorkloadReference
  pub recommendations : List (WorkloadRecommendation Q)
  pub last_resize_time : Option Time
  pub hpa_state : HpaState
  pub observed_generation : ℤ

-- The object, with the fields that the program reads of its metadata.
pub record DynamicResource (Q S : Type 0) : Type 0 where
  pub name : String
  pub namespace : String
  pub generation : ℤ
  pub creation_timestamp : Time
  pub spec : DynamicResourceSpec Q S
  pub status : DynamicResourceStatus Q
