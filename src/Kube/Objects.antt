-- ===== src/Kube/Objects.antt =====
-- The fields that the program reads of core/v1 and autoscaling/v2 objects.
use kubera.Base.{Option, none, some, String, List, ℤ}
use kubera.Go.Time.{Time}
use kubera.Kube.Quantity.{Quantity}

pub data ResourceName : Type 0 where
  cpu memory : ResourceName

-- `ResourceList`, a map from resource names: the two names that the program uses, and the rest.
pub record ResourceList (Q : Type 0) : Type 0 where
  pub cpu : Option Q
  pub memory : Option Q
  pub others : List (String × Q)

abbrev pub get : {Q : Type 0} → ResourceName → ResourceList Q → Option Q
get cpu l = l.cpu
get memory l = l.memory

-- `l[name]` of a map that may be nil.
abbrev pub index : {Q : Type 0} → ResourceName → Option (ResourceList Q) → Option Q
index name none = none
index name (some l) = get name l

-- A read without the second result: a missing key gives the zero quantity.
abbrev pub or_zero : {Q : Type 0} ⦃q : Quantity Q⦄ → Option Q → Q
or_zero ⦃q⦄ none = q.zero_quantity
or_zero (some a) = a

pub record Container (Q : Type 0) : Type 0 where
  pub name : String
  -- `resources.requests` and `resources.limits`; `none` is the nil map.
  pub requests : Option (ResourceList Q)
  pub limits : Option (ResourceList Q)

-- `status.qosClass`; `unset` is the empty string.
pub data QosClass : Type 0 where
  unset guaranteed burstable best_effort : QosClass

pub data PodPhase : Type 0 where
  pending running succeeded failed unknown : PodPhase

pub record PodCondition : Type 0 where
  pub kind : String
  pub reason : String

pub record Terminated : Type 0 where
  pub reason : String
  pub finished_at : Time

pub record ContainerStatus : Type 0 where
  pub name : String
  pub last_terminated : Option Terminated

pub record Pod (Q : Type 0) : Type 0 where
  pub name : String
  pub deletion_timestamp : Option Time
  pub containers : List (Container Q)
  pub qos_class : QosClass
  pub phase : PodPhase
  pub conditions : List PodCondition
  pub container_statuses : List ContainerStatus

-- `metric.type` of an autoscaler's metric, with the source that the type names; the sources of the
-- other types are not read.
pub record MetricTarget : Type 0 where
  pub kind : String
  pub average_utilization : Option ℤ

pub record ResourceMetric : Type 0 where
  pub name : String
  pub target : MetricTarget

pub record MetricSpec : Type 0 where
  pub kind : String
  pub resource : Option ResourceMetric
  pub container_resource : Option ResourceMetric

pub record Autoscaler : Type 0 where
  pub target_kind : String
  pub target_name : String
  pub metrics : List MetricSpec
  pub desired_replicas : ℤ
  pub current_replicas : ℤ
  pub last_scale_time : Option Time

-- `metav1.Condition`.
pub data ConditionStatus : Type 0 where
  yes no unknown : ConditionStatus

pub record Condition : Type 0 where
  pub kind : String
  pub status : ConditionStatus
  pub reason : String
  pub message : String
  pub observed_generation : ℤ
  pub last_transition_time : Time

-- What a recorder is told of an event; its action is `Reconcile` throughout.
pub data EventType : Type 0 where
  normal warning : EventType

pub record Event : Type 0 where
  pub kind : EventType
  pub reason : String
  pub note : String
