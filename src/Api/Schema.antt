-- ===== src/Api/Schema.antt =====
-- api/v1alpha1/dynamicresource_types.go: the schema that the markers above the fields give. A
-- `Manifest` is a spec as a client sends it, `none` where a field is missing; `admit` is what the API
-- server makes of it by the markers (the values of an enumeration, minimum, maximum, default, the
-- keys of a list), `none` for a rejection. The forms of quantities and durations are the libraries'.
pub mod Sound
use kubera.Base.{
  ◌*◌, ◌&&◌, ◌||◌, Bool, true, false, Option, none, some, String, List, [], ◌∷◌, str_eq,
  if◌then◌else◌, ℤ, pos, leb_ℤ,
}
use kubera.Go.Time.{Duration, second, minute}
use kubera.Api.{
  UpdateMode, ControlledValues, ContainerMode, MetricsProvider, HpaMode, ResourceBounds,
  ResourcePolicy, ContainerOverride, MetricsConfig, ScalingPolicy, BehaviorSpec, HpaCoordination,
  DynamicResourceSpec,
}

infixl 5 ◌>>=◌
abbrev pub ◌>>=◌ : {A B : Type 0} → Option A → (A → Option B) → Option B
none >>= f = none
some a >>= f = f a

pub record MetricsManifest : Type 0 where
  pub provider : Option String
  pub polling_interval : Option Duration
  pub cpu_percentile : Option ℤ
  pub memory_percentile : Option ℤ
  pub prometheus_url : Option String

pub record ScalingManifest : Type 0 where
  pub stabilization_window : Option Duration
  pub max_step_percent : Option ℤ
  pub cooldown : Option Duration

pub record BehaviorManifest : Type 0 where
  pub scale_up : Option ScalingManifest
  pub scale_down : Option ScalingManifest

pub record HpaManifest : Type 0 where
  pub mode : Option String
  pub reserve_headroom_percent : Option ℤ
  pub pause_while_hpa_scaling : Option Bool
  pub cooldown_after_hpa : Option Duration

pub record OverrideManifest (Q : Type 0) : Type 0 where
  pub container_name : String
  pub mode : Option String
  pub cpu : Option (ResourceBounds Q)
  pub memory : Option (ResourceBounds Q)

pub record Manifest (Q S : Type 0) : Type 0 where
  pub selector : S
  pub update_mode : Option String
  pub cpu : ResourceBounds Q
  pub memory : ResourceBounds Q
  pub controlled_values : Option String
  pub container_overrides : List (OverrideManifest Q)
  pub metrics : Option MetricsManifest
  pub behavior : Option BehaviorManifest
  pub hpa : Option HpaManifest

-- The first case that a text is.
abbrev pub one_of : {A : Type 0} → List (String × A) → String → Option A
one_of [] text = none
one_of ((name, a) ∷ rest) text =
    let later = one_of rest text in if str_eq text name then some a else later

-- A missing value gives the default, which is not looked at further.
abbrev pub defaulted : {A B : Type 0} → B → (A → Option B) → Option A → Option B
defaulted default read none = some default
defaulted default read (some a) = read a

-- A pointer: nil where the field is missing.
abbrev pub optional : {A B : Type 0} → (A → Option B) → Option A → Option (Option B)
optional read none = some none
optional read (some a) = read a >>= λ b. some (some b)

abbrev pub within : ℤ → ℤ → ℤ → Option ℤ
within low high n = if leb_ℤ low n && leb_ℤ n high then some n else none

unfoldable pub admit_update_mode : Option String → Option UpdateMode
admit_update_mode = defaulted UpdateMode.off (
    one_of (
      ("Off", UpdateMode.off)
      ∷ ("InPlaceOnly", UpdateMode.in_place_only)
      ∷ ("InPlaceOrRecreate", UpdateMode.in_place_or_recreate)
      ∷ []))

unfoldable pub admit_controlled_values : Option String → Option ControlledValues
admit_controlled_values = defaulted ControlledValues.requests_and_limits (
    one_of (
      ("RequestsAndLimits", ControlledValues.requests_and_limits)
      ∷ ("RequestsOnly", ControlledValues.requests_only)
      ∷ []))

unfoldable pub admit_container_mode : Option String → Option ContainerMode
admit_container_mode =
    defaulted ContainerMode.auto
      (one_of (("Auto", ContainerMode.auto) ∷ ("Off", ContainerMode.off) ∷ []))

unfoldable pub admit_provider : Option String → Option MetricsProvider
admit_provider = defaulted MetricsProvider.metrics_server (
    one_of (
      ("MetricsServer", MetricsProvider.metrics_server)
      ∷ ("Prometheus", MetricsProvider.prometheus)
      ∷ []))

unfoldable pub admit_hpa_mode : Option String → Option HpaMode
admit_hpa_mode =
    defaulted HpaMode.cooperative
      (one_of (("Cooperative", HpaMode.cooperative) ∷ ("Ignore", HpaMode.ignore) ∷ []))

abbrev pub value_or : {A : Type 0} → A → Option A → A
value_or default none = default
value_or default (some a) = a

unfoldable pub admit_metrics : MetricsManifest → Option MetricsConfig
unfolding admit_provider
admit_metrics m = do
  provider ← admit_provider m.provider
  cpu ← defaulted (pos 90) (within (pos 50) (pos 100)) m.cpu_percentile
  memory ← defaulted (pos 95) (within (pos 50) (pos 100)) m.memory_percentile
  some (record {
    provider = provider;
    polling_interval = some (value_or (pos (30 * second)) m.polling_interval);
    cpu_percentile = cpu;
    memory_percentile = memory;
    prometheus_url = value_or "" m.prometheus_url;
  })

-- Without a default, a missing number is 0 in the object.
unfoldable pub admit_scaling : ScalingManifest → Option ScalingPolicy
admit_scaling m = do
  percent ← defaulted (pos 0) (within (pos 1) (pos 100)) m.max_step_percent
  some (record {
    stabilization_window = m.stabilization_window;
    max_step_percent = percent;
    cooldown = m.cooldown;
  })

unfoldable pub admit_behavior : BehaviorManifest → Option BehaviorSpec
unfolding admit_scaling
admit_behavior m = do
  up ← optional admit_scaling m.scale_up
  down ← optional admit_scaling m.scale_down
  some (record { scale_up = up; scale_down = down })

unfoldable pub admit_hpa : HpaManifest → Option HpaCoordination
unfolding admit_hpa_mode
admit_hpa m = do
  mode ← admit_hpa_mode m.mode
  headroom ← defaulted (pos 10) (within (pos 0) (pos 50)) m.reserve_headroom_percent
  some (record {
    mode = mode;
    reserve_headroom_percent = headroom;
    pause_while_hpa_scaling = some (value_or true m.pause_while_hpa_scaling);
    cooldown_after_hpa = some (value_or (pos (10 * minute)) m.cooldown_after_hpa);
  })

module _ {Q : Type 0} where
  abbrev pub has_override : String → List (ContainerOverride Q) → Bool
  has_override name [] = false
  has_override name (o ∷ os) = str_eq o.container_name name || has_override name os

  -- A name has a character.
  unfoldable pub admit_override : OverrideManifest Q → Option (ContainerOverride Q)
  unfolding admit_container_mode
  admit_override m = do
    mode ← admit_container_mode m.mode
    if str_eq m.container_name ""
        then none
        else some (record {
          container_name = m.container_name;
          mode = mode;
          cpu = m.cpu;
          memory = m.memory;
        })

  -- The name is the key of the list: no two are the same.
  unfoldable pub admit_overrides : List (OverrideManifest Q) → Option (List (ContainerOverride Q))
  unfolding admit_override
  admit_overrides [] = some []
  admit_overrides (m ∷ ms) = do
    os ← admit_overrides ms
    o ← admit_override m
    if has_override o.container_name os then none else some (o ∷ os)

  unfoldable pub admit : {S : Type 0} → Manifest Q S → Option (DynamicResourceSpec Q S)
  admit m = do
    mode ← admit_update_mode m.update_mode
    values ← admit_controlled_values m.controlled_values
    overrides ← admit_overrides m.container_overrides
    metrics ← optional admit_metrics m.metrics
    behavior ← optional admit_behavior m.behavior
    hpa ← optional admit_hpa m.hpa
    some (record {
      selector = m.selector;
      update_mode = mode;
      resources = record { cpu = m.cpu; memory = m.memory; controlled_values = values };
      container_overrides = overrides;
      metrics = metrics;
      behavior = behavior;
      hpa = hpa;
    })
