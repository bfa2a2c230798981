-- ===== src/Api/Schema/Sound.antt =====
-- api/v1alpha1/dynamicresource_types.go: what holds of a spec that the API server has admitted.
use mathlib.Core.Option.{some-injective}
use kubera.Base.{
  ◌≡◌, ◌≢◌, refl, arith, subst, inl, inr, false, Option, none, some, String, List, [], ◌∷◌, ℤ, pos,
  ◌≤ℤ◌, eq_iff, Bool-cases,
}
use kubera.Api.{
  UpdateMode, ControlledValues, ContainerMode, MetricsProvider, HpaMode, ContainerOverride,
  MetricsConfig, ScalingPolicy, BehaviorSpec, HpaCoordination, DynamicResourceSpec,
}
use kubera.Api.Schema.{
  ◌>>=◌, optional, defaulted, within, MetricsManifest, ScalingManifest, BehaviorManifest,
  HpaManifest, OverrideManifest, Manifest, admit_update_mode, admit_controlled_values,
  admit_container_mode, admit_provider, admit_hpa_mode, admit_metrics, admit_scaling,
  admit_behavior, admit_hpa, has_override, admit_override, admit_overrides, admit,
}

-- A successful chain has succeeded at its head.
pub >>=-some :
    {A B : Type 0} (m : Option A) (f : A → Option B) {b : B}
    → (m >>= f) ≡ some b
    → (a : A) × (m ≡ some a) × (f a ≡ some b)
>>=-some (some a) f h = (a, refl, h)
>>=-some none f h = cc

abbrev InRange : ℤ → ℤ → ℤ → Type 0
InRange low high n = (low ≤ℤ n) × (n ≤ℤ high)

-- A number as it was sent, in its range, or else the default.
abbrev IsSent : ℤ → ℤ → ℤ → Option ℤ → ℤ → Type 0
IsSent low high default none n = n ≡ default
IsSent low high default (some k) n = (n ≡ k) × InRange low high n

-- A part is present where it was sent, and related to what was sent.
abbrev Matching : {A B : Type 0} → (A → B → Type 0) → Option A → Option B → Type 0
Matching R none none = Unit
Matching R none (some b) = ⊥
Matching R (some a) none = ⊥
Matching R (some a) (some b) = R a b

abbrev MetricsAsSent : MetricsManifest → MetricsConfig → Type 0
MetricsAsSent m c =
    (c.provider ≢ MetricsProvider.unset)
    × IsSent (pos 50) (pos 100) (pos 90) m.cpu_percentile c.cpu_percentile
    × IsSent (pos 50) (pos 100) (pos 95) m.memory_percentile c.memory_percentile

-- A percentage that is not sent is 0 in the object.
abbrev ScalingAsSent : ScalingManifest → ScalingPolicy → Type 0
ScalingAsSent m s = IsSent (pos 1) (pos 100) (pos 0) m.max_step_percent s.max_step_percent

abbrev HpaAsSent : HpaManifest → HpaCoordination → Type 0
HpaAsSent m h =
    (h.mode ≢ HpaMode.unset)
    × IsSent (pos 0) (pos 50) (pos 10) m.reserve_headroom_percent h.reserve_headroom_percent

number-IsSent :
    (low high default : ℤ) (sent : Option ℤ) {n : ℤ}
    → defaulted default (within low high) sent ≡ some n
    → IsSent low high default sent n
number-IsSent low high default none h = ground arith
number-IsSent low high default (some k) h = ground arith

metrics-AsSent :
    (m : MetricsManifest) {c : MetricsConfig} → admit_metrics m ≡ some c → MetricsAsSent m c
unfolding admit_metrics admit_provider
metrics-AsSent m h =
    let (provider, provider_eq, h1) = >>=-some (admit_provider m.provider) _ h in
    let (cpu, cpu_eq, h2) =
      >>=-some (defaulted (pos 90) (within (pos 50) (pos 100)) m.cpu_percentile) _ h1 in
    let (memory, memory_eq, h3) =
      >>=-some (defaulted (pos 95) (within (pos 50) (pos 100)) m.memory_percentile) _ h2 in
    subst (MetricsAsSent m) (some-injective _ _ h3) (
      ground arith,
      number-IsSent (pos 50) (pos 100) (pos 90) m.cpu_percentile cpu_eq,
      number-IsSent (pos 50) (pos 100) (pos 95) m.memory_percentile memory_eq,
    )

scaling-AsSent :
    (m : ScalingManifest) {c : ScalingPolicy} → admit_scaling m ≡ some c → ScalingAsSent m c
unfolding admit_scaling
scaling-AsSent m h =
    let (percent, percent_eq, h1) =
      >>=-some (defaulted (pos 0) (within (pos 1) (pos 100)) m.max_step_percent) _ h in
    subst (ScalingAsSent m) (some-injective _ _ h1)
      (number-IsSent (pos 1) (pos 100) (pos 0) m.max_step_percent percent_eq)

hpa-AsSent : (m : HpaManifest) {c : HpaCoordination} → admit_hpa m ≡ some c → HpaAsSent m c
unfolding admit_hpa admit_hpa_mode
hpa-AsSent m h =
    let (mode, mode_eq, h1) = >>=-some (admit_hpa_mode m.mode) _ h in
    let (percent, percent_eq, h2) =
      >>=-some (defaulted (pos 10) (within (pos 0) (pos 50)) m.reserve_headroom_percent) _ h1 in
    subst (HpaAsSent m) (some-injective _ _ h2)
      (ground arith, number-IsSent (pos 0) (pos 50) (pos 10) m.reserve_headroom_percent percent_eq)

optional-Matching :
    {A B : Type 0} (R : A → B → Type 0) (read : A → Option B) (o : Option A) {r : Option B}
    → ((a : A) (b : B) → read a ≡ some b → R a b)
    → optional read o ≡ some r
    → Matching R o r
optional-Matching R read none sound h = subst (Matching R none) (some-injective _ _ h) tt
optional-Matching R read (some a) sound h =
    let (b, e, k) = >>=-some (read a) (λ x. some (some x)) h in
    subst (Matching R (some a)) (some-injective _ _ k) (sound a b e)

abbrev BehaviorAsSent : BehaviorManifest → BehaviorSpec → Type 0
BehaviorAsSent m b =
    Matching ScalingAsSent m.scale_up b.scale_up × Matching ScalingAsSent m.scale_down b.scale_down

behavior-AsSent :
    (m : BehaviorManifest) {c : BehaviorSpec} → admit_behavior m ≡ some c → BehaviorAsSent m c
unfolding admit_behavior
behavior-AsSent m h =
    let (up, up_eq, h1) = >>=-some (optional admit_scaling m.scale_up) _ h in
    let (down, down_eq, h2) = >>=-some (optional admit_scaling m.scale_down) _ h1 in
    subst (BehaviorAsSent m) (some-injective _ _ h2) (
      optional-Matching ScalingAsSent admit_scaling m.scale_up (λ a b e. scaling-AsSent a e) up_eq,
      optional-Matching ScalingAsSent admit_scaling m.scale_down (λ a b e. scaling-AsSent a e)
          down_eq,
    )

module _ {Q : Type 0} where
  abbrev IsNamed : ContainerOverride Q → Type 0
  IsNamed o = (o.container_name ≢ "") × (o.mode ≢ ContainerMode.unset)

  -- Named, and with a name that no later one has.
  abbrev Keyed : List (ContainerOverride Q) → Type 0
  Keyed [] = Unit
  Keyed (o ∷ os) = IsNamed o × (has_override o.container_name os ≡ false) × Keyed os

  override-IsNamed :
      (m : OverrideManifest Q) {o : ContainerOverride Q} → admit_override m ≡ some o → IsNamed o
  unfolding admit_override admit_container_mode
  override-IsNamed m h = ground (arith, eq_iff m.container_name "")

  overrides-Keyed :
      (ms : List (OverrideManifest Q)) {os : List (ContainerOverride Q)}
      → admit_overrides ms ≡ some os
      → Keyed os
  unfolding admit_overrides
  overrides-Keyed [] h = subst Keyed (some-injective _ _ h) tt
  overrides-Keyed (m ∷ ms) {os = os} h =
      let (later, later_eq, h1) = >>=-some (admit_overrides ms) _ h in
      let (o, o_eq, h2) = >>=-some (admit_override m) _ h1 in
      elim (Bool-cases (has_override o.container_name later)) [
        | inl taken ↦ let rejected = simp taken at h2 in cc
        | inr free ↦
            subst Keyed (some-injective (o ∷ later) os (simp free at h2))
              (override-IsNamed m o_eq, free, overrides-Keyed ms later_eq)
      ]

update_mode-set :
    (o : Option String) {u : UpdateMode} → admit_update_mode o ≡ some u → u ≢ UpdateMode.unset
unfolding admit_update_mode
update_mode-set o h = ground arith

controlled_values-set :
    (o : Option String) {v : ControlledValues}
    → admit_controlled_values o ≡ some v
    → v ≢ ControlledValues.unset
unfolding admit_controlled_values
controlled_values-set o h = ground arith

module _ {Q S : Type 0} where
  -- Each part of the spec is what its part of the manifest is admitted as.
  pub record Parts (m : Manifest Q S) (spec : DynamicResourceSpec Q S) : Type 0 where
    pub update_mode : admit_update_mode m.update_mode ≡ some spec.update_mode
    pub controlled_values :
        admit_controlled_values m.controlled_values ≡ some spec.resources.controlled_values
    pub overrides : admit_overrides m.container_overrides ≡ some spec.container_overrides
    pub metrics : optional admit_metrics m.metrics ≡ some spec.metrics
    pub behavior : optional admit_behavior m.behavior ≡ some spec.behavior
    pub hpa : optional admit_hpa m.hpa ≡ some spec.hpa
    pub selector : spec.selector ≡ m.selector
    pub cpu : spec.resources.cpu ≡ m.cpu
    pub memory : spec.resources.memory ≡ m.memory

  pub admit-Parts :
      (m : Manifest Q S) {spec : DynamicResourceSpec Q S} → admit m ≡ some spec → Parts m spec
  unfolding admit
  admit-Parts m h =
      let (mode, mode_eq, h1) = >>=-some (admit_update_mode m.update_mode) _ h in
      let (values, values_eq, h2) = >>=-some (admit_controlled_values m.controlled_values) _ h1 in
      let (overrides, overrides_eq, h3) = >>=-some (admit_overrides m.container_overrides) _ h2 in
      let (metrics, metrics_eq, h4) = >>=-some (optional admit_metrics m.metrics) _ h3 in
      let (behavior, behavior_eq, h5) = >>=-some (optional admit_behavior m.behavior) _ h4 in
      let (hpa, hpa_eq, h6) = >>=-some (optional admit_hpa m.hpa) _ h5 in
      subst (Parts m) (some-injective _ _ h6) (record {
        update_mode = mode_eq;
        controlled_values = values_eq;
        overrides = overrides_eq;
        metrics = metrics_eq;
        behavior = behavior_eq;
        hpa = hpa_eq;
        selector = refl;
        cpu = refl;
        memory = refl;
      })

  -- What an admitted spec is, by what was sent.
  pub record Conforms (m : Manifest Q S) (spec : DynamicResourceSpec Q S) : Type 0 where
    pub update_mode : spec.update_mode ≢ UpdateMode.unset
    pub controlled_values : spec.resources.controlled_values ≢ ControlledValues.unset
    pub overrides : Keyed spec.container_overrides
    pub metrics : Matching MetricsAsSent m.metrics spec.metrics
    pub behavior : Matching BehaviorAsSent m.behavior spec.behavior
    pub hpa : Matching HpaAsSent m.hpa spec.hpa
    pub selector : spec.selector ≡ m.selector
    pub cpu : spec.resources.cpu ≡ m.cpu
    pub memory : spec.resources.memory ≡ m.memory

  -- Whatever a client sends, a spec that the API server admits by the schema has a mode in every
  -- enumeration and distinct override names that are not empty, and the metrics, the behavior with
  -- its two directions and the autoscaler's settings are present exactly where they were sent. Their
  -- percentiles are those sent, from 50 to 100, else 90 and 95; their step percentages those sent,
  -- from 1 to 100, else 0; and the headroom the one sent, from 0 to 50, else 10. The selector and the
  -- bounds are those of the manifest.
  pub admit-Conforms :
      (m : Manifest Q S) {spec : DynamicResourceSpec Q S} → admit m ≡ some spec → Conforms m spec
  admit-Conforms m h =
      let parts = admit-Parts m h in
      record {
        update_mode = update_mode-set m.update_mode parts.update_mode;
        controlled_values = controlled_values-set m.controlled_values parts.controlled_values;
        overrides = overrides-Keyed m.container_overrides parts.overrides;
        metrics =
            optional-Matching MetricsAsSent admit_metrics m.metrics (λ a b e. metrics-AsSent a e)
              parts.metrics;
        behavior =
            optional-Matching BehaviorAsSent admit_behavior m.behavior
              (λ a b e. behavior-AsSent a e) parts.behavior;
        hpa = optional-Matching HpaAsSent admit_hpa m.hpa (λ a b e. hpa-AsSent a e) parts.hpa;
        selector = parts.selector;
        cpu = parts.cpu;
        memory = parts.memory;
      }
