-- ===== src/Controller/Defaults.antt =====
-- internal/controller and internal/actuator: what they read of a spec that the API server has
-- admitted. The defaults of the schema and those of the code meet here.
use mathlib.Core.Option.{some-injective}
use kubera.Base.{
  ℕ, zero, ◌*◌, ◌≤◌, ◌<◌, ◌&&◌, leb_ℤ, Bool-cases, inl, inr, ◌≡◌, refl, arith, sym, subst, true,
  false, Option, none, some, ℤ, pos, negsuc, pos_part, ltb_ℤ,
}
use kubera.Go.Float64.{Float64, IsIeee}
use kubera.Go.Time.{minute}
use kubera.Api.{MetricsConfig, BehaviorSpec, HpaCoordination, DynamicResourceSpec}
use kubera.Api.Schema.{
  ◌>>=◌, value_or, optional, defaulted, within, MetricsManifest, BehaviorManifest, HpaManifest,
  Manifest, admit_metrics, admit_scaling, admit_behavior, admit_hpa, admit, admit_provider,
  admit_hpa_mode,
}
use kubera.Api.Schema.Sound.{>>=-some, admit-Parts}
use kubera.Actuator.Policy.{default_policy, up_percent, down_percent}
use kubera.Controller.Coupling.{settings}
use kubera.Controller.Targets.{percentile_or, percentiles}
use kubera.Controller.Reconcile.{positive_or_default, interval_of, polling_interval}

-- A number that is missing, or sent as 0.
abbrev nonzero_or : ℤ → Option ℤ → ℤ
nonzero_or default none = default
nonzero_or default (some (pos zero)) = default
nonzero_or default (some n) = n

settings-admitted :
    (o : Option HpaManifest) {c : Option HpaCoordination}
    → optional admit_hpa o ≡ some c
    → settings c ≡ record {
      settle = value_or (pos (10 * minute)) (o >>= λ h. h.cooldown_after_hpa);
      pause = value_or true (o >>= λ h. h.pause_while_hpa_scaling);
      headroom = nonzero_or (pos 10) (o >>= λ h. h.reserve_headroom_percent);
    }
unfolding settings admit_hpa admit_hpa_mode
settings-admitted o h = ground arith

interval-admitted :
    (o : Option MetricsManifest) {c : Option MetricsConfig}
    → optional admit_metrics o ≡ some c
    → interval_of c ≡ positive_or_default (o >>= λ m. m.polling_interval)
unfolding admit_metrics admit_provider
interval-admitted o h = ground arith

steps-admitted :
    (o : Option BehaviorManifest) {c : Option BehaviorSpec}
    → optional admit_behavior o ≡ some c
    → (up_percent c ≡ value_or (pos 50) (o >>= λ b. b.scale_up >>= λ s. s.max_step_percent))
      × (down_percent c ≡ value_or (pos 20) (o >>= λ b. b.scale_down >>= λ s. s.max_step_percent))
unfolding admit_behavior admit_scaling
steps-admitted o h = ground arith

module _ {F : Type 0} ⦃f : Float64 F⦄ (ieee : IsIeee F) where
  -- A percentage as a fraction.
  abbrev hundredths : ℤ → F
  hundredths n = f.decimal (pos_part n) 2

  percentile_or-positive :
      (n : ℕ) (default : F) → 0 < n → n ≤ 100 → percentile_or default (pos n) ≡ f.decimal n 2
  percentile_or-positive n default low high =
      let positive : ltb_ℤ (pos 0) (pos n) ≡ true = ground arith in
      rw positive (ieee.div-hundred n (omega arith))

  -- The default of the code is of no account here.
  percentile_or-admitted :
      (default : F) (n : ℕ) (o : Option ℤ) {percent : ℤ}
      → 0 < n
      → n ≤ 100
      → defaulted (pos n) (within (pos 50) (pos 100)) o ≡ some percent
      → percentile_or default percent ≡ hundredths (value_or (pos n) o)
  percentile_or-admitted default n none low high h =
      subst (λ p. percentile_or default p ≡ f.decimal n 2) (some-injective (pos n) _ h)
        (percentile_or-positive n default low high)
  percentile_or-admitted default n (some (negsuc k)) low high h =
      let outside : leb_ℤ (pos 50) (negsuc k) ≡ false = ground arith in
      let rejected = rw outside at h in cc
  percentile_or-admitted default n (some (pos k)) {percent = percent} low high h =
      elim (Bool-cases (leb_ℤ (pos 50) (pos k) && leb_ℤ (pos k) (pos 100))) [
        | inr outside ↦ let rejected = rw outside at h in cc
        | inl inside ↦
            subst (λ p. percentile_or default p ≡ f.decimal k 2)
              (some-injective (pos k) percent (rw inside at h))
              (percentile_or-positive k default (ground arith) (ground arith))
      ]

  percentiles-admitted :
      (o : Option MetricsManifest) {c : Option MetricsConfig}
      → optional admit_metrics o ≡ some c
      → percentiles c ≡ (
        hundredths (value_or (pos 90) (o >>= λ m. m.cpu_percentile)),
        hundredths (value_or (pos 95) (o >>= λ m. m.memory_percentile)),
      )
  unfolding percentiles admit_metrics
  percentiles-admitted none {c = c} h =
      subst (λ x. percentiles x ≡ (hundredths (pos 90), hundredths (pos 95)))
        (some-injective none c h) refl
  percentiles-admitted (some m) {c = c} h =
      let (config, admitted, h0) = >>=-some (admit_metrics m) _ h in
      let (provider, provider_eq, h1) = >>=-some (admit_provider m.provider) _ admitted in
      let (cpu, cpu_eq, h2) =
        >>=-some (defaulted (pos 90) (within (pos 50) (pos 100)) m.cpu_percentile) _ h1 in
      let (memory, memory_eq, h3) =
        >>=-some (defaulted (pos 95) (within (pos 50) (pos 100)) m.memory_percentile) _ h2 in
      rw
        (
          sym (some-injective _ _ h0),
          sym (some-injective _ _ h3),
          percentile_or-admitted (f.decimal 90 2) 90 m.cpu_percentile (omega arith) (omega arith)
              cpu_eq,
          percentile_or-admitted (f.decimal 95 2) 95 m.memory_percentile (omega arith) (omega arith)
              memory_eq,
        )
        refl

  module _ {Q S : Type 0} where
    -- What the code reads of the spec, by what was sent.
    pub record IsEffective (m : Manifest Q S) (spec : DynamicResourceSpec Q S) : Type 0 where
      pub coordination : settings spec.hpa ≡ record {
        settle = value_or (pos (10 * minute)) (m.hpa >>= λ h. h.cooldown_after_hpa);
        pause = value_or true (m.hpa >>= λ h. h.pause_while_hpa_scaling);
        headroom = nonzero_or (pos 10) (m.hpa >>= λ h. h.reserve_headroom_percent);
      }
      pub interval :
          polling_interval spec ≡ positive_or_default (m.metrics >>= λ x. x.polling_interval)
      pub readout : percentiles spec.metrics ≡ (
        hundredths (value_or (pos 90) (m.metrics >>= λ x. x.cpu_percentile)),
        hundredths (value_or (pos 95) (m.metrics >>= λ x. x.memory_percentile)),
      )
      pub step_up :
          (default_policy {F = F} spec).max_step_up_percent
          ≡ value_or (pos 50) (m.behavior >>= λ b. b.scale_up >>= λ s. s.max_step_percent)
      pub step_down :
          (default_policy {F = F} spec).max_step_down_percent
          ≡ value_or (pos 20) (m.behavior >>= λ b. b.scale_down >>= λ s. s.max_step_percent)

    -- The defaults of the schema and those of the code agree: of a spec that the API server has
    -- admitted, the code reads each percentile, step percentage, settle window and pause that was
    -- sent, else one default, be it the field or the object around it that is missing. So also the
    -- polling interval, where one that is not positive counts as missing, and the headroom, where 0
    -- does: a headroom of 0, which the schema allows, is read as 10.
    pub admit-IsEffective :
        (m : Manifest Q S) {spec : DynamicResourceSpec Q S}
        → admit m ≡ some spec
        → IsEffective m spec
    unfolding polling_interval default_policy
    admit-IsEffective m h =
        let parts = admit-Parts m h in
        let (up, down) = steps-admitted m.behavior parts.behavior in
        record {
          coordination = settings-admitted m.hpa parts.hpa;
          interval = interval-admitted m.metrics parts.metrics;
          readout = percentiles-admitted m.metrics parts.metrics;
          step_up = up;
          step_down = down;
        }
