-- ===== src/Controller/Targets.antt =====
-- internal/controller/recommendation.go: from a percentile readout to a container's target.
pub mod Bounded
use kubera.Base.{Option, none, some, [], if◌then◌else◌, ℤ, pos, ltb_ℤ}
use kubera.Go.Int64.{mul64}
use kubera.Go.Float64.{Float64}
use kubera.Kube.Quantity.{Quantity}
use kubera.Kube.Objects.{ResourceList}
use kubera.Api.{ResourcePolicy, ContainerOverride, MetricsConfig}
use kubera.Recommender.States.{Recommendation}
use kubera.Controller.Bounds.{bounds_for, clamp_quantity}

abbrev pub cpu_rounding_milli : ℤ
cpu_rounding_milli = pos 10

abbrev pub mem_rounding_bytes : ℤ
mem_rounding_bytes = pos 1_048_576

abbrev pub min_memory_recommendation_bytes : ℤ
min_memory_recommendation_bytes = pos 33_554_432

module _ {F : Type 0} ⦃f : Float64 F⦄ where
  -- `float64(percent) / 100.0` where it is set.
  abbrev pub percentile_or : F → ℤ → F
  percentile_or default percent =
      if ltb_ℤ (pos 0) percent then f.div (f.of_int percent) (f.decimal 100 0) else default

  unfoldable pub percentiles : Option MetricsConfig → F × F
  percentiles none = (f.decimal 90 2, f.decimal 95 2)
  percentiles (some m) = (
    percentile_or (f.decimal 90 2) m.cpu_percentile,
    percentile_or (f.decimal 95 2) m.memory_percentile,
  )

  -- `int64(math.Ceil(x/float64(step))) * step`.
  unfoldable pub round_up : F → ℤ → ℤ
  round_up x step = mul64 (f.to_int (f.ceil (f.div x (f.of_int step)))) step

  abbrev pub safety_margin : F → F
  safety_margin x = f.mul x (f.decimal 110 2)

  -- The built-in `max`.
  abbrev pub max_float : F → F → F
  max_float x y = if f.lt x y then y else x

  module _ {Q : Type 0} ⦃q : Quantity Q⦄ where
    unfoldable pub round_up_milli : F → ℤ → Q
    unfolding round_up
    round_up_milli milli step = q.new_milli (round_up milli step)

    unfoldable pub round_up_bytes : F → ℤ → Q
    unfolding round_up
    round_up_bytes bytes step = q.new_quantity (round_up bytes step)

    -- `Target` of a container's recommendation, from the readout and the bounds.
    unfoldable pub target_of :
        Recommendation F → ResourcePolicy Q → Option (ContainerOverride Q) → ResourceList Q
    target_of raw policy override =
        let (cpu_bounds, mem_bounds) = bounds_for policy override in
        let floor = f.of_int min_memory_recommendation_bytes in
        let mem = max_float (safety_margin raw.mem_bytes) floor in
        record {
          cpu = some (
              clamp_quantity (round_up_milli (safety_margin raw.cpu_milli) cpu_rounding_milli)
                cpu_bounds);
          memory = some (clamp_quantity (round_up_bytes mem mem_rounding_bytes) mem_bounds);
          others = [];
        }
