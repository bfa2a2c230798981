-- ===== src/Actuator/Policy.antt =====
-- internal/actuator/plan.go: `Direction`, `Policy` and `DefaultPolicy`.
use kubera.Base.{String, Option, none, some, ltb_ℤ, if◌then◌else◌, ℤ, pos}
use kubera.Go.Float64.{Float64}
use kubera.Api.{ControlledValues, ScalingPolicy, BehaviorSpec, DynamicResourceSpec}

pub data Direction : Type 0 where
  up down : Direction

abbrev pub direction_name : Direction → String
direction_name up = "Up"
direction_name down = "Down"

pub record Policy (F : Type 0) : Type 0 where
  pub controlled_values : ControlledValues
  pub tolerance : F
  pub max_step_up_percent : ℤ
  pub max_step_down_percent : ℤ

-- One of the two assignments under `if b := spec.Behavior`.
abbrev step_percent : ℤ → Option ScalingPolicy → ℤ
step_percent default none = default
step_percent default (some s) =
    if ltb_ℤ (pos 0) s.max_step_percent then s.max_step_percent else default

abbrev pub up_percent : Option BehaviorSpec → ℤ
up_percent none = pos 50
up_percent (some b) = step_percent (pos 50) b.scale_up

abbrev pub down_percent : Option BehaviorSpec → ℤ
down_percent none = pos 20
down_percent (some b) = step_percent (pos 20) b.scale_down

abbrev controlled_or_default : ControlledValues → ControlledValues
controlled_or_default ControlledValues.unset = ControlledValues.requests_and_limits
controlled_or_default v = v

unfoldable pub default_policy :
    {Q S F : Type 0} ⦃f : Float64 F⦄ → DynamicResourceSpec Q S → Policy F
default_policy ⦃f⦄ spec = record {
  controlled_values = controlled_or_default spec.resources.controlled_values;
  tolerance = f.decimal 10 2;
  max_step_up_percent = up_percent spec.behavior;
  max_step_down_percent = down_percent spec.behavior;
}
