-- ===== src/Actuator/Clamp.antt =====
-- internal/actuator/plan.go: `withinTolerance` and `stepClamp`, and the clamp on plain numbers.
pub mod Bounds
use kubera.Base.{
  ℕ, ◌+◌, ◌-◌, ◌*◌, ◌/◌, ◌^◌, ◌≤◌, ◌<◌, ◌≡◌, arith, ltb, Bool, if◌then◌else◌, ℤ, pos, quot, ltb_ℤ,
  eqb_ℤ,
}
use native.Mathlib.Nat.{mul-le-mul_left}
use kubera.Go.Int64.{add64, sub64, mul64, add64-pos, sub64-pos, mul64-pos}
use kubera.Go.Float64.{Float64}
use kubera.Actuator.Policy.{Policy}

module _ {F : Type 0} ⦃f : Float64 F⦄ where
  abbrev abs_float : F → F
  abs_float x = if f.lt x (f.of_int (pos 0)) then f.neg x else x

  unfoldable pub within_tolerance : ℤ → ℤ → F → Bool
  within_tolerance current desired tolerance =
      if eqb_ℤ current (pos 0)
      then eqb_ℤ desired (pos 0)
      else f.le (abs_float (f.div (f.of_int (sub64 desired current)) (f.of_int current))) tolerance

-- `current*int64(percent)/100`.
abbrev pub step : ℤ → ℤ → ℤ
step current percent = quot (mul64 current percent) 100

unfoldable pub step_clamp : {F : Type 0} → ℤ → ℤ → Policy F → ℤ
step_clamp current desired policy =
    let max_up = add64 current (step current policy.max_step_up_percent) in
    let min_down = sub64 current (step current policy.max_step_down_percent) in
    if ltb_ℤ current desired
    then (if ltb_ℤ max_up desired then max_up else desired)
    else (if ltb_ℤ desired min_down then min_down else desired)

-- The clamp on numbers, where nothing wraps.
unfoldable pub clamp_step : ℕ → ℕ → ℕ → ℕ → ℕ
clamp_step c d up down =
    if ltb c d
    then (if ltb (c + c * up / 100) d then c + c * up / 100 else d)
    else (if ltb d (c - c * down / 100) then c - c * down / 100 else d)

pub percent-le : (c p : ℕ) → p ≤ 100 → c * p / 100 ≤ c
percent-le c p h = omega (arith, mul-le-mul_left c h)

-- The values for which the two clamps agree: a percentage that is not negative, and products that
-- fit an `int64`.
pub record FitsStep {F : Type 0} (policy : Policy F) (c up down : ℕ) : Type 0 where
  pub up_eq : policy.max_step_up_percent ≡ pos up
  pub down_eq : policy.max_step_down_percent ≡ pos down
  pub down_le : down ≤ 100
  pub up_fits : c + c * up < 2 ^ 63
  pub down_fits : c * down < 2 ^ 63

pub step_clamp-pos :
    {F : Type 0} {policy : Policy F} {c up down : ℕ} (d : ℕ)
    → FitsStep policy c up down
    → step_clamp (pos c) (pos d) policy ≡ pos (clamp_step c d up down)
unfolding step_clamp clamp_step
step_clamp-pos {c} {up} {down} d h =
    rw
      (
        h.up_eq,
        h.down_eq,
        mul64-pos c up (omega arith),
        mul64-pos c down h.down_fits,
        add64-pos c (c * up / 100) (omega arith),
        sub64-pos c (c * down / 100) (percent-le c down h.down_le) (omega arith),
      )
      (ground arith)
