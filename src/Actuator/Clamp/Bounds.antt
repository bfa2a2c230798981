-- ===== src/Actuator/Clamp/Bounds.antt =====
-- How far one resize moves a value, and where repeated resizes lead.
use native.Mathlib.Nat.{mul-le-mul_right}
use kubera.Base.{ℕ, zero, suc, ◌+◌, ◌-◌, ◌*◌, ◌/◌, ◌≤◌, ◌<◌, ◌≡◌, arith, ℤ, pos}
use kubera.Actuator.Policy.{Policy}
use kubera.Actuator.Clamp.{step_clamp, clamp_step, step_clamp-pos, percent-le, FitsStep}

clamp_step_bounds :
    (c d up down : ℕ)
    → down ≤ 100
    → let r = clamp_step c d up down in
      (c - c * down / 100 ≤ r)
      × (r ≤ c + c * up / 100)
      × (c ≤ d → (c ≤ r) × (r ≤ d))
      × (d ≤ c → (d ≤ r) × (r ≤ c))
unfolding clamp_step
clamp_step_bounds c d up down h = ground (arith, percent-le c down h)

module _ {F : Type 0} {policy : Policy F} {up down : ℕ} where
  -- One resize moves a value towards the wanted one and not past it, by at most the percentage of
  -- its direction. The products have to fit an `int64`.
  pub step_clamp_bounds :
      {c : ℕ} (d : ℕ)
      → FitsStep policy c up down
      → (r : ℕ) × (step_clamp (pos c) (pos d) policy ≡ pos r)
        × (c - c * down / 100 ≤ r)
        × (r ≤ c + c * up / 100)
        × (c ≤ d → (c ≤ r) × (r ≤ d))
        × (d ≤ c → (d ≤ r) × (r ≤ c))
  step_clamp_bounds {c} d h =
      let b = clamp_step_bounds c d up down h.down_le in
      (clamp_step c d up down, step_clamp-pos d h, b.0, b.1, b.2, b.3)

  -- A value whose percentage rounds down to nothing never grows, however much more is wanted.
  pub step_clamp_stalls :
      {c : ℕ} (d : ℕ)
      → FitsStep policy c up down
      → c * up < 100
      → c ≤ d
      → step_clamp (pos c) (pos d) policy ≡ pos c
  unfolding clamp_step
  step_clamp_stalls {c} d h small le = rw (step_clamp-pos d h) (ground arith)

  fits_below : {c d : ℕ} → c ≤ d → FitsStep policy d up down → FitsStep policy c up down
  fits_below le h =
      let more = mul-le-mul_right up le in
      let less = mul-le-mul_right down le in
      record {
        up_eq = h.up_eq;
        down_eq = h.down_eq;
        down_le = h.down_le;
        up_fits = omega arith;
        down_fits = omega arith;
      }

-- The value after a number of resizes towards the same target.
pub resizes : {F : Type 0} → ℕ → ℤ → ℤ → Policy F → ℤ
resizes zero current desired policy = current
resizes (suc n) current desired policy =
    resizes n (step_clamp current desired policy) desired policy

clamp_step_grows : (c d up down : ℕ) → 100 ≤ c * up → c < d → c < clamp_step c d up down
unfolding clamp_step
clamp_step_grows c d up down h lt = ground arith

-- A value of which the upward percentage is at least 1 reaches a larger target, after at most as
-- many resizes as the two are apart.
pub resizes-reach :
    {F : Type 0} {policy : Policy F} {up down : ℕ} (n c d : ℕ)
    → FitsStep policy d up down
    → 100 ≤ c * up
    → c ≤ d
    → d ≤ c + n
    → resizes n (pos c) (pos d) policy ≡ pos d
unfolding resizes
resizes-reach zero c d h big le near = ground arith
resizes-reach {up} {down} (suc n) c d h big le near =
    let r = clamp_step c d up down in
    let between = (clamp_step_bounds c d up down h.down_le).2 le in
    let grows = clamp_step_grows c d up down big in
    let more : c * up ≤ r * up = mul-le-mul_right up between.0 in
    let nearer : d ≤ r + n = ground (arith, grows, between) in
    rw (step_clamp-pos d (fits_below le h)) (resizes-reach n r d h (omega arith) between.1 nearer)
