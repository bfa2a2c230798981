-- ===== src/Go/Float64/Fixed/Rough.antt =====
-- Fixed-point numbers meet the facts of `math.Log` and of quotients.
use kubera.Base.{
  ℕ, ◌+◌, ◌*◌, ◌/◌, ◌^◌, ◌≤◌, ◌<◌, ◌≡◌, refl, arith, true, ℤ, pos, negsuc, quot, leb_ℤ, ◌*ℤ◌,
  Bool-cases, inl, inr,
}
use native.Mathlib.Nat.{div-le_of_le-mul, mul-le-mul_right}
use kubera.Go.Float64.Log.{IsLog}
use kubera.Go.Float64.Fixed.{
  Fixed, fixed_float64, div_fixed, ceil_fixed, log_fixed, scale, mul_pos, leb_pos,
}

whole_fixed : (n : ℕ) → pos (n * 1000 / 10 ^ 0) ≡ pos n *ℤ pos 1000
whole_fixed n = ground arith

negative-le_fixed : (n b : ℕ) → leb_ℤ (negsuc n *ℤ pos 1000) (pos b *ℤ pos 1000) ≡ true
negative-le_fixed n b = ground arith

grown : (a b : ℕ) → 0 < b → a * 1000 * 1000 ≤ b * 1000 * (a * 1000)
grown a b h =
    let wide : 1 * (a * 1000) ≤ b * (a * 1000) = mul-le-mul_right (a * 1000) h in omega arith

div-le_fixed :
    (a b : ℕ)
    → 0 < b
    → leb_ℤ (div_fixed (pos a *ℤ pos 1000) (pos b *ℤ pos 1000)) (pos a *ℤ pos 1000) ≡ true
div-le_fixed a b h =
    rw (scale a, scale b, mul_pos (a * 1000) 1000)
      (leb_pos _ _ (div-le_of_le-mul (b * 1000) (grown a b h)))

log_range_fixed :
    (x : ℤ)
    → leb_ℤ (pos 1000) x ≡ true
    → (leb_ℤ (pos 0) (log_fixed x) ≡ true) × (leb_ℤ (log_fixed x) (pos 44_000) ≡ true)
log_range_fixed x h = elim (Bool-cases (leb_ℤ x (pos 45_000))) [
  | inl small ↦ rw small (ground arith, ground arith)
  | inr large ↦ rw large (refl, refl)
]

-- A divisor of 32 thousandths or more.
covered : (x y n : ℕ) → x ≤ n * 1000 → 32 ≤ y → x * 1000 ≤ y * (32 * n * 1000)
covered x y n h k =
    let wide : 32 * (32 * n * 1000) ≤ y * (32 * n * 1000) = mul-le-mul_right (32 * n * 1000) k in
    omega arith

below : (x n : ℕ) → leb_ℤ (pos x) (pos n *ℤ pos 1000) ≡ true → x ≤ n * 1000
below x n h = ground arith

thick : (y : ℕ) → leb_ℤ (pos 1000) (quot (pos 32 *ℤ pos 1000 *ℤ pos y) 1000) ≡ true → 32 ≤ y
thick y h = ground arith

whole_above : (x n : ℕ) → x ≤ n * 1000 → (x + 999) / 1000 * 1000 ≤ n * 1000
whole_above x n h = omega arith

div_range_fixed :
    (x y : ℤ) (n : ℕ)
    → leb_ℤ (pos 0) x ≡ true
    → leb_ℤ x (pos n *ℤ pos 1000) ≡ true
    → leb_ℤ (pos 1000) (quot (pos 32 *ℤ pos 1000 *ℤ y) 1000) ≡ true
    → (leb_ℤ (pos 0) (div_fixed x y) ≡ true)
      × (leb_ℤ (div_fixed x y) (pos (32 * n) *ℤ pos 1000) ≡ true)
div_range_fixed (negsuc x) y n h k l = ground arith
div_range_fixed (pos x) (negsuc y) n h k l = ground arith
div_range_fixed (pos x) (pos y) n h k l =
    rw (mul_pos x 1000, scale (32 * n))
      (
        leb_pos 0 _ (omega arith),
        leb_pos _ _ (div-le_of_le-mul y (covered x y n (below x n k) (thick y l))),
      )

ceil-le_fixed :
    (x : ℤ) (n : ℕ)
    → leb_ℤ (pos 0) x ≡ true
    → leb_ℤ x (pos n *ℤ pos 1000) ≡ true
    → leb_ℤ (ceil_fixed x) (pos n *ℤ pos 1000) ≡ true
ceil-le_fixed (negsuc x) n h k = ground arith
ceil-le_fixed (pos x) n h k = rw (scale n) (leb_pos _ _ (whole_above x n (below x n k)))

pub fixed-IsLog : IsLog Fixed
fixed-IsLog = record {
  decimal-whole = λ n h. whole_fixed n;
  negative-le = negative-le_fixed;
  div-le = λ a b h k fits. div-le_fixed a b h;
  log_range = λ x h k. log_range_fixed x h;
  log_ratio = refl;
  div_range = λ x y n a b c d. div_range_fixed x y n b c d;
  ceil-le = λ x n a b c. ceil-le_fixed x n b c;
}
