-- ===== src/Go/Float64/Fixed.antt =====
-- A value of the interface that computes and meets the laws: fixed-point numbers in thousandths.
-- `log`, `exp2` and `pow` are rough.
pub mod Rough
use kubera.Base.{
  ℕ, zero, suc, true, false, if◌then◌else◌, leb_ℤ, ◌≤ℤ◌, ◌+◌, ◌*◌, ◌/◌, ◌^◌, ◌≤◌, ◌<◌, ◌≡◌, refl,
  arith, ℤ, pos, negsuc, sub_ℕ, pos_part, quot, ◌+ℤ◌, ◌-ℤ◌, ◌*ℤ◌, ltb_ℤ, eqb_ℤ,
}
use native.Mathlib.Nat.{
  div-mul-le_self, le-div_iff_mul-le, le_of_mul-le-mul_right, mul-le-mul_left, mul-le-mul_right,
  one-le-pow,
}
use kubera.Go.Float64.{Float64, IsIeee}

abbrev pub Fixed : Type 0
Fixed = ℤ

abbrev div_fixed : ℤ → ℤ → ℤ
div_fixed a (pos b) = quot (a *ℤ pos 1000) b
div_fixed a (negsuc b) = pos 0

abbrev ceil_fixed : ℤ → ℤ
ceil_fixed (pos n) = pos ((n + 999) / 1000 * 1000)
ceil_fixed (negsuc n) = sub_ℕ 0 (suc n / 1000 * 1000)

abbrev pow_fixed : ℤ → ℕ → ℤ
pow_fixed b zero = pos 1000
pow_fixed b (suc n) = quot (pow_fixed b n *ℤ b) 1000

abbrev log_fixed : ℤ → ℤ
log_fixed x = if leb_ℤ x (pos 45_000) then x -ℤ pos 1000 else pos 44_000

instance abbrev pub fixed_float64 : Float64 Fixed
fixed_float64 = record {
  of_int = λ n. n *ℤ pos 1000;
  to_int = λ x. quot x 1000;
  decimal = λ m places. pos (m * 1000 / 10 ^ places);
  add = ◌+ℤ◌;
  mul = λ x y. quot (x *ℤ y) 1000;
  div = div_fixed;
  neg = λ x. pos 0 -ℤ x;
  le = leb_ℤ;
  lt = ltb_ℤ;
  ceil = ceil_fixed;
  log = log_fixed;
  exp2 = λ x. pos (1000 * 2 ^ (pos_part x / 1000));
  pow = λ x y. pow_fixed x (pos_part y / 1000);
}

le_trans_fixed : (x y z : ℤ) → leb_ℤ x y ≡ true → leb_ℤ y z ≡ true → leb_ℤ x z ≡ true
le_trans_fixed x y z p q = ground arith

scale : (n : ℕ) → pos n *ℤ pos 1000 ≡ pos (n * 1000)
scale n = ground arith

of_int_mono_fixed : (a b : ℕ) → a ≤ b → leb_ℤ (pos a *ℤ pos 1000) (pos b *ℤ pos 1000) ≡ true
of_int_mono_fixed a b h = ground arith

round_trip : (n : ℕ) → quot (pos n *ℤ pos 1000) 1000 ≡ pos n
round_trip n = rw (scale n) (ground arith)

to_int_mono_fixed :
    (x y : ℤ) → leb_ℤ (pos 0) x ≡ true → leb_ℤ x y ≡ true → quot x 1000 ≤ℤ quot y 1000
to_int_mono_fixed (pos x) (pos y) p q = ground arith
to_int_mono_fixed (pos x) (negsuc y) p q = ground arith
to_int_mono_fixed (negsuc x) y p q = ground arith

mul_pos : (a b : ℕ) → pos a *ℤ pos b ≡ pos (a * b)
mul_pos a b = ground arith

leb_pos : (a b : ℕ) → a ≤ b → leb_ℤ (pos a) (pos b) ≡ true
leb_pos a b h = ground arith

pos_le : (a b : ℕ) → leb_ℤ (pos a) (pos b) ≡ true → a ≤ b
pos_le a b h = ground arith

mul_mono_fixed :
    (n : ℕ) (x y : ℤ)
    → leb_ℤ (pos 0) x ≡ true
    → leb_ℤ x y ≡ true
    → leb_ℤ (quot (pos n *ℤ pos 1000 *ℤ x) 1000) (quot (pos n *ℤ pos 1000 *ℤ y) 1000) ≡ true
mul_mono_fixed n (pos x) (pos y) p q =
    rw (scale n, mul_pos (n * 1000) x, mul_pos (n * 1000) y)
      (let scaled : n * 1000 * x ≤ n * 1000 * y = mul-le-mul_left (n * 1000) (pos_le x y q) in
        leb_pos _ _ (omega arith))
mul_mono_fixed n (pos x) (negsuc y) p q = ground arith
mul_mono_fixed n (negsuc x) y p q = ground arith

mul_one_fixed : (n : ℕ) → quot (pos n *ℤ pos 1000 *ℤ pos 1000) 1000 ≡ pos n *ℤ pos 1000
mul_one_fixed n = rw (scale n, mul_pos (n * 1000) 1000) (ground arith)

one_le-div_fixed :
    (a b : ℕ)
    → 0 < b
    → b ≤ a
    → leb_ℤ (pos 1000) (div_fixed (pos a *ℤ pos 1000) (pos b *ℤ pos 1000)) ≡ true
one_le-div_fixed a b h k =
    rw (scale a, scale b, mul_pos (a * 1000) 1000)
      (leb_pos 1000 (a * 1000 * 1000 / (b * 1000))
        ((le-div_iff_mul-le {k = b * 1000} {y = a * 1000 * 1000} (omega arith)).1 (omega arith)))

le-ceil_fixed :
    (x : ℤ)
    → leb_ℤ (pos 0) x ≡ true
    → (leb_ℤ x (ceil_fixed x) ≡ true)
      × (leb_ℤ (ceil_fixed x) (quot (ceil_fixed x) 1000 *ℤ pos 1000) ≡ true)
le-ceil_fixed (pos n) h = (ground arith, ground arith)
le-ceil_fixed (negsuc n) h = ground arith

decimal_mono_fixed :
    (a p b q : ℕ)
    → a * 10 ^ q ≤ b * 10 ^ p
    → leb_ℤ (pos (a * 1000 / 10 ^ p)) (pos (b * 1000 / 10 ^ q)) ≡ true
decimal_mono_fixed a p b q h =
    let low : a * 1000 / 10 ^ p * 10 ^ p ≤ a * 1000 = div-mul-le_self (a * 1000) (10 ^ p) in
    let whole : a * 1000 / 10 ^ p * 10 ^ p * 10 ^ q ≤ a * 1000 * 10 ^ q =
      mul-le-mul_right (10 ^ q) low in
    let below : a * 1000 / 10 ^ p * 10 ^ q * 10 ^ p ≤ b * 1000 * 10 ^ p = omega arith in
    leb_pos _ _ (
      (le-div_iff_mul-le (one-le-pow q 10 (omega arith))).1
        (le_of_mul-le-mul_right below (one-le-pow p 10 (omega arith))))

le-mul-three_halves_fixed :
    (n k : ℕ)
    → 2 * k ≤ 3 * n
    → leb_ℤ (pos k *ℤ pos 1000) (quot (pos n *ℤ pos 1000 *ℤ pos 1500) 1000) ≡ true
le-mul-three_halves_fixed n k h =
    rw (scale k, scale n, mul_pos (n * 1000) 1500) (leb_pos _ _ (omega arith))

mul-three_halves-le_fixed :
    (n k : ℕ)
    → 3 * n ≤ 2 * k
    → leb_ℤ (quot (pos n *ℤ pos 1000 *ℤ pos 1500) 1000) (pos k *ℤ pos 1000) ≡ true
mul-three_halves-le_fixed n k h =
    rw (scale k, scale n, mul_pos (n * 1000) 1500) (leb_pos _ _ (omega arith))

div-hundred_fixed : (n : ℕ) → div_fixed (pos n *ℤ pos 1000) (pos 100_000) ≡ pos (n * 1000 / 10 ^ 2)
div-hundred_fixed n = rw (scale n, mul_pos (n * 1000) 1000) (ground arith)

zero_div_fixed :
    (v : ℤ)
    → eqb_ℤ v (pos 0) ≡ false
    → (ltb_ℤ (div_fixed (pos 0) (v *ℤ pos 1000)) (pos 0) ≡ false)
      × (leb_ℤ (div_fixed (pos 0) (v *ℤ pos 1000)) (pos 0) ≡ true)
zero_div_fixed (pos v) h = (ground arith, ground arith)
zero_div_fixed (negsuc v) h = (ground arith, ground arith)

-- The fixed-point numbers meet every law.
pub fixed-IsIeee : IsIeee Fixed
fixed-IsIeee = record {
  le_trans = le_trans_fixed;
  of_int_mono = of_int_mono_fixed;
  decimal_mono = decimal_mono_fixed;
  to_int-of_int = λ n h. round_trip n;
  to_int_mono = λ x y a b c. to_int_mono_fixed x y a b;
  mul_mono = λ n x y a e b c. mul_mono_fixed n x y b c;
  mul_one = mul_one_fixed;
  one_le-div = λ a b h k fits. one_le-div_fixed a b h k;
  div-hundred = λ n h. div-hundred_fixed n;
  zero_div = zero_div_fixed;
  zero_le-one = refl;
  le-mul-three_halves = λ n k e h. le-mul-three_halves_fixed n k h;
  mul-three_halves-le = λ n k e h. mul-three_halves-le_fixed n k h;
  le-ceil = λ x a b. le-ceil_fixed x a;
}
