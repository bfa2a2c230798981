-- ===== src/Go/Float64.antt =====
-- Go's `float64`. The type and its operations are an interface, since rounding is the machine's:
-- `Float64` has the operations that the program calls, and `IsIeee` names the facts of IEEE 754
-- arithmetic (rounding to the nearest value is monotone, and exact on integers up to 2 ^ 53) that
-- the proofs rely on.
use kubera.Base.{ℕ, ◌*◌, ◌^◌, ◌≤◌, ◌<◌, ◌≡◌, Bool, true, false, ℤ, pos, eqb_ℤ, ◌≤ℤ◌}
pub mod Fixed
pub mod Log

pub record Float64 (F : Type 0) : Type 0 where
  -- `float64(n)`, to the nearest value.
  pub of_int : ℤ → F
  -- `int64(x)`, cut off toward zero.
  pub to_int : F → ℤ
  -- The constant m / 10 ^ places, to the nearest value.
  pub decimal : ℕ → ℕ → F
  pub add : F → F → F
  pub mul : F → F → F
  pub div : F → F → F
  pub neg : F → F
  pub le : F → F → Bool
  pub lt : F → F → Bool
  -- `math.Ceil`, `math.Log`, `math.Exp2` and `math.Pow`.
  pub ceil : F → F
  pub log : F → F
  pub exp2 : F → F
  pub pow : F → F → F

infix 4 ◌≼◌
abbrev pub ◌≼◌ : {F : Type 0} ⦃f : Float64 F⦄ → F → F → Type 0
◌≼◌ ⦃f⦄ x y = f.le x y ≡ true

-- The laws. None of them speaks of NaN but as a premise that fails.
pub record IsIeee (F : Type 0) ⦃f : Float64 F⦄ : Type 0 where
  pub le_trans : (x y z : F) → x ≼ y → y ≼ z → x ≼ z
  pub of_int_mono : (a b : ℕ) → a ≤ b → f.of_int (pos a) ≼ f.of_int (pos b)
  pub decimal_mono : (a p b q : ℕ) → a * 10 ^ q ≤ b * 10 ^ p → f.decimal a p ≼ f.decimal b q
  -- Integers up to 2 ^ 53 are exact.
  pub to_int-of_int : (n : ℕ) → n ≤ 2 ^ 53 → f.to_int (f.of_int (pos n)) ≡ pos n
  -- Within the range of an `int64` the conversion is monotone.
  pub to_int_mono :
      (x y : F)
      → f.of_int (pos 0) ≼ x
      → x ≼ y
      → y ≼ f.of_int (pos (2 ^ 62))
      → f.to_int x ≤ℤ f.to_int y
  -- Multiplication by a positive integer that is exact is monotone, and by 1 exact.
  pub mul_mono :
      (n : ℕ) (x y : F)
      → 0 < n
      → n ≤ 2 ^ 53
      → f.of_int (pos 0) ≼ x
      → x ≼ y
      → f.mul (f.of_int (pos n)) x ≼ f.mul (f.of_int (pos n)) y
  pub mul_one : (n : ℕ) → f.mul (f.of_int (pos n)) (f.decimal 1 0) ≡ f.of_int (pos n)
  -- The quotient of a number by one that is not greater is at least 1.
  pub one_le-div :
      (a b : ℕ)
      → 0 < b
      → b ≤ a
      → a ≤ 2 ^ 63
      → f.decimal 1 0 ≼ f.div (f.of_int (pos a)) (f.of_int (pos b))
  -- The nearest value to n / 100, divided or written.
  pub div-hundred :
      (n : ℕ) → n ≤ 2 ^ 53 → f.div (f.of_int (pos n)) (f.decimal 100 0) ≡ f.decimal n 2
  -- Zero through any other integer is a zero, of either sign.
  pub zero_div :
      (v : ℤ)
      → eqb_ℤ v (pos 0) ≡ false
      → (f.lt (f.div (f.of_int (pos 0)) (f.of_int v)) (f.of_int (pos 0)) ≡ false)
        × (f.div (f.of_int (pos 0)) (f.of_int v) ≼ f.of_int (pos 0))
  pub zero_le-one : f.of_int (pos 0) ≼ f.decimal 1 0
  -- The constant 1.5 is exact, so its product by an exact integer is the nearest value to
  -- n * 3 / 2.
  pub le-mul-three_halves :
      (n k : ℕ)
      → n ≤ 2 ^ 53
      → 2 * k ≤ 3 * n
      → f.of_int (pos k) ≼ f.mul (f.of_int (pos n)) (f.decimal 15 1)
  pub mul-three_halves-le :
      (n k : ℕ)
      → n ≤ 2 ^ 53
      → 3 * n ≤ 2 * k
      → f.mul (f.of_int (pos n)) (f.decimal 15 1) ≼ f.of_int (pos k)
  -- Up to 2 ^ 53 the next integer above is exact, and a round trip through `int64` keeps its value
  -- (of a negative zero, it makes a zero).
  pub le-ceil :
      (x : F)
      → f.of_int (pos 0) ≼ x
      → x ≼ f.of_int (pos (2 ^ 53))
      → (x ≼ f.ceil x) × (f.ceil x ≼ f.of_int (f.to_int (f.ceil x)))
