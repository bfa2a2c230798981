-- ===== src/Go/Float64/Log.antt =====
-- Facts of `math.Log` and of the range of a quotient, next to those of `IsIeee`.
use kubera.Base.{ℕ, ◌*◌, ◌^◌, ◌≤◌, ◌<◌, ◌≡◌, pos, negsuc}
use kubera.Go.Float64.{Float64, ◌≼◌}

pub record IsLog (F : Type 0) ⦃f : Float64 F⦄ : Type 0 where
  -- A constant without a fraction is the integer.
  pub decimal-whole : (n : ℕ) → n ≤ 2 ^ 53 → f.decimal n 0 ≡ f.of_int (pos n)
  pub negative-le : (n b : ℕ) → f.of_int (negsuc n) ≼ f.of_int (pos b)
  pub div-le :
      (a b : ℕ)
      → 0 < b
      → a ≤ 2 ^ 63
      → b ≤ 2 ^ 63
      → f.div (f.of_int (pos a)) (f.of_int (pos b)) ≼ f.of_int (pos a)
  -- The logarithm of 2 ^ 63 is below 44, and that of 1.05 is above 1 / 32.
  pub log_range :
      (x : F)
      → f.of_int (pos 1) ≼ x
      → x ≼ f.of_int (pos (2 ^ 63))
      → (f.of_int (pos 0) ≼ f.log x) × (f.log x ≼ f.of_int (pos 44))
  pub log_ratio : f.of_int (pos 1) ≼ f.mul (f.of_int (pos 32)) (f.log (f.decimal 105 2))
  -- Multiplication by 32 is exact, and rounding is monotone.
  pub div_range :
      (x y : F) (n : ℕ)
      → n ≤ 2 ^ 53
      → f.of_int (pos 0) ≼ x
      → x ≼ f.of_int (pos n)
      → f.of_int (pos 1) ≼ f.mul (f.of_int (pos 32)) y
      → (f.of_int (pos 0) ≼ f.div x y) × (f.div x y ≼ f.of_int (pos (32 * n)))
  pub ceil-le :
      (x : F) (n : ℕ)
      → n ≤ 2 ^ 53
      → f.of_int (pos 0) ≼ x
      → x ≼ f.of_int (pos n)
      → f.ceil x ≼ f.of_int (pos n)
