-- ===== src/Go/Int64.antt =====
-- Go's `int64` and `int32`: exact integers that wrap after each operation.
use kubera.Base.{
  ℕ, ◌+◌, ◌-◌, ◌*◌, ◌%◌, ◌^◌, ◌≤◌, ◌<◌, ◌≡◌, refl, arith, ltb, if◌then◌else◌, ℤ, pos, negsuc, ◌+ℤ◌,
  ◌-ℤ◌, ◌*ℤ◌,
}

-- The number that a word of 2 * h values stands for in two's complement.
abbrev of_word : ℕ → ℕ → ℤ
of_word h w = if ltb w h then pos w else negsuc (h + h - 1 - w)

abbrev wrap : ℕ → ℤ → ℤ
wrap h (pos n) = of_word h (n % (h + h))
wrap h (negsuc n) = of_word h (h + h - 1 - n % (h + h))

abbrev pub max_int64 : ℕ
max_int64 = 2 ^ 63 - 1

abbrev pub wrap64 : ℤ → ℤ
wrap64 = wrap (2 ^ 63)

abbrev pub wrap32 : ℤ → ℤ
wrap32 = wrap (2 ^ 31)

pub wrap64-pos : (n : ℕ) → n < 2 ^ 63 → wrap64 (pos n) ≡ pos n
wrap64-pos n h = ground arith

pub wrap64-negsuc : (n : ℕ) → n < 2 ^ 63 → wrap64 (negsuc n) ≡ negsuc n
wrap64-negsuc n h = ground arith

unfoldable pub add64 : ℤ → ℤ → ℤ
add64 a b = wrap64 (a +ℤ b)

unfoldable pub sub64 : ℤ → ℤ → ℤ
sub64 a b = wrap64 (a -ℤ b)

unfoldable pub mul64 : ℤ → ℤ → ℤ
mul64 a b = wrap64 (a *ℤ b)

unfoldable pub sub32 : ℤ → ℤ → ℤ
sub32 a b = wrap32 (a -ℤ b)

pub add64-pos : (a b : ℕ) → a + b < 2 ^ 63 → add64 (pos a) (pos b) ≡ pos (a + b)
unfolding add64
add64-pos a b h = ground arith

pub sub64-pos : (a b : ℕ) → b ≤ a → a < 2 ^ 63 → sub64 (pos a) (pos b) ≡ pos (a - b)
unfolding sub64
sub64-pos a b h k = ground arith

pub mul64-pos : (a b : ℕ) → a * b < 2 ^ 63 → mul64 (pos a) (pos b) ≡ pos (a * b)
unfolding mul64
mul64-pos a b h = ground arith

overflow : add64 (pos max_int64) (pos 1) ≡ negsuc max_int64
unfolding add64
overflow = refl
