-- ===== src/Go/Time.antt =====
-- Package time: an instant is its nanoseconds since Go's zero time, and a duration is an `int64` of
-- nanoseconds.
use Prim.Native.Nat.{min}
use kubera.Base.{
  ℕ, suc, ◌-◌, ◌*◌, ◌%◌, ◌≤◌, ◌≡◌, arith, Bool, true, leb, ltb, ◌==◌, if◌then◌else◌, ℤ, pos, negsuc,
  sub_ℕ, quot, leb_ℤ,
}
use kubera.Go.Int64.{max_int64}
use kubera.Go.Float64.{Float64}

abbrev pub Time : Type 0
Time = ℕ

abbrev pub Duration : Type 0
Duration = ℤ

abbrev pub second : ℕ
second = 1_000_000_000

abbrev pub minute : ℕ
minute = 60 * second

abbrev pub hour : ℕ
hour = 60 * minute

-- `t.Sub(u)`, which saturates at the ends of an `int64`.
unfoldable pub since : Time → Time → Duration
since t u = if leb u t then pos (min (t - u) max_int64) else negsuc (min (u - t - 1) max_int64)

-- `t.IsZero()` and `t.After(u)`.
abbrev pub is_zero_time : Time → Bool
is_zero_time t = t == 0

abbrev pub after : Time → Time → Bool
after t u = ltb u t

-- The remainder that goes with the quotient cut off toward zero.
abbrev remainder : ℤ → ℕ → ℤ
remainder (pos n) d = pos (n % d)
remainder (negsuc n) d = sub_ℕ 0 (suc n % d)

module _ {F : Type 0} ⦃f : Float64 F⦄ where
  -- `d.Seconds()`: the whole seconds and the fraction are converted each by itself.
  unfoldable pub seconds : Duration → F
  seconds d =
      f.add (f.of_int (quot d second)) (f.div (f.of_int (remainder d second)) (f.decimal second 0))

-- An interval that is at least `d` stays so.
pub since_mono :
    (now later start : Time) (d : Duration)
    → now ≤ later
    → leb_ℤ d (since now start) ≡ true
    → leb_ℤ d (since later start) ≡ true
unfolding since
since_mono now later start d le h = ground arith
