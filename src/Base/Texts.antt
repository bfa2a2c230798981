-- ===== src/Base/Texts.antt =====
-- The order of native strings.
use Prim.Native.Nat.{ℕ, Ordering, compare as compare_ℕ}
use Prim.Native.Char.{code}
use Prim.Native.String.compare
use Prim.Native.String.{String, [], ◌∷◌, compare, then}
use mathlib.Core.Path.{◌≡◌, refl, sym, ap, ◌∙◌}
use mathlib.Core.Bool.{Bool, true, false, not}
use native.Mathlib.Omega.{arith}
use text.Mathlib.Text.{is_lt, is_eq, ◌==◌ as str_eq}

abbrev flip : Ordering → Ordering
flip Ordering.lt = Ordering.gt
flip Ordering.eq = Ordering.eq
flip Ordering.gt = Ordering.lt

compare_ℕ-flip : (m n : ℕ) → compare_ℕ m n ≡ flip (compare_ℕ n m)
compare_ℕ-flip m n = ground arith

then-flip : (o p : Ordering) → then (flip o) (flip p) ≡ flip (then o p)
then-flip Ordering.lt p = refl
then-flip Ordering.eq p = refl
then-flip Ordering.gt p = refl

compare-flip : (s t : String) → compare s t ≡ flip (compare t s)
compare-flip [] [] = compare.nil-nil ∙ sym (ap flip compare.nil-nil)
compare-flip [] (d ∷ t) = compare.nil-cons d t ∙ sym (ap flip (compare.cons-nil d t))
compare-flip (c ∷ s) [] = compare.cons-nil c s ∙ sym (ap flip (compare.nil-cons c s))
compare-flip (c ∷ s) (d ∷ t) =
    compare.cons-cons c d s t
    ∙ rw (compare_ℕ-flip (code c) (code d), compare-flip s t)
        (then-flip (compare_ℕ (code d) (code c)) (compare t s))
    ∙ sym (ap flip (compare.cons-cons d c t s))

-- `s < t`.
abbrev pub str_lt : String → String → Bool
str_lt s t = is_lt (compare s t)

lt_flip : (o : Ordering) → is_eq o ≡ false → is_lt (flip o) ≡ not (is_lt o)
lt_flip o h = ground arith

-- Of two different strings exactly one is before the other.
pub str_lt_total : (s t : String) → str_eq s t ≡ false → str_lt t s ≡ not (str_lt s t)
str_lt_total s t h = rw (compare-flip t s) (lt_flip (compare s t) h)

gt_of_lt : (o : Ordering) → is_lt o ≡ true → is_lt (flip o) ≡ false
gt_of_lt o h = ground arith

pub str_lt_asym : (s t : String) → str_lt s t ≡ true → str_lt t s ≡ false
str_lt_asym s t h = rw (compare-flip t s) (gt_of_lt (compare s t) h)
