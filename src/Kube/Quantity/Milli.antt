-- ===== src/Kube/Quantity/Milli.antt =====
-- A value of the quantity interface: signed thousandths.
use Prim.Native.Nat.{Ordering, compare}
use kubera.Base.{
  ℕ, suc, ◌+◌, ◌/◌, ◌^◌, ◌<◌, leb, if◌then◌else◌, ◌≡◌, refl, arith, ℤ, pos, negsuc, sub_ℕ, pos_part,
  neg_part, ◌*ℤ◌, eqb_ℤ,
}
use kubera.Go.Int64.{max_int64}
use kubera.Kube.Quantity.{Quantity, IsQuantity}

abbrev pub Milli : Type 0
Milli = ℤ

-- A number above those of an `int64` becomes the greatest one.
abbrev saturated : ℤ → ℤ
saturated (pos n) = pos (if leb n max_int64 then n else max_int64)
saturated (negsuc n) = negsuc n

saturated_small : (n : ℕ) → n < 2 ^ 63 → saturated (pos n) ≡ pos n
saturated_small n h = ground arith

saturated_bounded : (a : ℤ) (n : ℕ) → saturated a ≡ pos n → n < 2 ^ 63
saturated_bounded (pos m) n h = ground arith
saturated_bounded (negsuc m) n h = cc

-- Rounded away from zero.
abbrev units : ℤ → ℤ
units (pos n) = pos ((n + 999) / 1000)
units (negsuc n) = sub_ℕ 0 ((suc n + 999) / 1000)

abbrev cmp_milli : ℤ → ℤ → Ordering
cmp_milli a b = compare (pos_part a + neg_part b) (pos_part b + neg_part a)

instance abbrev pub milli_quantity : Quantity Milli
milli_quantity = record {
  value = λ q. saturated (units q);
  milli_value = saturated;
  cmp = cmp_milli;
  is_zero = λ q. eqb_ℤ q (pos 0);
  new_quantity = λ n. n *ℤ pos 1000;
  new_milli = λ n. n;
  zero_quantity = pos 0;
}

units_scaled : (n : ℕ) → n < 2 ^ 63 → saturated (units (pos n *ℤ pos 1000)) ≡ pos n
units_scaled n h = ground arith

cmp_milli_refl : (a : ℤ) → cmp_milli a a ≡ Ordering.eq
cmp_milli_refl a = ground arith

cmp_milli_lt : (a b : ℤ) → cmp_milli a b ≡ Ordering.lt → cmp_milli b a ≡ Ordering.gt
cmp_milli_lt a b h = ground arith

cmp_milli_gt : (a b : ℤ) → cmp_milli a b ≡ Ordering.gt → cmp_milli b a ≡ Ordering.lt
cmp_milli_gt a b h = ground arith

-- Thousandths meet the laws.
pub milli-IsQuantity : IsQuantity Milli
milli-IsQuantity = record {
  value-new_quantity = units_scaled;
  milli_value-new_milli = saturated_small;
  value_bounded = λ a. saturated_bounded (units a);
  milli_value_bounded = saturated_bounded;
  cmp_refl = cmp_milli_refl;
  cmp_lt = cmp_milli_lt;
  cmp_gt = cmp_milli_gt;
  zero-is_zero = refl;
}
