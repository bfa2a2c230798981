-- ===== src/Kube/Quantity.antt =====
-- `resource.Quantity` of k8s.io/apimachinery, which is not code of the repository: the operations
-- that the program calls, and the documented facts about them that proofs use. A quantity's format
-- (decimal or binary suffixes) matters only to how it is printed and is left out.
use kubera.Base.{ℕ, ◌^◌, ◌<◌, ◌≤◌, ◌≡◌, Bool, true, ℤ, pos}
use Prim.Native.Nat.{Ordering}
pub mod Milli

pub record Quantity (Q : Type 0) : Type 0 where
  -- `q.Value()` and `q.MilliValue()`, rounded up.
  pub value : Q → ℤ
  pub milli_value : Q → ℤ
  pub cmp : Q → Q → Ordering
  pub is_zero : Q → Bool
  -- `NewQuantity` and `NewMilliQuantity`.
  pub new_quantity : ℤ → Q
  pub new_milli : ℤ → Q
  -- `resource.Quantity{}`, what a map gives for a missing key.
  pub zero_quantity : Q

pub record IsQuantity (Q : Type 0) ⦃q : Quantity Q⦄ : Type 0 where
  pub value-new_quantity : (n : ℕ) → n < 2 ^ 63 → q.value (q.new_quantity (pos n)) ≡ pos n
  pub milli_value-new_milli : (n : ℕ) → n < 2 ^ 63 → q.milli_value (q.new_milli (pos n)) ≡ pos n
  -- Both values are `int64`s.
  pub value_bounded : (a : Q) (n : ℕ) → q.value a ≡ pos n → n < 2 ^ 63
  pub milli_value_bounded : (a : Q) (n : ℕ) → q.milli_value a ≡ pos n → n < 2 ^ 63
  -- The comparison is a total order.
  pub cmp_refl : (a : Q) → q.cmp a a ≡ Ordering.eq
  pub cmp_lt : (a b : Q) → q.cmp a b ≡ Ordering.lt → q.cmp b a ≡ Ordering.gt
  pub cmp_gt : (a b : Q) → q.cmp a b ≡ Ordering.gt → q.cmp b a ≡ Ordering.lt
  pub zero-is_zero : q.is_zero q.zero_quantity ≡ true
