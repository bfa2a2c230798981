-- ===== src/Controller/Gauges/Counted.antt =====
-- internal/controller/prommetrics.go: reading a counter back.
use kubera.Base.{
  ℕ, ◌+◌, ◌≡◌, refl, arith, sym, ◌∙◌, Bool, true, false, String, List, [], ◌∷◌, eq_iff, ap,
  Bool-cases, inl, inr,
}
use kubera.Controller.Gauges.{Counter, same_labels, increment, count_of}

pub same_labels_sound : (xs ys : List String) → same_labels xs ys ≡ true → xs ≡ ys
unfolding same_labels
same_labels_sound [] [] h = refl
same_labels_sound [] (y ∷ ys) h = cc
same_labels_sound (x ∷ xs) [] h = cc
same_labels_sound (x ∷ xs) (y ∷ ys) h = ground (arith, eq_iff x y, same_labels_sound xs ys)

pub same_labels_refl : (xs : List String) → same_labels xs xs ≡ true
unfolding same_labels
same_labels_refl [] = refl
same_labels_refl (x ∷ xs) = ground (arith, eq_iff x x, same_labels_refl xs)

abbrev pub one_if : Bool → ℕ
one_if true = 1
one_if false = 0

-- A series that is not incremented can not be the one that is read.
same_labels_apart :
    (l counted read : List String)
    → same_labels l counted ≡ false
    → same_labels l read ≡ true
    → same_labels counted read ≡ false
same_labels_apart l counted read other same = elim (Bool-cases (same_labels counted read)) [
  | inr differs ↦ differs
  | inl equal ↦
      let e = same_labels_sound l read same ∙ sym (same_labels_sound counted read equal) in
      cc (other, same_labels_refl l, ap (same_labels l) e)
]

-- An increment adds one to its own series and leaves the others.
pub count_of-increment :
    (counted read : List String) (c : Counter)
    → count_of read (increment counted c) ≡ count_of read c + one_if (same_labels counted read)
count_of-increment counted read [] = ground arith
count_of-increment counted read ((l, n) ∷ rest) = elim (Bool-cases (same_labels l counted)) [
  | inl same ↦ rw same (rw (same_labels_sound l counted same) (ground arith))
  | inr other ↦ elim (Bool-cases (same_labels l read)) [
    | inl same ↦ rw (other, same, same_labels_apart l counted read other same) (omega arith)
    | inr differs ↦ rw (other, differs) (count_of-increment counted read rest)
  ]
]
