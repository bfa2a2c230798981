-- ===== src/Base/Sorting.antt =====
-- `slices.Sort` and `slices.SortFunc` on items that are compared by a text, by insertion.
use Prim.Native.String.{String}
use mathlib.Core.Path.{◌≡◌}
use mathlib.Core.Logic.{inl, inr}
use mathlib.Core.Bool.{false}
use mathlib.Core.List.{List, [], ◌∷◌, Perm}
use mathlib.Core.List.Perm
use kubera.Base.Tests.{if◌then◌else◌, Bool-cases}
use kubera.Base.Texts.{str_lt, str_lt_asym}
use kubera.Base.Lists.{All}

module _ {A : Type 0} (key : A → String) where
  pub insert_by : A → List A → List A
  insert_by a [] = a ∷ []
  insert_by a (x ∷ xs) =
      let rest = insert_by a xs in if str_lt (key x) (key a) then x ∷ rest else a ∷ x ∷ xs

  unfoldable pub sort_by : List A → List A
  unfolding insert_by
  sort_by [] = []
  sort_by (x ∷ xs) = insert_by x (sort_by xs)

  -- No item is before the one on its left.
  abbrev pub IsAscending : List A → Type 0
  IsAscending [] = Unit
  IsAscending (x ∷ []) = Unit
  IsAscending (x ∷ y ∷ rest) = (str_lt (key y) (key x) ≡ false) × IsAscending (y ∷ rest)

  insert_by-IsAscending : (a : A) (xs : List A) → IsAscending xs → IsAscending (insert_by a xs)
  unfolding insert_by
  insert_by-IsAscending a [] h = tt
  insert_by-IsAscending a (x ∷ []) h = elim (Bool-cases (str_lt (key x) (key a))) [
    | inl before ↦ rw before (str_lt_asym (key x) (key a) before, tt)
    | inr after ↦ rw after (after, tt)
  ]
  insert_by-IsAscending a (x ∷ y ∷ rest) h =
      let later = insert_by-IsAscending a (y ∷ rest) h.1 in
      elim (Bool-cases (str_lt (key x) (key a))) [
        | inr after ↦ rw after (after, h)
        | inl before ↦ elim (Bool-cases (str_lt (key y) (key a))) [
          | inl more ↦ rw (before, more) (h.0, rw more at later)
          | inr less ↦ rw (before, less) (str_lt_asym (key x) (key a) before, (less, h.1))
        ]
      ]

  pub sort_by-IsAscending : (xs : List A) → IsAscending (sort_by xs)
  unfolding sort_by
  sort_by-IsAscending [] = tt
  sort_by-IsAscending (x ∷ xs) = insert_by-IsAscending x (sort_by xs) (sort_by-IsAscending xs)

  insert_by-perm : (a : A) (xs : List A) → Perm (insert_by a xs) (a ∷ xs)
  unfolding insert_by
  insert_by-perm a [] = Perm.rfl
  insert_by-perm a (x ∷ xs) = elim (Bool-cases (str_lt (key x) (key a))) [
    | inl before ↦ rw before (Perm.trans (Perm.cons x (insert_by-perm a xs)) (Perm.swap a x xs))
    | inr after ↦ rw after Perm.rfl
  ]

  pub sort_by-perm : (xs : List A) → Perm (sort_by xs) xs
  unfolding sort_by
  sort_by-perm [] = Perm.rfl
  sort_by-perm (x ∷ xs) = Perm.trans (insert_by-perm x (sort_by xs)) (Perm.cons x (sort_by-perm xs))

  insert_by-All : (P : A → Type 0) (a : A) (xs : List A) → P a → All P xs → All P (insert_by a xs)
  unfolding insert_by
  insert_by-All P a [] h hs = (h, tt)
  insert_by-All P a (x ∷ xs) h hs = elim (Bool-cases (str_lt (key x) (key a))) [
    | inl before ↦ rw before (hs.0, insert_by-All P a xs h hs.1)
    | inr after ↦ rw after (h, hs)
  ]

  pub sort_by-All : (P : A → Type 0) (xs : List A) → All P xs → All P (sort_by xs)
  unfolding sort_by
  sort_by-All P [] h = tt
  sort_by-All P (x ∷ xs) h = insert_by-All P x (sort_by xs) h.0 (sort_by-All P xs h.1)
