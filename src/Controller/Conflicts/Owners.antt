-- ===== src/Controller/Conflicts/Owners.antt =====
-- internal/controller/dynamicresource_controller.go: who manages a deployment.
use kubera.Base.{
  ◌≡◌, refl, ap, ◌∙◌, arith, ◌⊎◌, inl, inr, true, false, not, String, List, [], ◌∷◌, str_eq,
  str_lt_total, eq_iff, contains, Bool-cases, Among,
}
use text.Mathlib.TextPositions.{eq_refl}
use kubera.Controller.Conflicts.{
  Selectors, Managed, Deployment, older_than, claims, is_taken, conflicted_workloads,
}

-- Of two objects with different names exactly one is older.
pub older_than_total :
    {S : Type 0} (a b : Managed S)
    → str_eq a.name b.name ≡ false
    → older_than b a ≡ not (older_than a b)
unfolding older_than
older_than_total a b h = ground (arith, str_lt_total a.name b.name)

str_eq_flip : (s t : String) → str_eq s t ≡ false → str_eq t s ≡ false
str_eq_flip s t h = ground (arith, eq_iff s t, eq_iff t s)

module _ {S P L : Type 0} (sel : Selectors S P L) where
  is_taken-Among :
      (dr : Managed S) (others : List (Managed S)) (labels : L) (other : Managed S)
      → Among (λ o. o ≡ other) others
      → str_eq other.name dr.name ≡ false
      → older_than other dr ≡ true
      → claims sel other labels ≡ true
      → is_taken sel dr others labels ≡ true
  unfolding is_taken
  is_taken-Among dr [] labels other h ne older claim = elim h [ ]
  is_taken-Among dr (o ∷ others) labels other (inl e) ne older claim = rw (e, ne, older, claim) refl
  is_taken-Among dr (o ∷ others) labels other (inr h) ne older claim =
      rw (is_taken-Among dr others labels other h ne older claim) (ground arith)

  contains-conflicted :
      (dr : Managed S) (others : List (Managed S)) (deploys : List (Deployment S L))
      (d : Deployment S L)
      → Among (λ e. e ≡ d) deploys
      → is_taken sel dr others d.labels ≡ true
      → contains d.name (conflicted_workloads sel dr others deploys) ≡ true
  unfolding conflicted_workloads
  contains-conflicted dr others [] d h taken = elim h [ ]
  contains-conflicted dr others (e ∷ deploys) d (inl same) taken =
      rw (same, taken, eq_refl d.name) refl
  contains-conflicted dr others (e ∷ deploys) d (inr h) taken =
      ground (arith, contains-conflicted dr others deploys d h taken)

  -- Where two objects of different names both claim a deployment that both have matched, at least
  -- one of the two finds it in conflict: it is never managed by both.
  pub conflicted_workloads-exclusive :
      (a b : Managed S) (others : List (Managed S)) (for_a for_b : List (Deployment S L))
      (d : Deployment S L)
      → Among (λ o. o ≡ a) others
      → Among (λ o. o ≡ b) others
      → Among (λ e. e ≡ d) for_a
      → Among (λ e. e ≡ d) for_b
      → str_eq a.name b.name ≡ false
      → claims sel a d.labels ≡ true
      → claims sel b d.labels ≡ true
      → (contains d.name (conflicted_workloads sel a others for_a) ≡ true)
        ⊎ (contains d.name (conflicted_workloads sel b others for_b) ≡ true)
  conflicted_workloads-exclusive a b others for_a for_b d in_a in_b d_a d_b ne claim_a claim_b =
      elim (Bool-cases (older_than a b)) [
        | inl older ↦ inr (
            contains-conflicted b others for_b d d_b
              (is_taken-Among b others d.labels a in_a ne older claim_a))
        | inr younger ↦ inl (
            contains-conflicted a others for_a d d_a (
              is_taken-Among a others d.labels b in_b (str_eq_flip a.name b.name ne)
                (older_than_total a b ne ∙ ap not younger) claim_b))
      ]
