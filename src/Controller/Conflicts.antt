-- ===== src/Controller/Conflicts.antt =====
-- internal/controller/dynamicresource_controller.go: `olderThan` and `conflictedWorkloads`. What
-- listing the namespace gives is an argument.
pub mod Owners
use kubera.Base.{
  Bool, true, false, not, ◌&&◌, ◌||◌, Option, none, some, String, List, [], ◌∷◌, str_eq, str_lt,
  ltb, ◌==◌, if◌then◌else◌,
}
use kubera.Go.Time.{Time}

-- Label selectors are a library's: `P` is the type of the selectors that are ready to match.
pub record Selectors (S P L : Type 0) : Type 0 where
  -- `metav1.LabelSelectorAsSelector`, with `none` for its error.
  pub compile : S → Option P
  pub is_empty : P → Bool
  pub matches : P → L → Bool

-- What is read of a DynamicResource here.
pub record Managed (S : Type 0) : Type 0 where
  pub name : String
  pub creation_timestamp : Time
  pub selector : S

-- What is read of a Deployment.
pub record Deployment (S L : Type 0) : Type 0 where
  pub name : String
  pub labels : L
  -- `spec.selector`, of its pods.
  pub pod_selector : S

unfoldable pub older_than : {S : Type 0} → Managed S → Managed S → Bool
older_than a b =
    if not (a.creation_timestamp == b.creation_timestamp)
    then ltb a.creation_timestamp b.creation_timestamp
    else str_lt a.name b.name

module _ {S P L : Type 0} (sel : Selectors S P L) where
  abbrev matched_by : Option P → L → Bool
  matched_by none labels = false
  matched_by (some p) labels = not (sel.is_empty p) && sel.matches p labels

  -- The selector is valid, not empty, and matches.
  abbrev pub claims : Managed S → L → Bool
  claims other labels = matched_by (sel.compile other.selector) labels

  -- The inner loop: another, older object claims the labels.
  unfoldable pub is_taken : Managed S → List (Managed S) → L → Bool
  is_taken dr [] labels = false
  is_taken dr (other ∷ others) labels =
      let rest = is_taken dr others labels in
      if str_eq other.name dr.name || not (older_than other dr)
      then rest
      else (if claims other labels then true else rest)

  unfoldable pub conflicted_workloads :
      Managed S → List (Managed S) → List (Deployment S L) → List String
  conflicted_workloads dr others [] = []
  conflicted_workloads dr others (deploy ∷ deploys) =
      let rest = conflicted_workloads dr others deploys in
      if is_taken dr others deploy.labels then deploy.name ∷ rest else rest
