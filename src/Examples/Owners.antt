-- ===== src/Examples/Owners.antt =====
-- Two objects that select the same deployment.
use kubera.Base.{◌≡◌, refl, ◌⊎◌, inl, inr, true, some, String, [], ◌∷◌, contains, str_eq}
use kubera.Controller.Conflicts.{Selectors, Managed, Deployment, conflicted_workloads}
use kubera.Controller.Conflicts.Owners.{conflicted_workloads-exclusive}

-- A selector is one label, and the empty text selects nothing.
abbrev by_label : Selectors String String String
by_label = record {
  compile = λ s. some s;
  is_empty = λ s. str_eq s "";
  matches = λ s label. str_eq s label;
}

abbrev first : Managed String
first = record { name = "first"; creation_timestamp = 10; selector = "app=web" }

abbrev second : Managed String
second = record { name = "second"; creation_timestamp = 10; selector = "app=web" }

abbrev deploy : Deployment String String
deploy = record { name = "web"; labels = "app=web"; pod_selector = "app=web" }

conflicted_workloads-exclusive_example :
    (contains "web" (conflicted_workloads by_label first (first ∷ second ∷ []) (deploy ∷ []))
      ≡ true)
    ⊎ (contains "web" (conflicted_workloads by_label second (first ∷ second ∷ []) (deploy ∷ []))
        ≡ true)
conflicted_workloads-exclusive_example =
    conflicted_workloads-exclusive by_label first second (first ∷ second ∷ []) (deploy ∷ [])
      (deploy ∷ []) deploy (inl refl) (inr (inl refl)) (inl refl) (inl refl) refl refl refl
