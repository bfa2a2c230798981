-- ===== src/Controller/Vpa.antt =====
-- internal/controller/vpa.go: `vpaConflicts`. The list of autoscalers is what the API server gives.
pub mod Targeted
use kubera.Base.{
  Bool, not, ◌&&◌, Option, none, some, String, List, [], ◌∷◌, str_eq, contains, if◌then◌else◌,
}

-- `spec.targetRef.kind` and `.name`, which read as empty where they are missing.
pub record TargetRef : Type 0 where
  pub kind : String
  pub name : String

-- A list, or one of two errors: the kind is not installed, or another.
pub data Listing (A : Type 0) : Type 0 where
  listed : List A → Listing A
  no_match : Listing A
  failed : Listing A

-- `kind == kindDeployment && name != ""`.
abbrev pub is_target : TargetRef → Bool
is_target r = str_eq r.kind "Deployment" && not (str_eq r.name "")

unfoldable pub targeted : List TargetRef → List String
targeted [] = []
targeted (r ∷ rs) = let rest = targeted rs in if is_target r then r.name ∷ rest else rest

unfoldable pub conflicts_of : List String → List String → List String
conflicts_of names [] = []
conflicts_of names (m ∷ ms) =
    let rest = conflicts_of names ms in if contains m names then m ∷ rest else rest

-- The names of the matched deployments that are targeted; `none` is an error.
unfoldable pub vpa_conflicts : Listing TargetRef → List String → Option (List String)
unfolding targeted conflicts_of
vpa_conflicts (listed items) matched = some (conflicts_of (targeted items) matched)
vpa_conflicts no_match matched = some []
vpa_conflicts failed matched = none
