-- ===== src/Controller/Vpa/Targeted.antt =====
-- internal/controller/vpa.go: which deployments are in conflict.
use kubera.Base.{
  ◌≡◌, refl, arith, Bool, false, ◌&&◌, ◌||◌, some, String, List, [], ◌∷◌, str_eq, eq_iff, contains,
}
use kubera.Controller.Vpa.{TargetRef, listed, is_target, targeted, conflicts_of, vpa_conflicts}

-- An autoscaler names this deployment.
abbrev pub targets : String → List TargetRef → Bool
targets name [] = false
targets name (r ∷ rs) = is_target r && str_eq r.name name || targets name rs

contains-targeted :
    (name : String) (items : List TargetRef) → contains name (targeted items) ≡ targets name items
unfolding targeted
contains-targeted name [] = refl
contains-targeted name (r ∷ rs) = ground (arith, contains-targeted name rs)

contains-conflicts_of :
    (name : String) (names matched : List String)
    → contains name (conflicts_of names matched) ≡ (contains name names && contains name matched)
unfolding conflicts_of
contains-conflicts_of name names [] = ground arith
contains-conflicts_of name names (m ∷ ms) =
    ground (arith, eq_iff m name, contains-conflicts_of name names ms)

-- A deployment is in conflict exactly if it is matched and a VerticalPodAutoscaler of the listing
-- targets a Deployment of its name.
pub vpa_conflicts-contains :
    (items : List TargetRef) (matched : List String) {conflicts : List String} (name : String)
    → vpa_conflicts (listed items) matched ≡ some conflicts
    → contains name conflicts ≡ (targets name items && contains name matched)
unfolding vpa_conflicts
vpa_conflicts-contains items matched name h =
    ground
      (arith, contains-targeted name items, contains-conflicts_of name (targeted items) matched)
