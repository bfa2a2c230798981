-- ===== src/Controller/Actuation/Targets/Found.antt =====
-- internal/controller/actuation.go: the recommendation that is found for a workload.
use mathlib.Core.Option.{some-injective}
use kubera.Base.{
  ◌≡◌, subst, some, inl, inr, String, List, [], ◌∷◌, All, str_eq, Bool-cases, Option-cases,
}
use kubera.Api.{WorkloadRecommendation}
use kubera.Controller.Actuation.Targets.{find_recommendation}

-- What holds of every recommendation holds of the one that is found.
pub find_recommendation-All :
    {Q : Type 0} (P : WorkloadRecommendation Q → Type 0) (name : String)
    (recs : List (WorkloadRecommendation Q)) {rec : WorkloadRecommendation Q}
    → All P recs
    → find_recommendation name recs ≡ some rec
    → P rec
unfolding find_recommendation
find_recommendation-All P name [] all found = cc
find_recommendation-All P name (r ∷ rs) all found =
    elim (Option-cases (find_recommendation name rs)) [
      | inl last ↦ elim (Bool-cases (str_eq r.workload name)) [
        | inl same ↦ subst P (some-injective _ _ (rw (last, same) at found)) all.0
        | inr other ↦ let nothing = rw (last, other) at found in cc
      ]
      | inr (later, e) ↦
          let same = rw e at found in
          subst P (some-injective _ _ same) (find_recommendation-All P name rs all.1 e)
    ]
