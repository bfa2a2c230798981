-- ===== src/Controller/Collection/Workloads/Total.antt =====
-- internal/controller/recommendation.go: `computeRecommendations` does not panic.
use kubera.Base.{◌≡◌, refl, Option, none, some, String, List, [], ◌∷◌}
use kubera.Go.Float64.{Float64, IsIeee}
use kubera.Go.Float64.Log.{IsLog}
use kubera.Kube.Quantity.{Quantity, IsQuantity}
use kubera.Metrics.{ContainerUsage, PodUsage}
use kubera.Recommender.States.{Recommender}
use kubera.Recommender.States.Total.{IsSound, observe-IsSound}
use kubera.Controller.Conflicts.{Deployment}
use kubera.Controller.Collection.{
  Outcome, ok, err, panic, then_do, Samples, collect_containers, collect_pods, noted,
}
use kubera.Controller.Collection.Workloads.{
  Source, Computed, no_samples, sampled, selected, compute_workload, compute_workloads,
  compute_recommendations,
}

-- No panic, and a recommender that stays sound, also where an error is returned.
abbrev pub IsSafe : {Q F : Type 0} ⦃f : Float64 F⦄ → Outcome (Computed Q F) (Recommender F) → Type 0
IsSafe (ok c) = IsSound c.recommender
IsSafe (err r) = IsSound r
IsSafe panic = ⊥

module _ {Q F : Type 0} ⦃q : Quantity Q⦄ ⦃f : Float64 F⦄ (quantities : IsQuantity Q)
    (ieee : IsIeee F) (log : IsLog F) where
  collect_containers-total :
      (namespace workload : String) (pod : PodUsage Q) (cus : List (ContainerUsage Q))
      (acc : Samples F)
      → IsSound acc.recommender
      → (after : Samples F) × (collect_containers namespace workload pod cus acc ≡ some after)
        × IsSound after.recommender
  unfolding collect_containers
  collect_containers-total namespace workload pod [] acc sound = (acc, refl, sound)
  collect_containers-total namespace workload pod (cu ∷ cus) acc sound =
      let (r, e, kept) =
        observe-IsSound ieee log acc.recommender
          (record { namespace = namespace; workload = workload; container = cu.container }) pod.pod
          (q.milli_value cu.cpu) (q.value cu.memory) pod.timestamp sound
          (quantities.milli_value_bounded cu.cpu) (quantities.value_bounded cu.memory) in
      rw (e, collect_containers)
        (collect_containers-total namespace workload pod cus (noted cu acc r) kept)

  collect_pods-total :
      (namespace workload : String) (pods : List (PodUsage Q)) (acc : Samples F)
      → IsSound acc.recommender
      → (after : Samples F) × (collect_pods namespace workload pods acc ≡ some after)
        × IsSound after.recommender
  unfolding collect_pods
  collect_pods-total namespace workload [] acc sound = (acc, refl, sound)
  collect_pods-total namespace workload (pod ∷ pods) acc sound =
      let (after, e, kept) =
        collect_containers-total namespace workload pod pod.containers acc sound in
      rw (e, collect_pods) (collect_pods-total namespace workload pods after kept)

  module _ {S P L : Type 0} (x : Source Q S P L) where
    sampled-IsSafe :
        (workload : String) (pods : Option (List (PodUsage Q))) (acc : Computed Q F)
        → IsSound acc.recommender
        → IsSafe (sampled x workload pods acc)
    sampled-IsSafe workload none acc sound = sound
    sampled-IsSafe workload (some pods) acc sound =
        let (after, e, kept) =
          collect_pods-total x.namespace workload pods (no_samples acc.recommender) sound in
        rw e kept

    selected-IsSafe :
        (workload : String) (o : Option P) (acc : Computed Q F)
        → IsSound acc.recommender
        → IsSafe (selected x workload o acc)
    selected-IsSafe workload none acc sound = sound
    selected-IsSafe workload (some p) acc sound = sampled-IsSafe workload _ acc sound

    then_do-IsSafe :
        (o : Outcome (Computed Q F) (Recommender F))
        (rest : Computed Q F → Outcome (Computed Q F) (Recommender F))
        → IsSafe o
        → ((c : Computed Q F) → IsSound c.recommender → IsSafe (rest c))
        → IsSafe (then_do o rest)
    then_do-IsSafe (ok c) rest safe k = k c safe
    then_do-IsSafe (err r) rest safe k = safe
    then_do-IsSafe panic rest safe k = elim safe [ ]

    compute_workloads-IsSafe :
        (deploys : List (Deployment S L)) (acc : Computed Q F)
        → IsSound acc.recommender
        → IsSafe (compute_workloads x deploys acc)
    unfolding compute_workloads compute_workload
    compute_workloads-IsSafe [] acc sound = sound
    compute_workloads-IsSafe (d ∷ ds) acc sound =
        then_do-IsSafe (compute_workload x d acc) (compute_workloads x ds)
          (selected-IsSafe d.name (x.selectors.compile d.pod_selector) acc sound)
          (compute_workloads-IsSafe ds)

    pub compute_recommendations-IsSafe :
        (matched : List (Deployment S L)) (r : Recommender F)
        → IsSound r
        → IsSafe (compute_recommendations x matched r)
    unfolding compute_recommendations
    compute_recommendations-IsSafe matched r sound =
        then_do-IsSafe _ _
          (compute_workloads-IsSafe matched
            (record { recommender = r; recommendations = []; usage = [] }) sound)
          (λ c kept. kept)
