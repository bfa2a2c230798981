-- ===== src/Examples/Readouts.antt =====
-- Histograms, recommender states and floors.
use kubera.Base.{
  ℕ, ◌-◌, ◌≡◌, ◌⊎◌, refl, arith, pos, ◌≤ℤ◌, some, true, false, String, List, [], ◌∷◌, get_or,
  length, lookup,
}
use kubera.Go.Float64.Fixed.{Fixed, fixed_float64}
use kubera.Go.Int64.{sub32}
use kubera.Kube.Quantity.Milli.{Milli, milli_quantity, milli-IsQuantity}
use kubera.Kube.Objects.{ResourceList, or_zero}
use kubera.Coordination.{request_floor}
use kubera.Recommender.Histogram
use kubera.Go.Time.{seconds, since}
use kubera.Recommender.Histogram.{
  DecayingHistogram, percentile_index, percentile, upper_bound, empty,
}
use kubera.Recommender.Histogram.Percentile.{IsFirst, IsUnreached, percentile_lem}
use kubera.Recommender.States.{
  ContainerKey, key_eq, ContainerState, Recommender, observe, add_sample,
}
use kubera.Recommender.States.Samples.{observe_again}
use kubera.Controller.Coupling.{ContainerUsageSnapshot, floor_targets}
use kubera.Controller.Coupling.Floors.{floor_targets-ge}
use kubera.Examples.{list_of}

-- Weights 1, 2 and 1.
abbrev histogram : DecayingHistogram Fixed
histogram = record {
  base = pos 10_000;
  ratio = pos 1050;
  half_life = pos 1000;
  weights = pos 1000 ∷ pos 2000 ∷ pos 1000 ∷ [];
  total_weight = pos 4000;
  ref_time = 5;
}

abbrev half : Fixed
half = pos 500

percentile_lem_example :
    let threshold = fixed_float64.mul half histogram.total_weight in
    let zero_weight = fixed_float64.decimal 0 0 in
    (empty histogram ≡ true → percentile histogram half ≡ fixed_float64.decimal 0 0)
    × (empty histogram ≡ false
        → (n : ℕ) × (percentile histogram half ≡ upper_bound histogram n)
          × (IsFirst histogram.weights zero_weight threshold n
              ⊎ ((n ≡ length histogram.weights - 1)
                  × IsUnreached histogram.weights zero_weight threshold)))
percentile_lem_example = percentile_lem histogram half

abbrev web_key : ContainerKey
web_key = record { namespace = "default"; workload = "web"; container = "web" }

abbrev web_state : ContainerState Fixed
web_state = record { cpu = histogram; mem = histogram; last_sample = ("web-1", 100) ∷ [] }

abbrev recommender : Recommender Fixed
recommender = record { half_life = pos 1000; states = (web_key, web_state) ∷ [] }

-- After a first sample of another pod.
abbrev observed : Recommender Fixed
unfolding observe add_sample key_eq
observed = get_or (observe recommender web_key "web-2" (pos 20_000) (pos 30_000) 90) recommender

observe_again_example :
    observe observed web_key "web-2" (pos 50_000) (pos 60_000) 80 ≡ some observed
unfolding observe add_sample key_eq observed Histogram.observe seconds since
observe_again_example =
    observe_again recommender web_key "web-2" (pos 20_000) (pos 30_000) (pos 50_000) (pos 60_000) 90
      80 {r' = observed} refl (omega arith)

abbrev usage : List (String × ContainerUsageSnapshot Fixed)
usage = ("web", record { cpu_milli = pos 250_000; mem_bytes = pos 1_000_000 }) ∷ []

floor_targets-ge_example :
    (after : ResourceList Milli) × (lookup "web"
        (floor_targets usage (pos 60, pos 60) (pos 10) (("web", list_of 100 500) ∷ []))
      ≡ some after)
    × (pos 500 ≤ℤ milli_quantity.milli_value (or_zero after.cpu))
    × (pos 2000 ≤ℤ milli_quantity.value (or_zero after.memory))
    × (pos 100 ≤ℤ milli_quantity.milli_value (or_zero after.cpu))
    × (pos 500 ≤ℤ milli_quantity.value (or_zero after.memory))
    × (after.others ≡ [])
unfolding request_floor sub32
floor_targets-ge_example =
    floor_targets-ge milli-IsQuantity usage (pos 60) (pos 60) (pos 10)
      (("web", list_of 100 500) ∷ []) "web" 500 2000 refl refl refl refl (omega arith) (omega arith)
      (omega arith) (omega arith)
