-- ===== src/Recommender/Histogram.antt =====
-- internal/recommender/histogram.go: `decayingHistogram`.
pub mod Percentile
pub mod Total
use mathlib.Core.Option
use kubera.Base.{
  ℕ, zero, suc, ◌+◌, ◌-◌, ◌≤◌, ◌<◌, Bool, true, false, Option, none, some, get_or, List, [], ◌∷◌,
  map, length, replicate, if◌then◌else◌, ℤ, pos, negsuc, leb_ℤ,
}
use kubera.Go.Float64.{Float64}
use kubera.Go.Time.{Time, Duration, is_zero_time, since, seconds, hour}

abbrev pub bucket_count : ℕ
bucket_count = 200

pub record DecayingHistogram (F : Type 0) : Type 0 where
  pub base : F
  pub ratio : F
  pub half_life : Duration
  pub weights : List F
  pub total_weight : F
  pub ref_time : Time

module _ {F : Type 0} ⦃f : Float64 F⦄ where
  unfoldable pub new_decaying_histogram : F → Duration → DecayingHistogram F
  new_decaying_histogram base half_life = record {
    base = base;
    ratio = f.decimal 105 2;
    half_life = half_life;
    weights = replicate bucket_count (f.decimal 0 0);
    total_weight = f.decimal 0 0;
    ref_time = 0;
  }

  -- An index below 0 stands for one that the write panics on.
  unfoldable pub bucket_for : DecayingHistogram F → F → ℤ
  bucket_for h value =
      let index = f.to_int (f.ceil (f.div (f.log (f.div value h.base)) (f.log h.ratio))) in
      if f.le value h.base
      then pos 0
      else (if leb_ℤ (pos (length h.weights)) index then pos (length h.weights - 1) else index)

  unfoldable pub upper_bound : DecayingHistogram F → ℕ → F
  upper_bound h index = f.mul h.base (f.pow h.ratio (f.of_int (pos index)))

  -- `weights[i] += w`.
  abbrev pub add_at : List F → ℕ → F → List F
  add_at [] i w = []
  add_at (x ∷ xs) zero w = f.add x w ∷ xs
  add_at (x ∷ xs) (suc i) w = x ∷ add_at xs i w

  -- A negative index panics, which is `none`; the others that `bucket_for` gives are in range.
  abbrev pub add_weight : List F → ℤ → F → Option (List F)
  add_weight ws (pos i) w = some (add_at ws i w)
  add_weight ws (negsuc i) w = none

  -- `math.Exp2` of the half-lives between the reference time and `t`.
  abbrev pub growth : DecayingHistogram F → Time → F
  growth h t = f.exp2 (f.div (seconds (since t h.ref_time)) (seconds h.half_life))

  unfoldable pub rescale : DecayingHistogram F → Time → DecayingHistogram F
  rescale h now = record h {
    weights = map (λ w. f.div w (growth h now)) h.weights;
    total_weight = f.div h.total_weight (growth h now);
    ref_time = now;
  }

  -- The reference time of the first sample.
  abbrev pub started : DecayingHistogram F → Time → DecayingHistogram F
  started h t = if is_zero_time h.ref_time then record h { ref_time = t } else h

  -- The histogram and the weight with which a sample at `t` counts.
  unfoldable pub weighted : DecayingHistogram F → Time → DecayingHistogram F × F
  unfolding rescale
  weighted h t =
      let weight = growth h t in
      if f.lt (f.decimal 1_000_000_000_000 0) weight
      then (rescale h t, f.decimal 1 0)
      else (h, weight)

  unfoldable pub observe : DecayingHistogram F → F → Time → Option (DecayingHistogram F)
  unfolding weighted bucket_for
  observe h value t =
      let (h', weight) = weighted (started h t) t in
      Option.map (λ ws. record h' { weights = ws; total_weight = f.add h'.total_weight weight })
        (add_weight h'.weights (bucket_for h' value) weight)

  unfoldable pub empty : DecayingHistogram F → Bool
  empty h = f.lt h.total_weight (f.decimal 1 9)

  -- The loop of `percentile`: the index at which the sum reaches the threshold.
  unfoldable pub reach : List F → ℕ → F → F → Option ℕ
  reach [] i cumulative threshold = none
  reach (w ∷ ws) i cumulative threshold =
      let sum = f.add cumulative w in
      let rest = reach ws (suc i) sum threshold in if f.le threshold sum then some i else rest

  unfoldable pub percentile_index : List F → F → ℕ
  unfolding reach
  percentile_index ws threshold = get_or (reach ws 0 (f.decimal 0 0) threshold) (length ws - 1)

  unfoldable pub percentile : DecayingHistogram F → F → F
  unfolding percentile_index upper_bound
  percentile h p =
      if empty h
      then f.decimal 0 0
      else upper_bound h (percentile_index h.weights (f.mul p h.total_weight))
