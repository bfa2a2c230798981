-- ===== src/Recommender/Histogram/Percentile.antt =====
-- Which bucket a percentile reads.
use mathlib.Core.Bool.{false≢true}
use native.Mathlib.Decide.{dec_lt}
use native.Mathlib.Nat.{le_refl}
use kubera.Base.{
  ℕ, zero, suc, ◌+◌, ◌-◌, ◌≤◌, ◌<◌, ◌≡◌, refl, arith, ◌⊎◌, inl, inr, true, false, none, some, List,
  [], ◌∷◌, length, Bool-cases, ap, sym, ◌∙◌,
}
use kubera.Go.Float64.{Float64, IsIeee, ◌≼◌}
use kubera.Recommender.Histogram.{
  DecayingHistogram, reach, percentile_index, percentile, upper_bound, empty,
}

module _ {F : Type 0} ⦃f : Float64 F⦄ where
  -- The sum of the weights up to and with index `n`, added from the left.
  pub cumulative : List F → F → ℕ → F
  cumulative [] acc n = acc
  cumulative (w ∷ ws) acc zero = f.add acc w
  cumulative (w ∷ ws) acc (suc n) = cumulative ws (f.add acc w) n

  -- The bucket at `n` reaches the threshold, and none before it does.
  abbrev pub IsFirst : List F → F → F → ℕ → Type 0
  IsFirst ws acc threshold n =
      (n < length ws)
      × (threshold ≼ cumulative ws acc n)
      × ((m : ℕ) → m < n → f.le threshold (cumulative ws acc m) ≡ false)

  -- No bucket reaches it.
  abbrev pub IsUnreached : List F → F → F → Type 0
  IsUnreached ws acc threshold =
      (m : ℕ) → m < length ws → f.le threshold (cumulative ws acc m) ≡ false

  shift :
      (w : F) (ws : List F) (acc threshold : F) (k : ℕ)
      → f.le threshold (f.add acc w) ≡ false
      → ((m : ℕ) → m < k → f.le threshold (cumulative ws (f.add acc w) m) ≡ false)
      → (m : ℕ) → m < suc k
      → f.le threshold (cumulative (w ∷ ws) acc m) ≡ false
  unfolding cumulative
  shift w ws acc threshold k miss rest zero h = miss
  shift w ws acc threshold k miss rest (suc m) h = rest m (omega arith)

  reach_lem :
      (ws : List F) (i : ℕ) (acc threshold : F)
      → ((n : ℕ) × (reach ws i acc threshold ≡ some (i + n)) × IsFirst ws acc threshold n)
        ⊎ ((reach ws i acc threshold ≡ none) × IsUnreached ws acc threshold)
  unfolding reach cumulative
  reach_lem [] i acc threshold = inr (refl, λ m h. absurd (omega arith))
  reach_lem (w ∷ ws) i acc threshold =
      let sum = f.add acc w in
      elim (Bool-cases (f.le threshold sum)) [
        | inl hit ↦
            inl (0, rw hit (ap some (omega arith)), (omega arith, hit, λ m h. absurd (omega arith)))
        | inr miss ↦ elim (reach_lem ws (suc i) sum threshold) [
          | inl (n, e, (inside, hit, before)) ↦ inl (
            suc n,
            rw miss (e ∙ ap some (omega arith)),
            (omega arith, hit, shift w ws acc threshold n miss before),
          )
          | inr (e, unreached) ↦
              inr (rw miss e, shift w ws acc threshold (length ws) miss unreached)
        ]
      ]

  -- A percentile is 0 for an empty histogram. Else it is the upper bound of a bucket: of the first
  -- one at which the sum of the weights reaches that share of the total, and of the last one if no
  -- sum does.
  pub percentile_lem :
      (h : DecayingHistogram F) (p : F)
      → let threshold = f.mul p h.total_weight in
        let zero_weight = f.decimal 0 0 in
        (empty h ≡ true → percentile h p ≡ f.decimal 0 0)
        × (empty h ≡ false
            → (n : ℕ) × (percentile h p ≡ upper_bound h n)
              × (IsFirst h.weights zero_weight threshold n
                  ⊎ ((n ≡ length h.weights - 1) × IsUnreached h.weights zero_weight threshold)))
  unfolding percentile percentile_index
  percentile_lem h p =
      let ws = h.weights in
      let threshold = f.mul p h.total_weight in
      (
        λ e. rw e,
        λ e. elim (reach_lem ws 0 (f.decimal 0 0) threshold) [
          | inl (n, found, first) ↦
              (n, rw (e, percentile_index, found) (ap (upper_bound h) (omega arith)), inl first)
          | inr (missed, unreached) ↦
              (length ws - 1, rw (e, percentile_index, missed) refl, inr (refl, unreached))
        ],
      )

  le_of_first :
      IsIeee F
      → (ws : List F) (acc low high : F) (m n : ℕ) → low ≼ high
      → high ≼ cumulative ws acc n
      → ((k : ℕ) → k < m → f.le low (cumulative ws acc k) ≡ false)
      → m ≤ n
  le_of_first laws ws acc low high m n le hit before = elim (dec_lt n m) [
    | yes lt ↦
        let reached = laws.le_trans low high (cumulative ws acc n) le hit in
        let missed = before n lt in absurd (false≢true (sym missed ∙ reached))
    | no ge ↦ omega arith
  ]

  -- A larger threshold never reads a smaller bucket.
  pub percentile_index_mono :
      IsIeee F
      → (ws : List F) (low high : F) → low ≼ high
      → percentile_index ws low ≤ percentile_index ws high
  unfolding percentile_index
  percentile_index_mono laws ws low high le =
      let zero_weight = f.decimal 0 0 in
      elim (reach_lem ws 0 zero_weight low) [
        | inl (m, e, first) ↦ elim (reach_lem ws 0 zero_weight high) [
          | inl (n, e', hit) ↦
              let order = le_of_first laws ws zero_weight low high m n le hit.1 first.2 in
              rw (e, e') (omega arith)
          | inr (e', unreached) ↦ rw (e, e') (omega (arith, first.0))
        ]
        | inr (e, unreached) ↦ elim (reach_lem ws 0 zero_weight high) [
          | inl (n, e', hit) ↦
              let order =
                le_of_first laws ws zero_weight low high (length ws) n le hit.1 unreached in
              absurd (omega (arith, hit.0))
          | inr (e', unreached') ↦ rw (e, e') (le_refl _)
        ]
      ]
