-- ===== src/Recommender/Histogram/Total.antt =====
-- internal/recommender/histogram.go: a sample of a usage never writes out of range.
use kubera.Base.{
  ℕ, suc, zero, ◌*◌, ◌-◌, ◌^◌, ◌≤◌, ◌<◌, ◌≡◌, refl, arith, subst, ◌∙◌, false, some, inl, inr, ◌⊎◌,
  List, [], ◌∷◌, map, length, replicate, ℤ, pos, negsuc, leb_ℤ, ◌≤ℤ◌, Bool-cases, if◌then◌else◌,
}
use kubera.Go.Float64.{Float64, IsIeee, ◌≼◌}
use kubera.Go.Float64.Log.{IsLog}
use kubera.Go.Time.{Time, Duration, is_zero_time}
use kubera.Recommender.Histogram.{
  bucket_count, DecayingHistogram, new_decaying_histogram, bucket_for, add_at, growth, started,
  weighted, rescale, observe,
}

length-replicate : {A : Type 0} (n : ℕ) (x : A) → length (replicate n x) ≡ n
length-replicate zero x = refl
length-replicate (suc n) x = rw (length-replicate n x) refl

length-add_at :
    {F : Type 0} ⦃f : Float64 F⦄ (ws : List F) (i : ℕ) (w : F) → length (add_at ws i w) ≡ length ws
length-add_at [] i w = refl
length-add_at (x ∷ xs) zero w = refl
length-add_at (x ∷ xs) (suc i) w = rw (length-add_at xs i w) refl

length-map : {A B : Type 0} (g : A → B) (xs : List A) → length (map g xs) ≡ length xs
length-map g [] = refl
length-map g (x ∷ xs) = rw (length-map g xs) refl

nonnegative : (x : ℤ) → pos 0 ≤ℤ x → (i : ℕ) × (x ≡ pos i)
nonnegative (pos i) h = (i, refl)
nonnegative (negsuc i) h = ground arith

-- Of a list of this length.
abbrev cut_off : ℤ → ℤ
cut_off x = if leb_ℤ (pos bucket_count) x then pos (bucket_count - 1) else x

cut_off-in_range :
    (x : ℤ) → (i : ℕ) × (x ≡ pos i) → (k : ℕ) × (cut_off x ≡ pos k) × (k < bucket_count)
cut_off-in_range x (i, e) = elim (Bool-cases (leb_ℤ (pos bucket_count) (pos i))) [
  | inl beyond ↦ (199, rw (e, beyond) refl, omega arith)
  | inr within ↦ (i, rw (e, within) refl, ground arith)
]

le_or_lt : (b n : ℕ) → (b ≤ n) ⊎ (n < b)
le_or_lt b n = omega arith

module _ {F : Type 0} ⦃f : Float64 F⦄ where
  -- A histogram as `newDecayingHistogram` makes it, whatever it has seen since.
  abbrev pub IsShaped : ℕ → DecayingHistogram F → Type 0
  IsShaped b h =
      (h.base ≡ f.decimal b 0) × (h.ratio ≡ f.decimal 105 2) × (length h.weights ≡ bucket_count)

  pub new_decaying_histogram-IsShaped :
      (b : ℕ) (half_life : Duration) → IsShaped b (new_decaying_histogram (f.decimal b 0) half_life)
  unfolding new_decaying_histogram
  new_decaying_histogram-IsShaped b half_life =
      (refl, refl, length-replicate bucket_count (f.decimal 0 0))

  started-IsShaped :
      (b : ℕ) (h : DecayingHistogram F) (t : Time) → IsShaped b h → IsShaped b (started h t)
  started-IsShaped b h t shaped = elim (Bool-cases (is_zero_time h.ref_time)) [
    | inl zero_ ↦ simp zero_ shaped
    | inr set ↦ simp set shaped
  ]

  weighted-IsShaped :
      (b : ℕ) (h : DecayingHistogram F) (t : Time) → IsShaped b h → IsShaped b (weighted h t).0
  unfolding weighted rescale
  weighted-IsShaped b h t shaped =
      elim (Bool-cases (f.lt (f.decimal 1_000_000_000_000 0) (growth h t))) [
        | inl heavy ↦ rw heavy (shaped.0, shaped.1, length-map _ h.weights ∙ shaped.2)
        | inr light ↦ rw light shaped
      ]

  module _ (ieee : IsIeee F) (log : IsLog F) where
    -- The number of a bucket above the first, before it is cut off.
    raw_index :
        (b n : ℕ)
        → 0 < b
        → b ≤ n
        → n ≤ 2 ^ 63
        → (i : ℕ) × (f.to_int (
              f.ceil (
                f.div
                  (f.log (f.div (f.of_int (pos n)) (f.of_int (pos b))))
                  (f.log (f.decimal 105 2))))
            ≡ pos i)
    raw_index b n low above high =
        let x = f.div (f.of_int (pos n)) (f.of_int (pos b)) in
        let one_le : f.of_int (pos 1) ≼ x =
          subst (λ one. one ≼ x) (log.decimal-whole 1 (omega arith))
            (ieee.one_le-div n b low above high) in
        let (l, r) = log.log_range x one_le (
          ieee.le_trans _ _ _ (log.div-le n b low high (omega arith))
            (ieee.of_int_mono n (2 ^ 63) high)) in
        let (dl, dr) =
          log.div_range (f.log x) (f.log (f.decimal 105 2)) 44 (omega arith) l r log.log_ratio in
        let y = f.div (f.log x) (f.log (f.decimal 105 2)) in
        let up =
          (ieee.le-ceil y dl (ieee.le_trans _ _ _ dr (ieee.of_int_mono _ _ (omega arith)))).0 in
        let cl = log.ceil-le y (32 * 44) (omega arith) dl dr in
        let mono =
          ieee.to_int_mono (f.of_int (pos 0)) (f.ceil y) (ieee.of_int_mono 0 0 (omega arith))
            (ieee.le_trans _ _ _ dl up)
            (ieee.le_trans _ _ _ cl (ieee.of_int_mono _ _ (omega arith))) in
        nonnegative _ (rw (ieee.to_int-of_int 0 (omega arith)) at mono)

    above_base : (n b : ℕ) → f.le (f.of_int (pos n)) (f.of_int (pos b)) ≡ false → b ≤ n
    above_base n b h = elim (le_or_lt b n) [
      | inl le ↦ le
      | inr lt ↦ let below = ieee.of_int_mono n b (omega (arith, lt)) in cc
    ]

    -- A usage that is an `int64` belongs to a bucket of the histogram.
    bucket_for-in_range :
        (b : ℕ) (h : DecayingHistogram F) (v : ℤ)
        → 0 < b
        → b ≤ 2 ^ 53
        → IsShaped b h
        → ((n : ℕ) → v ≡ pos n → n < 2 ^ 63)
        → (i : ℕ) × (bucket_for h (f.of_int v) ≡ pos i) × (i < bucket_count)
    unfolding bucket_for
    bucket_for-in_range b h (negsuc v) low whole (base, ratio, size) bounded =
        (0, simp (base, log.decimal-whole b whole, log.negative-le v b) refl, omega arith)
    bucket_for-in_range b h (pos n) low whole (base, ratio, size) bounded =
        let base_eq = base ∙ log.decimal-whole b whole in
        elim (Bool-cases (f.le (f.of_int (pos n)) (f.of_int (pos b)))) [
          | inl below ↦ (0, simp (base_eq, below) refl, omega arith)
          | inr above ↦
              let (k, cut, small) =
                cut_off-in_range _
                  (raw_index b n low (above_base n b above) (omega (arith, bounded n refl))) in
              (k, simp (base_eq, above, ratio, size) cut, small)
        ]

    -- A sample of such a usage is taken in, and the histogram keeps its shape.
    pub observe-total :
        (b : ℕ) (h : DecayingHistogram F) (v : ℤ) (t : Time)
        → 0 < b
        → b ≤ 2 ^ 53
        → IsShaped b h
        → ((n : ℕ) → v ≡ pos n → n < 2 ^ 63)
        → (h' : DecayingHistogram F) × (observe h (f.of_int v) t ≡ some h') × IsShaped b h'
    unfolding observe
    observe-total b h v t low whole shaped bounded =
        let after = (weighted (started h t) t).0 in
        let kept : IsShaped b after =
          weighted-IsShaped b (started h t) t (started-IsShaped b h t shaped) in
        let weight = (weighted (started h t) t).1 in
        let (i, e, small) = bucket_for-in_range b after v low whole kept bounded in
        let ws = add_at after.weights i weight in
        (
          record after { weights = ws; total_weight = f.add after.total_weight weight },
          rw e refl,
          (kept.0, kept.1, length-add_at after.weights i weight ∙ kept.2),
        )
