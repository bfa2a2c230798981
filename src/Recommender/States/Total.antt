-- ===== src/Recommender/States/Total.antt =====
-- internal/recommender/recommender.go: the states that the recommender keeps, and that it takes in
-- every sample.
use kubera.Base.{
  ℕ, ◌^◌, ◌<◌, ◌≡◌, refl, arith, some, String, [], ◌∷◌, ℤ, pos, All, lookup, insert, Bool-cases,
  inl, inr,
}
use kubera.Go.Float64.{Float64, IsIeee}
use kubera.Go.Float64.Log.{IsLog}
use kubera.Go.Time.{Time, Duration}
use kubera.Recommender.Histogram.Total.{IsShaped, new_decaying_histogram-IsShaped, observe-total}
use kubera.Recommender.States.{
  ContainerKey, key_eq, ContainerState, States, Recommender, find_state, put_state, is_stale,
  fresh_state, state_or, add_sample, observe,
}

module _ {F : Type 0} ⦃f : Float64 F⦄ where
  -- The histograms of a container, from 10 milli-cores and from 10 MiB.
  abbrev pub IsSampled : ContainerState F → Type 0
  IsSampled s = IsShaped 10 s.cpu × IsShaped 10_485_760 s.mem

  abbrev pub IsSound : Recommender F → Type 0
  IsSound r = All (λ e. IsSampled e.1) r.states

  fresh_state-IsSampled : (half_life : Duration) → IsSampled (fresh_state half_life)
  fresh_state-IsSampled half_life = (
    new_decaying_histogram-IsShaped 10 half_life,
    new_decaying_histogram-IsShaped 10_485_760 half_life,
  )

  state_or-IsSampled :
      (half_life : Duration) (key : ContainerKey) (states : States F)
      → All (λ e. IsSampled e.1) states
      → IsSampled (state_or half_life (find_state key states))
  state_or-IsSampled half_life key [] h = fresh_state-IsSampled half_life
  state_or-IsSampled half_life key ((k, s) ∷ rest) h = elim (Bool-cases (key_eq k key)) [
    | inl same ↦ rw same h.0
    | inr other ↦ rw other (state_or-IsSampled half_life key rest h.1)
  ]

  put_state-IsSampled :
      (key : ContainerKey) (s : ContainerState F) (states : States F)
      → IsSampled s
      → All (λ e. IsSampled e.1) states
      → All (λ e. IsSampled e.1) (put_state key s states)
  put_state-IsSampled key s [] sampled h = (sampled, tt)
  put_state-IsSampled key s ((k, old) ∷ rest) sampled h = elim (Bool-cases (key_eq k key)) [
    | inl same ↦ rw same (sampled, h.1)
    | inr other ↦ rw other (h.0, put_state-IsSampled key s rest sampled h.1)
  ]

  module _ (ieee : IsIeee F) (log : IsLog F) where
    add_sample-total :
        (s : ContainerState F) (pod : String) (c m : ℤ) (t : Time)
        → IsSampled s
        → ((n : ℕ) → c ≡ pos n → n < 2 ^ 63)
        → ((n : ℕ) → m ≡ pos n → n < 2 ^ 63)
        → (s' : ContainerState F) × (add_sample s pod (f.of_int c) (f.of_int m) t ≡ some s')
          × IsSampled s'
    unfolding add_sample
    add_sample-total s pod c m t (cpu, mem) hc hm =
        let (cpu', cpu_eq, cpu_shaped) =
          observe-total ieee log 10 s.cpu c t (omega arith) (omega arith) cpu hc in
        let (mem', mem_eq, mem_shaped) =
          observe-total ieee log 10_485_760 s.mem m t (omega arith) (omega arith) mem hm in
        elim (Bool-cases (is_stale (lookup pod s.last_sample) t)) [
          | inl stale ↦ (s, simp stale refl, (cpu, mem))
          | inr fresh ↦ (
            record { cpu = cpu'; mem = mem'; last_sample = insert pod t s.last_sample },
            simp (fresh, cpu_eq, mem_eq) refl,
            (cpu_shaped, mem_shaped),
          )
        ]

    -- A sample of usages that are `int64`s is taken in, whatever the recommender has seen, and leaves
    -- a recommender that takes in the next one.
    pub observe-IsSound :
        (r : Recommender F) (key : ContainerKey) (pod : String) (c m : ℤ) (t : Time)
        → IsSound r
        → ((n : ℕ) → c ≡ pos n → n < 2 ^ 63)
        → ((n : ℕ) → m ≡ pos n → n < 2 ^ 63)
        → (r' : Recommender F) × (observe r key pod (f.of_int c) (f.of_int m) t ≡ some r')
          × IsSound r'
    unfolding observe
    observe-IsSound r key pod c m t sound hc hm =
        let before = state_or r.half_life (find_state key r.states) in
        let (s, e, sampled) =
          add_sample-total before pod c m t (state_or-IsSampled r.half_life key r.states sound) hc
            hm in
        (
          record r { states = put_state key s r.states },
          rw e refl,
          put_state-IsSampled key s r.states sampled sound,
        )
