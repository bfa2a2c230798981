-- ===== src/Recommender/States.antt =====
-- internal/recommender/recommender.go: `Recommender`. Its mutex makes each operation one step.
pub mod Samples
pub mod Total
use mathlib.Core.Option
use kubera.Base.{
  ◌*◌, Bool, true, false, not, ◌&&◌, ◌||◌, Option, none, some, String, List, [], ◌∷◌, str_eq,
  lookup, insert, if◌then◌else◌, ℤ, pos,
}
use kubera.Go.Float64.{Float64}
use kubera.Go.Time.{Time, Duration, after, hour}
use kubera.Recommender.Histogram
use kubera.Recommender.Histogram.{DecayingHistogram, new_decaying_histogram, empty, percentile}

pub record ContainerKey : Type 0 where
  pub namespace : String
  pub workload : String
  pub container : String

unfoldable pub key_eq : ContainerKey → ContainerKey → Bool
key_eq a b =
    str_eq a.namespace b.namespace
    && (str_eq a.workload b.workload && str_eq a.container b.container)

pub record Recommendation (F : Type 0) : Type 0 where
  pub cpu_milli : F
  pub mem_bytes : F

pub record ContainerState (F : Type 0) : Type 0 where
  pub cpu : DecayingHistogram F
  pub mem : DecayingHistogram F
  pub last_sample : List (String × Time)

abbrev pub States : Type 0 → Type 0
States F = List (ContainerKey × ContainerState F)

pub record Recommender (F : Type 0) : Type 0 where
  pub half_life : Duration
  pub states : States F

-- The map from keys to states.
abbrev pub find_state : {F : Type 0} → ContainerKey → States F → Option (ContainerState F)
find_state key [] = none
find_state key ((k, s) ∷ rest) = if key_eq k key then some s else find_state key rest

abbrev pub put_state : {F : Type 0} → ContainerKey → ContainerState F → States F → States F
put_state key s [] = (key, s) ∷ []
put_state key s ((k, old) ∷ rest) =
    if key_eq k key then (key, s) ∷ rest else (k, old) ∷ put_state key s rest

abbrev default_half_day : Duration
default_half_day = pos (12 * hour)

unfoldable pub new_recommender : {F : Type 0} → Recommender F
new_recommender = record { half_life = default_half_day; states = [] }

-- `last, seen := state.lastSample[pod]; seen && !t.After(last)`.
abbrev pub is_stale : Option Time → Time → Bool
is_stale none t = false
is_stale (some last) t = not (after t last)

module _ {F : Type 0} ⦃f : Float64 F⦄ where
  abbrev pub fresh_state : Duration → ContainerState F
  fresh_state half_life = record {
    cpu = new_decaying_histogram (f.decimal 10 0) half_life;
    mem = new_decaying_histogram (f.decimal 10_485_760 0) half_life;
    last_sample = [];
  }

  abbrev pub state_or : Duration → Option (ContainerState F) → ContainerState F
  state_or half_life none = fresh_state half_life
  state_or half_life (some s) = s

  -- The sample of one pod, added to a state; `none` is the panic of a histogram.
  unfoldable pub add_sample : ContainerState F → String → F → F → Time → Option (ContainerState F)
  add_sample s pod cpu_milli mem_bytes t =
      if is_stale (lookup pod s.last_sample) t
      then some s
      else elim (Histogram.observe s.cpu cpu_milli t) [
        | none ↦ none
        | some cpu ↦
            Option.map
              (λ mem. record { cpu = cpu; mem = mem; last_sample = insert pod t s.last_sample })
              (Histogram.observe s.mem mem_bytes t)
      ]

  unfoldable pub observe :
      Recommender F → ContainerKey → String → F → F → Time → Option (Recommender F)
  observe r key pod cpu_milli mem_bytes t =
      Option.map (λ s. record r { states = put_state key s r.states })
        (add_sample (state_or r.half_life (find_state key r.states)) pod cpu_milli mem_bytes t)

  abbrev readout : Option (ContainerState F) → F → F → Option (Recommendation F)
  readout none cpu_percentile mem_percentile = none
  readout (some s) cpu_percentile mem_percentile =
      if empty s.cpu
      then none
      else some (record {
        cpu_milli = percentile s.cpu cpu_percentile;
        mem_bytes = percentile s.mem mem_percentile;
      })

  -- `none` is `ok == false`.
  unfoldable pub recommend : Recommender F → ContainerKey → F → F → Option (Recommendation F)
  recommend r key cpu_percentile mem_percentile =
      readout (find_state key r.states) cpu_percentile mem_percentile

unfoldable pub in_workload : String → String → ContainerKey → Bool
in_workload namespace workload key = str_eq key.namespace namespace && str_eq key.workload workload

unfoldable pub forget_states : {F : Type 0} → String → String → States F → States F
forget_states namespace workload [] = []
forget_states namespace workload ((k, s) ∷ rest) =
    let kept = forget_states namespace workload rest in
    if in_workload namespace workload k then kept else (k, s) ∷ kept

unfoldable pub forget : {F : Type 0} → Recommender F → String → String → Recommender F
unfolding forget_states
forget r namespace workload = record r { states = forget_states namespace workload r.states }
