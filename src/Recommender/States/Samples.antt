-- ===== src/Recommender/States/Samples.antt =====
-- What samples and deletions change of the recommender, and what they leave alone.
use text.Mathlib.TextPositions.{eq_refl}
use kubera.Base.{
  ◌≤◌, ◌≡◌, refl, arith, ap, true, false, none, some, String, [], ◌∷◌, eq_iff, lookup,
  lookup-insert, if◌then◌else◌, Option-cases, inl, inr,
}
use kubera.Go.Float64.{Float64}
use kubera.Go.Time.{Time}
use kubera.Recommender.States.{
  ContainerKey, key_eq, ContainerState, States, Recommender, find_state, put_state, is_stale,
  state_or, add_sample, observe, recommend, in_workload, forget_states, forget,
}

-- Equal keys are equal to the same keys.
key_eq_sound : (a b : ContainerKey) → key_eq a b ≡ true → a ≡ b
unfolding key_eq
key_eq_sound a b h = ground (
  arith,
  eq_iff a.namespace b.namespace,
  eq_iff a.workload b.workload,
  eq_iff a.container b.container,
)

key_eq_refl : (a : ContainerKey) → key_eq a a ≡ true
unfolding key_eq
key_eq_refl a = simp eq_refl

-- Two keys that a third equals are equal.
key_eq-join : (a b c : ContainerKey) → key_eq a c ≡ true → key_eq b c ≡ true → key_eq a b ≡ true
key_eq-join a b c h k = rw (key_eq_sound a c h, key_eq_sound b c k) (key_eq_refl c)

key_eq-congr : (a b c : ContainerKey) → key_eq a b ≡ true → key_eq a c ≡ key_eq b c
key_eq-congr a b c h = ap (λ x. key_eq x c) (key_eq_sound a b h)

find_state-put_state :
    {F : Type 0} (key other : ContainerKey) (s : ContainerState F) (states : States F)
    → find_state other (put_state key s states)
      ≡ (if key_eq key other then some s else find_state other states)
find_state-put_state key other s [] = refl
find_state-put_state key other s ((k, old) ∷ rest) = ground (
  arith,
  key_eq-congr k key other,
  key_eq-join k key other,
  find_state-put_state key other s rest,
)

put_state_twice :
    {F : Type 0} (key : ContainerKey) (s : ContainerState F) (states : States F)
    → put_state key s (put_state key s states) ≡ put_state key s states
put_state_twice key s [] = rw (key_eq_refl key) refl
put_state_twice key s ((k, old) ∷ rest) =
    ground (arith, key_eq_refl key, put_state_twice key s rest)

in_workload-congr :
    (namespace workload : String) (a b : ContainerKey)
    → key_eq a b ≡ true
    → in_workload namespace workload a ≡ in_workload namespace workload b
in_workload-congr namespace workload a b h =
    ap (in_workload namespace workload) (key_eq_sound a b h)

find_state-forget_states :
    {F : Type 0} (namespace workload : String) (key : ContainerKey) (states : States F)
    → find_state key (forget_states namespace workload states)
      ≡ (if in_workload namespace workload key then none else find_state key states)
unfolding forget_states
find_state-forget_states namespace workload key [] = ground arith
find_state-forget_states namespace workload key ((k, s) ∷ rest) = ground (
  arith,
  in_workload-congr namespace workload k key,
  find_state-forget_states namespace workload key rest,
)

module _ {F : Type 0} ⦃f : Float64 F⦄ where
  -- Forgetting a workload drops the readouts of exactly its containers.
  pub recommend-forget :
      (r : Recommender F) (namespace workload : String) (key : ContainerKey) (cpu mem : F)
      → recommend (forget r namespace workload) key cpu mem
        ≡ (if in_workload namespace workload key then none else recommend r key cpu mem)
  unfolding recommend forget
  recommend-forget r namespace workload key cpu mem =
      ground (arith, find_state-forget_states namespace workload key r.states)

  -- What a sample that does not panic makes of the recommender.
  observe-some :
      (r : Recommender F) (key : ContainerKey) (pod : String) (c m : F) (t : Time)
      {r' : Recommender F}
      → observe r key pod c m t ≡ some r'
      → (s : ContainerState F) × (add_sample
            (state_or r.half_life (find_state key r.states))
            pod
            c
            m
            t
          ≡ some s)
        × (r' ≡ record r { states = put_state key s r.states })
  unfolding observe
  observe-some r key pod c m t h =
      let before = state_or r.half_life (find_state key r.states) in
      elim (Option-cases (add_sample before pod c m t)) [
        | inl e ↦ let panicked = rw e at h in cc
        | inr (s, e) ↦ (s, e, ground (arith, rw e at h))
      ]

  -- A sample changes the readouts of its own container only.
  pub recommend-observe_other :
      (r : Recommender F) (key other : ContainerKey) (pod : String) (c m : F) (t : Time)
      (cpu mem : F) {r' : Recommender F}
      → observe r key pod c m t ≡ some r'
      → key_eq key other ≡ false
      → recommend r' other cpu mem ≡ recommend r other cpu mem
  unfolding recommend
  recommend-observe_other r key other pod c m t cpu mem h ne =
      let (s, added, e) = observe-some r key pod c m t h in
      rw (e, find_state-put_state key other s r.states, ne) refl

  add_sample-stale :
      (s : ContainerState F) (pod : String) (c m : F) (t t' : Time) {s' : ContainerState F}
      → add_sample s pod c m t ≡ some s'
      → t' ≤ t
      → is_stale (lookup pod s'.last_sample) t' ≡ true
  unfolding add_sample
  add_sample-stale s pod c m t t' h le =
      ground (arith, lookup-insert pod pod t s.last_sample, eq_refl pod)

  -- A sample that was taken in makes every sample of that pod that is not newer a no-op.
  pub observe_again :
      (r : Recommender F) (key : ContainerKey) (pod : String) (c m c' m' : F) (t t' : Time)
      {r' : Recommender F}
      → observe r key pod c m t ≡ some r'
      → t' ≤ t
      → observe r' key pod c' m' t' ≡ some r'
  unfolding observe add_sample
  observe_again r key pod c m c' m' t t' h le =
      let (s, added, e) = observe-some r key pod c m t h in
      let stale =
        add_sample-stale (state_or r.half_life (find_state key r.states)) pod c m t t' added le in
      rw (e, find_state-put_state key key s r.states, key_eq_refl key, stale)
        (rw (put_state_twice key s r.states) refl)
