-- ===== src/Metrics/Prometheus/Merge/Merged.antt =====
-- internal/metrics/prometheus.go: what the merge holds for a pod and a container.
use kubera.Base.{
  ◌≡◌, refl, sym, arith, ◌∙◌, ap, Bool, true, false, ◌&&◌, Option, none, some, String, List, [],
  ◌∷◌, str_eq, eq_iff, lookup, insert, lookup-insert, if◌then◌else◌, Bool-cases, inl, inr,
}
use kubera.Go.Float64.{Float64}
use kubera.Kube.Quantity.{Quantity}
use kubera.Metrics.{ContainerUsage}
use kubera.Metrics.Prometheus.Query.{PromSample}
use kubera.Metrics.Prometheus.Merge.{
  ByPod, inner, usage_or_new, assign, cpu_of, memory_of, set_cpu, set_memory, assign_all,
  merge_samples,
}

-- The value of the last sample of a container.
abbrev pub last_or : {F : Type 0} → Option F → String → String → List (PromSample F) → Option F
last_or found pod container [] = found
last_or found pod container (s ∷ ss) =
    last_or (if str_eq s.pod pod && str_eq s.container container then some s.value else found) pod
      container ss

abbrev or_else : {F : Type 0} → Option F → Option F → Option F
or_else none found = found
or_else (some v) found = some v

or_else-some :
    {F : Type 0} (later : Option F) (v : F) (found : Option F)
    → or_else later (some v) ≡ or_else (or_else later (some v)) found
or_else-some none v found = refl
or_else-some (some w) v found = refl

last_or-eq :
    {F : Type 0} (found : Option F) (pod container : String) (ss : List (PromSample F))
    → last_or found pod container ss ≡ or_else (last_or none pod container ss) found
last_or-eq found pod container [] = refl
last_or-eq found pod container (s ∷ ss) =
    elim (Bool-cases (str_eq s.pod pod && str_eq s.container container)) [
      | inl same ↦ rw same (
          last_or-eq (some s.value) pod container ss
          ∙ or_else-some (last_or none pod container ss) s.value found
          ∙ ap (λ o. or_else o found) (sym (last_or-eq (some s.value) pod container ss)))
      | inr other ↦ rw other (last_or-eq found pod container ss)
    ]

module _ {Q : Type 0} ⦃q : Quantity Q⦄ where
  abbrev pub entry : String → String → ByPod Q → Option (ContainerUsage Q)
  entry pod container by_pod = lookup container (inner (lookup pod by_pod))

  entry-assign :
      (p c pod container : String) (f : ContainerUsage Q → ContainerUsage Q) (m : ByPod Q)
      → entry pod container (assign p c f m) ≡ (
          if str_eq p pod && str_eq c container
          then some (f (usage_or_new container (entry pod container m)))
          else entry pod container m)
  unfolding assign
  entry-assign p c pod container f m =
      let containers = inner (lookup p m) in
      let new = f (usage_or_new c (lookup c containers)) in
      ground (
        arith,
        eq_iff p pod,
        eq_iff c container,
        lookup-insert p pod (insert c new containers) m,
        lookup-insert c container new containers,
      )

  -- What a loop makes of an entry, given the last value for it.
  abbrev updated :
      {F : Type 0}
      → (F → ContainerUsage Q → ContainerUsage Q)
      → String
      → Option F
      → Option (ContainerUsage Q)
      → Option (ContainerUsage Q)
  updated set container none before = before
  updated set container (some v) before = some (set v (usage_or_new container before))

  module _ {F : Type 0} ⦃f : Float64 F⦄ where
    updated_step :
        (set : F → ContainerUsage Q → ContainerUsage Q)
        → ((v w : F) (u : ContainerUsage Q) → set w (set v u) ≡ set w u)
        → (container : String) (same : Bool) (v : F) (later : Option F)
          (before : Option (ContainerUsage Q))
        → updated set container later
            (if same then some (set v (usage_or_new container before)) else before)
          ≡ updated set container (or_else later (if same then some v else none)) before
    updated_step set twice container true v none before = refl
    updated_step set twice container true v (some w) before =
        ap some (twice v w (usage_or_new container before))
    updated_step set twice container false v none before = refl
    updated_step set twice container false v (some w) before = refl

    -- The usage of a container by the last values of the two queries.
    abbrev pub usage_of : String → Option F → Option F → Option (ContainerUsage Q)
    usage_of container none none = none
    usage_of container (some c) none =
        some (record { container = container; cpu = cpu_of c; memory = q.zero_quantity })
    usage_of container none (some m) =
        some (record { container = container; cpu = q.zero_quantity; memory = memory_of m })
    usage_of container (some c) (some m) =
        some (record { container = container; cpu = cpu_of c; memory = memory_of m })

    usage_of-eq :
        (container : String) (c m : Option F)
        → updated set_memory container m (updated set_cpu container c none) ≡ usage_of container c m
    usage_of-eq container none none = refl
    usage_of-eq container (some c) none = refl
    usage_of-eq container none (some m) = refl
    usage_of-eq container (some c) (some m) = refl

    entry-assign_all :
        (set : F → ContainerUsage Q → ContainerUsage Q)
        → ((v w : F) (u : ContainerUsage Q) → set w (set v u) ≡ set w u)
        → (pod container : String) (ss : List (PromSample F)) (m : ByPod Q)
        → entry pod container (assign_all set ss m)
          ≡ updated set container (last_or none pod container ss) (entry pod container m)
    unfolding assign_all
    entry-assign_all set twice pod container [] m = refl
    entry-assign_all set twice pod container (s ∷ ss) m =
        let same = str_eq s.pod pod && str_eq s.container container in
        let later = last_or none pod container ss in
        entry-assign_all set twice pod container ss (assign s.pod s.container (set s.value) m)
        ∙ ap (updated set container later)
            (entry-assign s.pod s.container pod container (set s.value) m)
        ∙ updated_step set twice container same s.value later (entry pod container m)
        ∙ ap (λ o. updated set container o (entry pod container m))
            (sym (last_or-eq (if same then some s.value else none) pod container ss))

    -- The merged map has an entry for exactly the containers with a sample, and it holds
    -- the last CPU sample in milli-cores and the last memory sample in bytes, and zero for a query
    -- without a sample of the container.
    pub entry-merge_samples :
        (cpu mem : List (PromSample F)) (pod container : String)
        → entry pod container (merge_samples cpu mem)
          ≡ usage_of container (last_or none pod container cpu) (last_or none pod container mem)
    unfolding merge_samples
    entry-merge_samples cpu mem pod container =
        entry-assign_all set_memory (λ v w u. refl) pod container mem (assign_all set_cpu cpu [])
        ∙ ap (updated set_memory container (last_or none pod container mem))
            (entry-assign_all set_cpu (λ v w u. refl) pod container cpu [])
        ∙ usage_of-eq container (last_or none pod container cpu) (last_or none pod container mem)
