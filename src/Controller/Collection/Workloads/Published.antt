-- ===== src/Controller/Collection/Workloads/Published.antt =====
-- internal/controller/recommendation.go: what `computeRecommendations` returns.
use kubera.Base.{
  ◌≡◌, refl, sym, ap, subst, true, false, Option, none, some, inl, inr, List, [], ◌∷◌, All, Among,
  All-map, All-append, Bool-cases, Option-cases, IsAscending, sort_by-IsAscending, sort_by-All,
  String,
}
use kubera.Go.Float64.{Float64}
use kubera.Kube.Quantity.{Quantity, IsQuantity}
use kubera.Api.{DynamicResourceSpec, ContainerRecommendation, WorkloadRecommendation}
use kubera.Recommender.States.{Recommender, recommend}
use kubera.Controller.Conflicts.{Deployment}
use kubera.Controller.Bounds.{find_override, bounds_for, validate_bounds}
use kubera.Controller.Bounds.Validated.{IsWithin}
use kubera.Controller.Targets.{percentiles}
use kubera.Controller.Targets.Bounded.{target_of-IsWithin}
use kubera.Controller.Collection.{
  Outcome, ok, err, panic, then_do, Samples, provider_for, is_managed, recommend_containers,
  sorted_keys,
}
use kubera.Controller.Collection.Workloads.{
  Source, Computed, with_containers, published, compute_workload, compute_workloads,
  compute_recommendations, workload_name, sorted,
}

module _ {A : Type 0} where
  Among-map : {P R : A → Type 0} (xs : List A) → ((x : A) → P x → R x) → Among P xs → Among R xs
  Among-map [] f h = elim h [ ]
  Among-map (x ∷ xs) f (inl h) = inl (f x h)
  Among-map (x ∷ xs) f (inr h) = inr (Among-map xs f h)

  -- Every item of a list is among them.
  All-Among : (xs : List A) → All (λ x. Among (λ y. y ≡ x) xs) xs
  All-Among [] = tt
  All-Among (x ∷ xs) = (inl refl, All-map xs (λ y h. inr h) (All-Among xs))

module _ {Q : Type 0} ⦃q : Quantity Q⦄ where
  -- A container that is not `Off`, with a target that is not a nil map, of CPU and memory within its bounds.
  abbrev pub IsTarget : {S : Type 0} → DynamicResourceSpec Q S → ContainerRecommendation Q → Type 0
  IsTarget spec c =
      let o = find_override spec.container_overrides c.container_name in
      let bounds = bounds_for spec.resources o in
      (c.is_nil_target ≡ false)
      × (is_managed o ≡ true)
      × ((cpu : Q) × (mem : Q) × (c.target
            ≡ record { cpu = some cpu; memory = some mem; others = [] })
          × IsWithin cpu bounds.0
          × IsWithin mem bounds.1)

  module _ {S P L : Type 0} (x : Source Q S P L) (matched : List (Deployment S L)) where
    -- Of a matched deployment, with at least one container, each with a target within its bounds.
    abbrev pub IsPublished : WorkloadRecommendation Q → Type 0
    IsPublished w =
        Among (λ d. d.name ≡ w.workload) matched
        × ((c : ContainerRecommendation Q) × (cs : List (ContainerRecommendation Q)) × (w.containers
              ≡ c ∷ cs))
        × All (IsTarget x.spec) w.containers

    -- The usage of the deployment's pods can not be read.
    abbrev pub IsUnread : Deployment S L → Type 0
    IsUnread d =
        (p : P) × (x.selectors.compile d.pod_selector ≡ some p)
        × (provider_for x.spec.metrics x.metrics x.prometheus x.namespace p ≡ none)

    abbrev IsComputed : {F : Type 0} → Outcome (Computed Q F) (Recommender F) → Type 0
    IsComputed (ok c) = All IsPublished c.recommendations
    IsComputed (err r) = Among IsUnread matched
    IsComputed panic = Unit

    -- The outcome of `compute_recommendations`.
    abbrev pub IsResult : {F : Type 0} → Outcome (Computed Q F) (Recommender F) → Type 0
    IsResult (ok c) =
        IsAscending workload_name c.recommendations × All IsPublished c.recommendations
    IsResult (err r) = Among IsUnread matched
    IsResult panic = Unit

    then_do-IsComputed :
        {F : Type 0} (o : Outcome (Computed Q F) (Recommender F))
        (g : Computed Q F → Outcome (Computed Q F) (Recommender F))
        → IsComputed o
        → ((c : Computed Q F) → All IsPublished c.recommendations → IsComputed (g c))
        → IsComputed (then_do o g)
    then_do-IsComputed (ok c) g h k = k c h
    then_do-IsComputed (err r) g h k = h
    then_do-IsComputed panic g h k = tt

    sorted-IsResult :
        {F : Type 0} (o : Outcome (Computed Q F) (Recommender F))
        → IsComputed o
        → IsResult (then_do o (λ acc. ok (sorted acc)))
    sorted-IsResult (ok c) h = (
      sort_by-IsAscending workload_name c.recommendations,
      sort_by-All workload_name IsPublished c.recommendations h,
    )
    sorted-IsResult (err r) h = h
    sorted-IsResult panic h = tt

    with_containers-IsPublished :
        (workload : String) (cs : List (ContainerRecommendation Q))
        (out : List (WorkloadRecommendation Q))
        → Among (λ d. d.name ≡ workload) matched
        → All (IsTarget x.spec) cs
        → All IsPublished out
        → All IsPublished (with_containers workload cs out)
    with_containers-IsPublished workload [] out m h hs = hs
    with_containers-IsPublished workload (c ∷ cs) out m h hs =
        All-append IsPublished out ((record { workload = workload; containers = c ∷ cs }) ∷ []) hs
          ((m, (c, cs, refl), h), tt)

module _ {Q F : Type 0} ⦃q : Quantity Q⦄ ⦃f : Float64 F⦄ where
  recommend_containers-IsTarget :
      {S : Type 0}
      → IsQuantity Q
      → (spec : DynamicResourceSpec Q S) (namespace workload : String) (r : Recommender F)
        (names : List String)
      → validate_bounds spec ≡ none
      → All (IsTarget spec) (recommend_containers spec namespace workload r names)
  unfolding recommend_containers
  recommend_containers-IsTarget laws spec namespace workload r [] h = tt
  recommend_containers-IsTarget laws spec namespace workload r (name ∷ names) h =
      let rest = recommend_containers-IsTarget laws spec namespace workload r names h in
      let (c, m) = percentiles spec.metrics in
      let raw =
        recommend r (record { namespace = namespace; workload = workload; container = name }) c m in
      elim (Bool-cases (is_managed (find_override spec.container_overrides name))) [
        | inr off ↦ rw off rest
        | inl on ↦ elim (Option-cases raw) [
          | inl nothing ↦ rw (on, nothing) rest
          | inr (readout, e) ↦
              rw (on, e) ((refl, on, target_of-IsWithin laws spec name readout h), rest)
        ]
      ]

  module _ {S P L : Type 0} (laws : IsQuantity Q) (x : Source Q S P L)
      (matched : List (Deployment S L)) (valid : validate_bounds x.spec ≡ none) where
    published-IsComputed :
        (d : Deployment S L) (samples : Option (Samples F)) (acc : Computed Q F)
        → Among (λ e. e ≡ d) matched
        → All (IsPublished x matched) acc.recommendations
        → IsComputed x matched (published x d.name samples acc)
    published-IsComputed d none acc m h = tt
    published-IsComputed d (some samples) acc m h =
        with_containers-IsPublished x matched d.name _ acc.recommendations
          (Among-map matched (λ e same. ap (λ a. a.name) same) m)
          (recommend_containers-IsTarget laws x.spec x.namespace d.name samples.recommender
            (sorted_keys samples.containers) valid)
          h

    compute_workload-IsComputed :
        (d : Deployment S L) (acc : Computed Q F)
        → Among (λ e. e ≡ d) matched
        → All (IsPublished x matched) acc.recommendations
        → IsComputed x matched (compute_workload x d acc)
    unfolding compute_workload
    compute_workload-IsComputed d acc m h =
        elim (Option-cases (x.selectors.compile d.pod_selector)) [
          | inl e ↦ simp e h
          | inr (p, e) ↦
              elim (Option-cases
                (provider_for x.spec.metrics x.metrics x.prometheus x.namespace p)) [
                  | inl unread ↦
                      simp (e, unread)
                        (Among-map matched
                          (λ a same. subst (λ b. IsUnread x matched b) (sym same) (p, e, unread)) m)
                  | inr (pods, read) ↦ simp (e, read) (published-IsComputed d _ acc m h)
                ]
        ]

    compute_workloads-IsComputed :
        (deploys : List (Deployment S L)) (acc : Computed Q F)
        → All (λ d. Among (λ e. e ≡ d) matched) deploys
        → All (IsPublished x matched) acc.recommendations
        → IsComputed x matched (compute_workloads x deploys acc)
    unfolding compute_workloads
    compute_workloads-IsComputed [] acc ms h = h
    compute_workloads-IsComputed (d ∷ deploys) acc ms h =
        then_do-IsComputed x matched (compute_workload x d acc) (compute_workloads x deploys)
          (compute_workload-IsComputed d acc ms.0 h)
          (λ c hc. compute_workloads-IsComputed deploys c ms.1 hc)

    -- Where the spec passes the validation, recommendations that are computed stand in the order of
    -- their workloads' names. Each is of a matched deployment and has at least one container, and
    -- each container is not `Off` and has a target of CPU and memory within its bounds, the memory
    -- also where its maximum is below the minimum recommendation of 32 MiB. An error
    -- comes only from a matched deployment with a valid pod selector whose usage can not be read.
    pub compute_recommendations-IsResult :
        (r : Recommender F) → IsResult x matched (compute_recommendations x matched r)
    unfolding compute_recommendations
    compute_recommendations-IsResult r = sorted-IsResult x matched _ (
        compute_workloads-IsComputed matched
          (record { recommender = r; recommendations = []; usage = [] }) (All-Among matched) tt)
