-- ===== src/Controller/Actuation/Targets/Shared.antt =====
-- internal/controller/actuation.go: the map of targets that the recommendation holds after an
-- assignment to the shared maps.
use text.Mathlib.TextPositions.{eq_refl}
use mathlib.Core.Option.{some-injective}
use kubera.Base.{
  ◌≡◌, ◌≢◌, ◌∙◌, subst, refl, sym, arith, Bool, true, false, ◌||◌, Option, none, some, String, List,
  [], ◌∷◌, All, lookup, insert, lookup-insert, str_eq, eq_iff, Bool-cases, inl, inr,
}
use kubera.Kube.Objects.{ResourceList}
use kubera.Api.{ContainerRecommendation}
use kubera.Actuator.Qos.{has_entries}
use kubera.Controller.Coupling.Results.{IsKept}
use kubera.Controller.Actuation.Targets.{targets_of, target_or, share_containers}

module _ {Q : Type 0} where
  -- Whether a container of this name has a recommendation.
  is_named : String → List (ContainerRecommendation Q) → Bool
  is_named n [] = false
  is_named n (c ∷ cs) = str_eq c.container_name n || is_named n cs

  targets_of-unnamed :
      (n : String) (cs : List (ContainerRecommendation Q))
      (targets : List (String × ResourceList Q))
      → is_named n cs ≡ false
      → lookup n (targets_of cs targets) ≡ lookup n targets
  unfolding is_named targets_of
  targets_of-unnamed n [] targets h = refl
  targets_of-unnamed n (c ∷ cs) targets h = ground (
    arith,
    targets_of-unnamed n cs (insert c.container_name c.target targets),
    lookup-insert c.container_name n c.target targets,
  )

  is_named-share :
      (n : String) (targets : List (String × ResourceList Q))
      (cs : List (ContainerRecommendation Q))
      → is_named n (share_containers targets cs) ≡ is_named n cs
  unfolding is_named
  is_named-share n targets [] = refl
  is_named-share n targets (c ∷ cs) = rw (is_named-share n targets cs) refl

  -- A name that has a recommendation has a target.
  targets_of-named :
      (n : String) (cs : List (ContainerRecommendation Q))
      (targets : List (String × ResourceList Q))
      → is_named n cs ≡ true
      → (t : ResourceList Q) × (lookup n (targets_of cs targets) ≡ some t)
  unfolding is_named targets_of
  targets_of-named n [] targets h = cc
  targets_of-named n (c ∷ cs) targets h = elim (Bool-cases (is_named n cs)) [
    | inl later ↦ targets_of-named n cs (insert c.container_name c.target targets) later
    | inr last ↦ (
      c.target,
      targets_of-unnamed n cs (insert c.container_name c.target targets) last
          ∙ (lookup-insert c.container_name n c.target targets ∙ ground arith),
    )
  ]

  -- What is assigned to the map of a name is what its recommendation holds.
  shared-named :
      (n : String) (after : List (String × ResourceList Q)) (cs : List (ContainerRecommendation Q))
      (targets : List (String × ResourceList Q)) {t : ResourceList Q}
      → is_named n cs ≡ true
      → lookup n after ≡ some t
      → lookup n (targets_of (share_containers after cs) targets) ≡ some t
  unfolding is_named targets_of
  shared-named n after [] targets h e = cc
  shared-named n after (c ∷ cs) targets {t} h e = elim (Bool-cases (is_named n cs)) [
    | inl later ↦ shared-named n after cs _ later e
    | inr last ↦
        let same : c.container_name ≡ n = (eq_iff c.container_name n).0 (ground arith) in
        let target = target_or (lookup c.container_name after) c.target in
        let taken : target ≡ t = rw (same, e) refl in
        targets_of-unnamed n (share_containers after cs) (insert c.container_name target targets)
          (is_named-share n after cs ∙ last)
        ∙ (lookup-insert c.container_name n target targets ∙ ground (arith))
  ]

  -- The shared maps and the map of targets after the assignments agree on every name.
  pub shared-eq :
      (cs : List (ContainerRecommendation Q)) (after : List (String × ResourceList Q))
      → ((name : String) → IsKept (lookup name (targets_of cs [])) (lookup name after))
      → (name : String)
      → lookup name (targets_of (share_containers after cs) []) ≡ lookup name after
  shared-eq cs after kept name = elim (Bool-cases (is_named name cs)) [
    | inl named ↦
        let (t, e) = targets_of-named name cs [] named in
        let (t', e', _) = (kept name).something t e in
        shared-named name after cs [] named e' ∙ sym e'
    | inr unnamed ↦
        targets_of-unnamed name (share_containers after cs) []
          (is_named-share name after cs ∙ unnamed)
        ∙ sym ((kept name).nothing (targets_of-unnamed name cs [] unnamed))
  ]

  pub share_containers-nil :
      (after : List (String × ResourceList Q)) (cs : List (ContainerRecommendation Q))
      → cs ≢ []
      → share_containers after cs ≢ []
  share_containers-nil after [] h = absurd (h refl)
  share_containers-nil after (c ∷ cs) h = λ e. cc e

  some_entry :
      (n : String) (m : List (String × ResourceList Q)) {t : ResourceList Q}
      → lookup n m ≡ some t
      → m ≢ []
  some_entry n m e = λ empty. let nothing = rw empty at e in cc

  pub targets_of-nil : (cs : List (ContainerRecommendation Q)) → cs ≢ [] → targets_of cs [] ≢ []
  unfolding is_named
  targets_of-nil [] h = absurd (h refl)
  targets_of-nil (c ∷ cs) h =
      let (t, e) =
        targets_of-named c.container_name (c ∷ cs) [] (ground (arith, eq_refl c.container_name)) in
      some_entry c.container_name (targets_of (c ∷ cs) []) e

  -- Every target has a resource.
  unfoldable pub Filled : List (ContainerRecommendation Q) → Type 0
  Filled = All (λ c. has_entries (some c.target) ≡ true)

  targets_of-has_entries :
      (cs : List (ContainerRecommendation Q)) (targets : List (String × ResourceList Q))
      → Filled cs
      → ((n : String) (t : ResourceList Q)
          → lookup n targets ≡ some t
          → has_entries (some t) ≡ true)
      → (n : String) (t : ResourceList Q) → lookup n (targets_of cs targets) ≡ some t
      → has_entries (some t) ≡ true
  unfolding targets_of Filled
  targets_of-has_entries [] targets filled h = h
  targets_of-has_entries (c ∷ cs) targets filled h =
      targets_of-has_entries cs (insert c.container_name c.target targets) filled.1 (λ n t e.
        elim (Bool-cases (str_eq c.container_name n)) [
          | inl same ↦
              let e' = rw (lookup-insert c.container_name n c.target targets, same) at e in
              subst (λ t. has_entries (some t) ≡ true) (some-injective _ _ e') filled.0
          | inr other ↦ h n t (rw (lookup-insert c.container_name n c.target targets, other) at e)
        ])

  kept-has_entries :
      (before after : Option (ResourceList Q))
      → IsKept before after
      → ((t : ResourceList Q) → before ≡ some t → has_entries (some t) ≡ true)
      → (t : ResourceList Q) → after ≡ some t
      → has_entries (some t) ≡ true
  kept-has_entries none after kept h t e = let nothing = kept.nothing refl in cc
  kept-has_entries (some b) after kept h t e =
      let (t', e', filled) = kept.something b refl in
      subst (λ t. has_entries (some t) ≡ true) (some-injective _ _ (sym e' ∙ e)) (filled (h b refl))

  target_or-has_entries :
      (o : Option (ResourceList Q)) (target : ResourceList Q)
      → ((t : ResourceList Q) → o ≡ some t → has_entries (some t) ≡ true)
      → has_entries (some target) ≡ true
      → has_entries (some (target_or o target)) ≡ true
  target_or-has_entries none target h filled = filled
  target_or-has_entries (some t) target h filled = h t refl

  share_containers-Filled :
      (after : List (String × ResourceList Q)) (cs : List (ContainerRecommendation Q))
      → ((n : String) (t : ResourceList Q) → lookup n after ≡ some t → has_entries (some t) ≡ true)
      → Filled cs
      → Filled (share_containers after cs)
  unfolding Filled
  share_containers-Filled after [] h filled = tt
  share_containers-Filled after (c ∷ cs) h filled = (
    target_or-has_entries (lookup c.container_name after) c.target (h c.container_name) filled.0,
    share_containers-Filled after cs h filled.1,
  )

  pub shared-Filled :
      (cs : List (ContainerRecommendation Q)) (after : List (String × ResourceList Q))
      → ((name : String) → IsKept (lookup name (targets_of cs [])) (lookup name after))
      → Filled cs
      → Filled (share_containers after cs)
  shared-Filled cs after kept filled =
      share_containers-Filled after cs
        (λ n t e.
          kept-has_entries (lookup n (targets_of cs [])) (lookup n after) (kept n)
            (targets_of-has_entries cs [] filled (λ n t e. cc) n) t e)
        filled
