-- ===== src/Webhook/Sized.antt =====
-- internal/webhook/pod_webhook.go: the requests of a container after `applyTarget`.
use kubera.Base.{
  ◌≡◌, ◌∙◌, sym, refl, subst, arith, true, ◌||◌, Option, none, some, Bool-cases, Option-cases, ◌⊎◌,
  inl, inr,
}
use kubera.Go.Float64.{Float64}
use kubera.Kube.Quantity.{Quantity, IsQuantity}
use kubera.Kube.Objects.{ResourceName, cpu, memory, ResourceList, Container, index, or_zero}
use kubera.Webhook.{
  Approximate, put_in, set_limit, apply_resource, apply_target, with_target, inject_one,
}

index-put_in :
    {Q : Type 0} (name : ResourceName) (new : Q) (r : Option (ResourceList Q)) {cur : Q}
    → index name r ≡ some cur
    → index name (put_in name new r) ≡ some new
index-put_in cpu new none h = cc
index-put_in memory new none h = cc
index-put_in cpu new (some l) h = refl
index-put_in memory new (some l) h = refl

-- A resource that no resize is about: the container does not request it, there is no recommendation
-- for it, or the request is the recommendation.
unfoldable pub IsSized : {Q : Type 0} ⦃q : Quantity Q⦄ → Option Q → Option Q → Type 0
IsSized ⦃q⦄ request want =
    ((q.is_zero (or_zero request) || q.is_zero (or_zero want)) ≡ true)
    ⊎ (or_zero request ≡ or_zero want)

-- Both resources of a container.
unfoldable pub IsSettled : {Q : Type 0} ⦃q : Quantity Q⦄ → Container Q → ResourceList Q → Type 0
IsSettled c target =
    IsSized (index cpu c.requests) target.cpu × IsSized (index memory c.requests) target.memory

module _ {Q F : Type 0} ⦃q : Quantity Q⦄ ⦃f : Float64 F⦄ (a : Approximate Q F) where
  set_limit-requests :
      (name : ResourceName) (lim : Option Q) (cur new : Q) (c : Container Q)
      → (set_limit a name lim cur new c).requests ≡ c.requests
  set_limit-requests name none cur new c = refl
  set_limit-requests name (some lim) cur new c = refl

  apply_resource-IsSized :
      IsQuantity Q
      → (name : ResourceName) (want : Option Q) (c : Container Q)
      → IsSized (index name (apply_resource a name want c).requests) want
  unfolding IsSized
  apply_resource-IsSized laws name none c = inl (ground (arith, laws.zero-is_zero))
  apply_resource-IsSized laws name (some want) c = elim (Option-cases (index name c.requests)) [
    | inl e ↦ inl (rw (e, e) (ground (arith, laws.zero-is_zero)))
    | inr (cur, e) ↦ elim (Bool-cases (q.is_zero cur)) [
      | inl zero ↦ inl (rw (e, zero, e) (rw zero refl))
      | inr other ↦
          let kept = set_limit-requests name (index name c.limits) cur want c in
          inr (rw (e, other, kept, index-put_in name want c.requests e) refl)
    ]
  ]

  index-put_memory :
      (want : Q) (r : Option (ResourceList Q)) → index cpu (put_in memory want r) ≡ index cpu r
  index-put_memory want none = refl
  index-put_memory want (some l) = refl

  apply_memory-cpu :
      (want : Option Q) (c : Container Q)
      → index cpu (apply_resource a memory want c).requests ≡ index cpu c.requests
  apply_memory-cpu none c = refl
  apply_memory-cpu (some want) c = elim (Option-cases (index memory c.requests)) [
    | inl e ↦ rw e refl
    | inr (cur, e) ↦ elim (Bool-cases (q.is_zero cur)) [
      | inl zero ↦ rw (e, zero) refl
      | inr other ↦
          let kept = set_limit-requests memory (index memory c.limits) cur want c in
          rw (e, other, kept, index-put_memory) refl
    ]
  ]

  apply_target-IsSettled :
      IsQuantity Q
      → (c : Container Q) (target : ResourceList Q) → IsSettled (apply_target a c target) target
  unfolding IsSettled apply_target
  apply_target-IsSettled laws c target =
      let with_cpu = apply_resource a cpu target.cpu c in
      (
        rw (apply_memory-cpu target.memory with_cpu) (apply_resource-IsSized laws cpu target.cpu c),
        apply_resource-IsSized laws memory target.memory with_cpu,
      )

  -- A container without requests has nothing to resize.
  unrequested :
      IsQuantity Q
      → (c : Container Q) (target : ResourceList Q) → c.requests ≡ none
      → IsSettled c target
  unfolding IsSettled IsSized
  unrequested laws c target e =
      rw e (inl (ground (arith, laws.zero-is_zero)), inl (ground (arith, laws.zero-is_zero)))

  with_target-IsSettled :
      (c : Container Q) (target : ResourceList Q) {r : Option (ResourceList Q)}
      → c.requests ≡ r
      → IsSettled (with_target a r c target) target
      → IsSettled (inject_one a c (some target)) target
  with_target-IsSettled c target e h =
      subst (λ r. IsSettled (with_target a r c target) target) (sym e) h

  pub inject_one-IsSettled :
      IsQuantity Q
      → (c : Container Q) (target : ResourceList Q)
      → IsSettled (inject_one a c (some target)) target
  inject_one-IsSettled laws c target = elim (Option-cases c.requests) [
    | inl e ↦ with_target-IsSettled c target e (unrequested laws c target e)
    | inr (requests, e) ↦ with_target-IsSettled c target e (apply_target-IsSettled laws c target)
  ]

  set_limit-name :
      (name : ResourceName) (lim : Option Q) (cur new : Q) (c : Container Q)
      → (set_limit a name lim cur new c).name ≡ c.name
  set_limit-name name none cur new c = refl
  set_limit-name name (some lim) cur new c = refl

  apply_resource-name :
      (name : ResourceName) (want : Option Q) (c : Container Q)
      → (apply_resource a name want c).name ≡ c.name
  apply_resource-name name none c = refl
  apply_resource-name name (some want) c = elim (Option-cases (index name c.requests)) [
    | inl e ↦ rw e refl
    | inr (cur, e) ↦ elim (Bool-cases (q.is_zero cur)) [
      | inl zero ↦ rw (e, zero) refl
      | inr other ↦ rw (e, other) (set_limit-name name (index name c.limits) cur want c)
    ]
  ]

  with_target-name :
      (r : Option (ResourceList Q)) (c : Container Q) (target : ResourceList Q)
      → (with_target a r c target).name ≡ c.name
  unfolding apply_target
  with_target-name none c target = refl
  with_target-name (some requests) c target =
      apply_resource-name memory target.memory (apply_resource a cpu target.cpu c)
      ∙ apply_resource-name cpu target.cpu c

  pub inject_one-name :
      (c : Container Q) (target : Option (ResourceList Q)) → (inject_one a c target).name ≡ c.name
  inject_one-name c none = refl
  inject_one-name c (some target) = with_target-name c.requests c target
