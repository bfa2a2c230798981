-- ===== src/Controller/Bounds/Validated.antt =====
-- What a validated spec guarantees of every clamped quantity.
use Prim.Native.Nat.{Ordering}
use kubera.Base.{
  ◌≡◌, refl, arith, ◌≢◌, true, false, Option, none, some, String, List, [], ◌∷◌, str_eq,
  if◌then◌else◌, lookup, contains, insert, lookup-insert, eq_iff, ap,
}
use kubera.Kube.Quantity.{Quantity, IsQuantity}
use kubera.Api.{ResourceBounds, ResourcePolicy, ContainerOverride, DynamicResourceSpec}
use kubera.Controller.Bounds.{
  find_override, bounds_for, clamp_quantity, inverted, check_overrides, validate_bounds, is_gt,
  max_memory_bounds, max_memory_loop, memory_of,
}

module _ {Q : Type 0} ⦃q : Quantity Q⦄ where
  -- Not below the minimum, nor above the maximum.
  abbrev pub IsWithin : Q → ResourceBounds Q → Type 0
  IsWithin a bounds = (q.cmp a bounds.min ≢ Ordering.lt) × (q.cmp a bounds.max ≢ Ordering.gt)

  clamp_quantity-IsWithin :
      IsQuantity Q
      → (a : Q) (bounds : ResourceBounds Q) → is_gt (q.cmp bounds.min bounds.max) ≡ false
      → IsWithin (clamp_quantity a bounds) bounds
  unfolding clamp_quantity
  clamp_quantity-IsWithin laws a bounds h = ground (
    arith,
    laws.cmp_refl bounds.min,
    laws.cmp_refl bounds.max,
    laws.cmp_lt bounds.max bounds.min,
    laws.cmp_gt bounds.max bounds.min,
  )

  check_overrides-find_override :
      (os : List (ContainerOverride Q)) (name : String) (o : ContainerOverride Q)
      → check_overrides os ≡ none
      → find_override os name ≡ some o
      → (inverted o.cpu ≡ false) × (inverted o.memory ≡ false)
  unfolding check_overrides find_override
  check_overrides-find_override [] name found h e = cc
  check_overrides-find_override (o ∷ os) name found h e =
      ground (arith, check_overrides-find_override os name found)

  bounds_for-upright :
      (policy : ResourcePolicy Q) (o : Option (ContainerOverride Q))
      → is_gt (q.cmp policy.cpu.min policy.cpu.max) ≡ false
      → is_gt (q.cmp policy.memory.min policy.memory.max) ≡ false
      → ((found : ContainerOverride Q)
          → o ≡ some found
          → (inverted found.cpu ≡ false) × (inverted found.memory ≡ false))
      → let (cpu, mem) = bounds_for policy o in
        (is_gt (q.cmp cpu.min cpu.max) ≡ false) × (is_gt (q.cmp mem.min mem.max) ≡ false)
  unfolding bounds_for
  bounds_for-upright policy none hc hm h = (hc, hm)
  bounds_for-upright policy (some o) hc hm h = ground (arith, h o refl)

  validate_bounds-none :
      {S : Type 0} (spec : DynamicResourceSpec Q S)
      → validate_bounds spec ≡ none
      → (is_gt (q.cmp spec.resources.cpu.min spec.resources.cpu.max) ≡ false)
        × (is_gt (q.cmp spec.resources.memory.min spec.resources.memory.max) ≡ false)
        × (check_overrides spec.container_overrides ≡ none)
  unfolding validate_bounds
  validate_bounds-none spec h = (ground arith, ground arith, ground arith)

  -- Where the spec passes the validation, whatever quantity is clamped to the bounds that hold for a
  -- container, those of the spec or of the container's override, ends up within them. This is for
  -- CPU and for memory.
  pub clamp_quantity-validated :
      {S : Type 0}
      → IsQuantity Q
      → (spec : DynamicResourceSpec Q S) (name : String) (a : Q) → validate_bounds spec ≡ none
      → let (cpu, mem) = bounds_for spec.resources (find_override spec.container_overrides name) in
        IsWithin (clamp_quantity a cpu) cpu × IsWithin (clamp_quantity a mem) mem
  clamp_quantity-validated laws spec name a h =
      let o = find_override spec.container_overrides name in
      let (cpu_ok, mem_ok, overrides_ok) = validate_bounds-none spec h in
      let (cpu_up, mem_up) = bounds_for-upright spec.resources o cpu_ok mem_ok (λ found e.
        check_overrides-find_override spec.container_overrides name found overrides_ok e) in
      let (cpu, mem) = bounds_for spec.resources o in
      (clamp_quantity-IsWithin laws a cpu cpu_up, clamp_quantity-IsWithin laws a mem mem_up)

memory_of-eq :
    {Q : Type 0} (policy : ResourcePolicy Q) (o : Option (ContainerOverride Q))
    → memory_of policy.memory o ≡ (bounds_for policy o).1
unfolding bounds_for
memory_of-eq policy none = refl
memory_of-eq policy (some o) = refl

-- The maximum of the memory bounds that hold for a container.
pub max_memory : {Q S : Type 0} → DynamicResourceSpec Q S → String → Q
max_memory spec name =
    (bounds_for spec.resources (find_override spec.container_overrides name)).1.max

max_memory_loop-lookup :
    {Q S : Type 0} (spec : DynamicResourceSpec Q S) (names : List String) (out : List (String × Q))
    (name : String)
    → lookup name (max_memory_loop spec names out)
      ≡ (if contains name names then some (max_memory spec name) else lookup name out)
unfolding max_memory_loop max_memory
max_memory_loop-lookup spec [] out name = refl
max_memory_loop-lookup spec (n ∷ names) out name =
    let top = λ (k : String).
      (memory_of spec.resources.memory (find_override spec.container_overrides k)).max in
    ground (
      arith,
      max_memory_loop-lookup spec names (insert n (top n) out) name,
      lookup-insert n name (top n) out,
      λ (e : str_eq n name ≡ true). ap top ((eq_iff n name).0 e),
      ap (λ (b : ResourceBounds _). b.max)
          (memory_of-eq spec.resources (find_override spec.container_overrides name)),
    )

-- The map that bounds the OOM fast path holds exactly the containers it was asked for, each with
-- the maximum of the bounds that also bound its recommendation.
pub max_memory_bounds-lookup :
    {Q S : Type 0} (spec : DynamicResourceSpec Q S) (names : List String) (name : String)
    → lookup name (max_memory_bounds spec names)
      ≡ (if contains name names then some (max_memory spec name) else none)
unfolding max_memory_bounds
max_memory_bounds-lookup spec names name = max_memory_loop-lookup spec names [] name
