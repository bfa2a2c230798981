-- ===== src/Controller/Bounds.antt =====
-- Bounds in internal/controller: `validateBounds` (dynamicresource_controller.go), `findOverride`,
-- `boundsFor`, `clampQuantity` (recommendation.go), `maxMemoryBounds` and `containerBounds`
-- (actuation.go).
pub mod Validated
use Prim.Native.Nat.{Ordering}
use kubera.Base.{
  Bool, true, false, Option, none, some, get_or, String, List, [], ◌∷◌, str_eq, insert,
  if◌then◌else◌,
}
use kubera.Kube.Quantity.{Quantity}
use kubera.Api.{ResourceBounds, ResourcePolicy, ContainerOverride, DynamicResourceSpec}

unfoldable pub find_override :
    {Q : Type 0} → List (ContainerOverride Q) → String → Option (ContainerOverride Q)
find_override [] name = none
find_override (o ∷ os) name = if str_eq o.container_name name then some o else find_override os name

unfoldable pub bounds_for :
    {Q : Type 0}
    → ResourcePolicy Q
    → Option (ContainerOverride Q)
    → ResourceBounds Q × ResourceBounds Q
bounds_for policy none = (policy.cpu, policy.memory)
bounds_for policy (some o) = (get_or o.cpu policy.cpu, get_or o.memory policy.memory)

abbrev pub is_lt : Ordering → Bool
is_lt Ordering.lt = true
is_lt _ = false

abbrev pub is_gt : Ordering → Bool
is_gt Ordering.gt = true
is_gt _ = false

-- Which bounds are inverted; the message of the error names them and prints both quantities.
pub data InvertedBounds : Type 0 where
  resources_cpu resources_memory : InvertedBounds
  override_cpu override_memory : String → InvertedBounds

module _ {Q : Type 0} ⦃q : Quantity Q⦄ where
  unfoldable pub clamp_quantity : Q → ResourceBounds Q → Q
  clamp_quantity a bounds =
      if is_lt (q.cmp a bounds.min)
      then bounds.min
      else (if is_gt (q.cmp a bounds.max) then bounds.max else a)

  abbrev pub inverted : Option (ResourceBounds Q) → Bool
  inverted none = false
  inverted (some b) = is_gt (q.cmp b.min b.max)

  unfoldable pub check_overrides : List (ContainerOverride Q) → Option InvertedBounds
  check_overrides [] = none
  check_overrides (o ∷ os) =
      if inverted o.cpu
      then some (override_cpu o.container_name)
      else (if inverted o.memory
          then some (override_memory o.container_name)
          else check_overrides os)

  -- `none` is the nil error.
  unfoldable pub validate_bounds : {S : Type 0} → DynamicResourceSpec Q S → Option InvertedBounds
  unfolding check_overrides
  validate_bounds spec =
      if inverted (some spec.resources.cpu)
      then some resources_cpu
      else (if inverted (some spec.resources.memory)
          then some resources_memory
          else check_overrides spec.container_overrides)

abbrev pub memory_of :
    {Q : Type 0} → ResourceBounds Q → Option (ContainerOverride Q) → ResourceBounds Q
memory_of bounds none = bounds
memory_of bounds (some o) = get_or o.memory bounds

-- The loop of `maxMemoryBounds`.
unfoldable pub max_memory_loop :
    {Q S : Type 0} → DynamicResourceSpec Q S → List String → List (String × Q) → List (String × Q)
max_memory_loop spec [] out = out
max_memory_loop spec (name ∷ names) out = max_memory_loop spec names (
    insert name (memory_of spec.resources.memory (find_override spec.container_overrides name)).max
      out)

unfoldable pub max_memory_bounds :
    {Q S : Type 0} → DynamicResourceSpec Q S → List String → List (String × Q)
unfolding max_memory_loop
max_memory_bounds spec containers = max_memory_loop spec containers []

abbrev cpu_of : {Q : Type 0} → ResourceBounds Q → Option (ContainerOverride Q) → ResourceBounds Q
cpu_of bounds none = bounds
cpu_of bounds (some o) = get_or o.cpu bounds

unfoldable pub container_bounds : {Q S : Type 0} → DynamicResourceSpec Q S → String → Q × Q
container_bounds spec container =
    let bounds = cpu_of spec.resources.cpu (find_override spec.container_overrides container) in
    (bounds.min, bounds.max)
