-- ===== src/Controller/Coupling/Floors.antt =====
-- internal/controller/actuation.go: what the floors of `coordinateHPA` do to the targets.
use kubera.Base.{
  ℕ, ◌^◌, ◌<◌, ◌≡◌, refl, arith, ℤ, pos, ◌≤ℤ◌, Option, some, String, List, [], ◌∷◌, lookup, eq_iff,
}
use mathlib.Core.Option.{map as Option-map}
use kubera.Go.Float64.{Float64}
use kubera.Kube.Quantity.{Quantity, IsQuantity}
use kubera.Kube.Objects.{ResourceList, or_zero}
use kubera.Coordination.{request_floor}
use kubera.Controller.Coupling.{ContainerUsageSnapshot, raise_to, floor_target, floor_targets}

-- The value that is read afterwards is at least the floor and at least what it was.
raise_to-ge :
    {Q : Type 0} ⦃q : Quantity Q⦄ (read : Q → ℤ) (make : ℤ → Q) (n : ℕ) (cur : Option Q)
    → 0 < n
    → read (make (pos n)) ≡ pos n
    → (pos n ≤ℤ read (or_zero (raise_to read make (pos n) cur)))
      × (read (or_zero cur) ≤ℤ read (or_zero (raise_to read make (pos n) cur)))
raise_to-ge read make n cur h e = (ground arith, ground arith)

module _ {Q F : Type 0} ⦃q : Quantity Q⦄ ⦃f : Float64 F⦄ where
  pub floor_targets-lookup :
      (usage : List (String × ContainerUsageSnapshot F)) (utilization : ℤ × ℤ) (headroom : ℤ)
      (targets : List (String × ResourceList Q)) (name : String)
      → lookup name (floor_targets usage utilization headroom targets)
        ≡ Option-map (floor_target (lookup name usage) utilization headroom) (lookup name targets)
  unfolding floor_targets
  floor_targets-lookup usage utilization headroom [] name = refl
  floor_targets-lookup usage utilization headroom ((j, target) ∷ rest) name =
      ground (arith, eq_iff j name, floor_targets-lookup usage utilization headroom rest name)

  -- Where a container has a usage sample and both floors are positive, its CPU and memory requests
  -- after the floors are at least the floors, are never lower than before, and nothing else of its
  -- target changes.
  pub floor_targets-ge :
      IsQuantity Q
      → (usage : List (String × ContainerUsageSnapshot F)) (cpu_target mem_target headroom : ℤ)
        (targets : List (String × ResourceList Q)) (name : String) {u : ContainerUsageSnapshot F}
        {target : ResourceList Q} (cpu_floor mem_floor : ℕ)
      → lookup name usage ≡ some u
      → lookup name targets ≡ some target
      → request_floor u.cpu_milli cpu_target headroom ≡ pos cpu_floor
      → request_floor u.mem_bytes mem_target headroom ≡ pos mem_floor
      → 0 < cpu_floor
      → cpu_floor < 2 ^ 63
      → 0 < mem_floor
      → mem_floor < 2 ^ 63
      → (after : ResourceList Q) × (lookup name
            (floor_targets usage (cpu_target, mem_target) headroom targets)
          ≡ some after)
        × (pos cpu_floor ≤ℤ q.milli_value (or_zero after.cpu))
        × (pos mem_floor ≤ℤ q.value (or_zero after.memory))
        × (q.milli_value (or_zero target.cpu) ≤ℤ q.milli_value (or_zero after.cpu))
        × (q.value (or_zero target.memory) ≤ℤ q.value (or_zero after.memory))
        × (after.others ≡ target.others)
  unfolding floor_target
  floor_targets-ge laws usage cpu_target mem_target headroom targets name {u} {target} cpu_floor
        mem_floor usage_eq target_eq cpu_eq mem_eq cpu_pos cpu_fits mem_pos mem_fits =
      let (cpu_ge, cpu_kept) =
        raise_to-ge q.milli_value q.new_milli cpu_floor target.cpu cpu_pos
          (laws.milli_value-new_milli cpu_floor cpu_fits) in
      let (mem_ge, mem_kept) =
        raise_to-ge q.value q.new_quantity mem_floor target.memory mem_pos
          (laws.value-new_quantity mem_floor mem_fits) in
      (
        floor_target (some u) (cpu_target, mem_target) headroom target,
        rw
            (
              floor_targets-lookup usage (cpu_target, mem_target) headroom targets name,
              usage_eq,
              target_eq,
            )
            refl,
        rw cpu_eq cpu_ge,
        rw mem_eq mem_ge,
        rw cpu_eq cpu_kept,
        rw mem_eq mem_kept,
        refl,
      )
