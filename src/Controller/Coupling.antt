-- ===== src/Controller/Coupling.antt =====
-- internal/controller/actuation.go: `coordinateHPA`, the guards of the coupled control loops.
pub mod Floors
pub mod Results
pub mod Panics
use Prim.Native.Nat.{Ordering}
use kubera.Base.{
  ℕ, ◌*◌, Bool, true, false, not, ◌&&◌, ◌||◌, Option, none, some, String, List, [], ◌∷◌, lookup,
  if◌then◌else◌, ltb, ℤ, pos, ltb_ℤ,
}
use kubera.Go.Float64.{Float64}
use kubera.Go.Time.{Time, Duration, minute}
use kubera.Kube.Quantity.{Quantity}
use kubera.Kube.Objects.{ResourceList, Autoscaler, or_zero}
use kubera.Api.{
  HpaMode, HpaState, unset, idle, scaling, at_max_vertical, HpaCoordination, DynamicResourceSpec,
}
use kubera.Coordination.{find_hpa, is_scaling, target_utilization, request_floor}
use kubera.Controller.Bounds.{is_lt, container_bounds}

-- `ContainerUsageSnapshot` of recommendation.go.
pub record ContainerUsageSnapshot (F : Type 0) : Type 0 where
  pub cpu_milli : F
  pub mem_bytes : F

-- The settings with their defaults: the settle window, the pause and the headroom.
pub record Settings : Type 0 where
  pub settle : Duration
  pub pause : Bool
  pub headroom : ℤ

-- How `coordinateHPA` ends: the error of the listing, a panic on a nil map, or the state and the
-- targets as they are left.
pub data Coordinated (Q : Type 0) : Type 0 where
  unlisted nil_write : Coordinated Q
  coordinated : HpaState → List (String × ResourceList Q) → Coordinated Q

abbrev default_cooldown_after_hpa : Duration
default_cooldown_after_hpa = pos (10 * minute)

abbrev or_default : {A : Type 0} → Option A → A → A
or_default none default = default
or_default (some a) default = a

unfoldable pub settings : Option HpaCoordination → Settings
settings none = record { settle = default_cooldown_after_hpa; pause = true; headroom = pos 10 }
settings (some cfg) = record {
  settle = or_default cfg.cooldown_after_hpa default_cooldown_after_hpa;
  pause = or_default cfg.pause_while_hpa_scaling true;
  headroom =
      if ltb_ℤ (pos 0) cfg.reserve_headroom_percent then cfg.reserve_headroom_percent else pos 10;
}

abbrev pub is_ignored : Option HpaCoordination → Bool
is_ignored none = false
is_ignored (some cfg) = elim cfg.mode [ HpaMode.ignore ↦ true | _ ↦ false ]

-- A floor is assigned to the zero quantity, which is what a read of a nil map gives.
abbrev pub is_assigned : {Q : Type 0} ⦃q : Quantity Q⦄ → (Q → ℤ) → ℤ → Bool
is_assigned ⦃q⦄ read floor = ltb_ℤ (pos 0) floor && ltb_ℤ (read q.zero_quantity) floor

module _ (Q : Type 0) ⦃q : Quantity Q⦄ {F : Type 0} ⦃f : Float64 F⦄ where
  -- The assignments to the nil map of a container, which panic.
  unfoldable pub writes_floor : Option (ContainerUsageSnapshot F) → ℤ × ℤ → ℤ → Bool
  writes_floor none utilization headroom = false
  writes_floor (some u) (cpu_target, mem_target) headroom =
      is_assigned q.milli_value (request_floor u.cpu_milli cpu_target headroom)
      || is_assigned q.value (request_floor u.mem_bytes mem_target headroom)

  -- Whether the loop over the targets assigns to a nil map, which it does in every order if it
  -- does in one.
  unfoldable pub writes_nil :
      List (String × ContainerUsageSnapshot F) → ℤ × ℤ → ℤ → List (String × Bool) → Bool
  unfolding writes_floor
  writes_nil usage utilization headroom [] = false
  writes_nil usage utilization headroom ((name, is_nil) ∷ rest) =
      is_nil && writes_floor (lookup name usage) utilization headroom
      || writes_nil usage utilization headroom rest

module _ {Q : Type 0} ⦃q : Quantity Q⦄ where
  -- `if floor > 0 { if cur < floor { target[name] = floor } }`.
  abbrev pub raise_to : (Q → ℤ) → (ℤ → Q) → ℤ → Option Q → Option Q
  raise_to read make floor cur =
      if ltb_ℤ (pos 0) floor && ltb_ℤ (read (or_zero cur)) floor then some (make floor) else cur

  module _ {F : Type 0} ⦃f : Float64 F⦄ where
    -- One container's target, in a map that is not nil (else `writes_nil`); without a usage sample
    -- it stays.
    unfoldable pub floor_target :
        Option (ContainerUsageSnapshot F) → ℤ × ℤ → ℤ → ResourceList Q → ResourceList Q
    floor_target none utilization headroom target = target
    floor_target (some u) (cpu_target, mem_target) headroom target = record target {
      cpu =
          raise_to q.milli_value q.new_milli (request_floor u.cpu_milli cpu_target headroom)
            target.cpu;
      memory =
          raise_to q.value q.new_quantity (request_floor u.mem_bytes mem_target headroom)
            target.memory;
    }

    -- The loop over the targets, whose order does not matter: each target is changed by itself.
    unfoldable pub floor_targets :
        List (String × ContainerUsageSnapshot F)
        → ℤ × ℤ
        → ℤ
        → List (String × ResourceList Q)
        → List (String × ResourceList Q)
    floor_targets usage utilization headroom [] = []
    floor_targets usage utilization headroom ((name, target) ∷ rest) =
        (name, floor_target (lookup name usage) utilization headroom target)
        ∷ floor_targets usage utilization headroom rest

  -- `maxCPU.IsZero() || cpu.Cmp(maxCPU) < 0` for no target.
  unfoldable pub all_at_max :
      {S : Type 0} → DynamicResourceSpec Q S → List (String × ResourceList Q) → Bool
  all_at_max spec [] = true
  all_at_max spec ((name, target) ∷ rest) =
      let (_, max_cpu) = container_bounds spec name in
      not (q.is_zero max_cpu || is_lt (q.cmp (or_zero target.cpu) max_cpu)) && all_at_max spec rest

  abbrev pub is_empty : List (String × ResourceList Q) → Bool
  is_empty [] = true
  is_empty (_ ∷ _) = false

  module _ {F : Type 0} ⦃f : Float64 F⦄ where
    abbrev pub coordinate_found :
        {S : Type 0}
        → DynamicResourceSpec Q S
        → Autoscaler
        → List (String × ResourceList Q)
        → List (String × Bool)
        → List (String × ContainerUsageSnapshot F)
        → Time
        → Coordinated Q
    coordinate_found spec hpa targets nils usage now =
        let s = settings spec.hpa in
        let utilization = target_utilization (some hpa) in
        let floored = floor_targets usage utilization s.headroom targets in
        if s.pause && is_scaling (some hpa) s.settle now
        then coordinated scaling targets
        else (if writes_nil Q usage utilization s.headroom nils
            then nil_write
            else (if not (is_empty targets) && all_at_max spec floored
                then coordinated at_max_vertical floored
                else coordinated idle floored))

    abbrev pub coordinate_listed :
        {S : Type 0}
        → DynamicResourceSpec Q S
        → Option Autoscaler
        → List (String × ResourceList Q)
        → List (String × Bool)
        → List (String × ContainerUsageSnapshot F)
        → Time
        → Coordinated Q
    coordinate_listed spec none targets nils usage now = coordinated idle targets
    coordinate_listed spec (some hpa) targets nils usage now =
        coordinate_found spec hpa targets nils usage now

    abbrev pub coordinate_result :
        {S : Type 0}
        → DynamicResourceSpec Q S
        → String
        → Option (List Autoscaler)
        → List (String × ResourceList Q)
        → List (String × Bool)
        → List (String × ContainerUsageSnapshot F)
        → Time
        → Coordinated Q
    coordinate_result spec workload none targets nils usage now = unlisted
    coordinate_result spec workload (some hpas) targets nils usage now =
        coordinate_listed spec (find_hpa hpas workload) targets nils usage now

    -- Over what listing the namespace's autoscalers gives, the entries of the targets, and which of
    -- the targets are nil maps.
    unfoldable pub coordinate_hpa :
        {S : Type 0}
        → DynamicResourceSpec Q S
        → String
        → Option (List Autoscaler)
        → List (String × ResourceList Q)
        → List (String × Bool)
        → List (String × ContainerUsageSnapshot F)
        → Time
        → Coordinated Q
    unfolding settings floor_targets all_at_max writes_nil
    coordinate_hpa spec workload hpas targets nils usage now =
        if is_ignored spec.hpa
        then coordinated idle targets
        else coordinate_result spec workload hpas targets nils usage now

abbrev rank : HpaState → ℕ
rank unset = 0
rank idle = 0
rank at_max_vertical = 1
rank scaling = 2

unfoldable pub worse_hpa_state : HpaState → HpaState → HpaState
worse_hpa_state a b = if ltb (rank a) (rank b) then b else a
