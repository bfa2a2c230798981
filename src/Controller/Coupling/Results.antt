-- ===== src/Controller/Coupling/Results.antt =====
-- internal/controller/actuation.go: the targets that `coordinateHPA` leaves.
use kubera.Base.{
  ◌≡◌, refl, arith, ℤ, true, not, ◌&&◌, subst, Bool, Option, none, some, String, List, lookup, ◌⊎◌,
  inl, inr, Bool-cases,
}
use kubera.Go.Float64.{Float64}
use kubera.Go.Time.{Time}
use kubera.Kube.Quantity.{Quantity}
use kubera.Kube.Objects.{ResourceList, Autoscaler}
use kubera.Api.{HpaState, DynamicResourceSpec}
use kubera.Actuator.Qos.{has_entries}
use kubera.Coordination.{find_hpa, is_scaling, target_utilization}
use kubera.Controller.Coupling.{
  ContainerUsageSnapshot, Coordinated, unlisted, nil_write, coordinated, writes_nil, is_ignored,
  is_empty, settings, all_at_max, floor_target, floor_targets, coordinate_found, coordinate_listed,
  coordinate_result, coordinate_hpa,
}
use kubera.Controller.Coupling.Floors.{floor_targets-lookup}

-- A target stays a target, and one with a resource keeps a resource.
pub record IsKept {Q : Type 0} (before after : Option (ResourceList Q)) : Type 0 where
  pub nothing : before ≡ none → after ≡ none
  pub something :
      (t : ResourceList Q)
      → before ≡ some t
      → (t' : ResourceList Q) × (after ≡ some t')
        × (has_entries (some t) ≡ true → has_entries (some t') ≡ true)

IsKept-refl : {Q : Type 0} (before : Option (ResourceList Q)) → IsKept before before
IsKept-refl before = record { nothing = λ e. e; something = λ t e. (t, e, λ h. h) }

module _ {Q F : Type 0} ⦃q : Quantity Q⦄ ⦃f : Float64 F⦄ where
  floor_target-has_entries :
      (u : Option (ContainerUsageSnapshot F)) (utilization : ℤ × ℤ) (headroom : ℤ)
      (t : ResourceList Q)
      → has_entries (some t) ≡ true
      → has_entries (some (floor_target u utilization headroom t)) ≡ true
  unfolding floor_target
  floor_target-has_entries none utilization headroom t h = h
  floor_target-has_entries (some u) (cpu_target, mem_target) headroom t h = ground arith

  pub floor_targets-IsKept :
      (usage : List (String × ContainerUsageSnapshot F)) (utilization : ℤ × ℤ) (headroom : ℤ)
      (targets : List (String × ResourceList Q)) (name : String)
      → IsKept
          (lookup name targets)
          (lookup name (floor_targets usage utilization headroom targets))
  floor_targets-IsKept usage utilization headroom targets name =
      let floored = floor_targets-lookup usage utilization headroom targets name in
      record {
        nothing = λ e. rw (floored, e) refl;
        something = λ t e. (
          floor_target (lookup name usage) utilization headroom t,
          rw (floored, e) refl,
          floor_target-has_entries (lookup name usage) utilization headroom t,
        );
      }

  -- Either the targets as they were, or the floored ones.
  IsCoordinated :
      List (String × ContainerUsageSnapshot F)
      → List (String × ResourceList Q)
      → List (String × ResourceList Q)
      → Type 0
  IsCoordinated usage targets after =
      (after ≡ targets)
      ⊎ ((utilization : ℤ × ℤ) × (headroom : ℤ) × (after
            ≡ floor_targets usage utilization headroom targets))

  -- The targets that are left, where there are any.
  Leaves :
      List (String × ContainerUsageSnapshot F)
      → List (String × ResourceList Q)
      → Coordinated Q
      → Type 0
  Leaves usage targets unlisted = Unit
  Leaves usage targets nil_write = Unit
  Leaves usage targets (coordinated state after) = IsCoordinated usage targets after

  coordinate_found-Leaves :
      {S : Type 0} (spec : DynamicResourceSpec Q S) (hpa : Autoscaler)
      (targets : List (String × ResourceList Q)) (nils : List (String × Bool))
      (usage : List (String × ContainerUsageSnapshot F)) (now : Time)
      → Leaves usage targets (coordinate_found spec hpa targets nils usage now)
  unfolding IsCoordinated Leaves
  coordinate_found-Leaves spec hpa targets nils usage now =
      let s = settings spec.hpa in
      let utilization = target_utilization (some hpa) in
      let floored = floor_targets usage utilization s.headroom targets in
      let floors : IsCoordinated usage targets floored = inr (utilization, s.headroom, refl) in
      elim (Bool-cases (s.pause && is_scaling (some hpa) s.settle now)) [
        | inl e ↦ rw e (inl refl)
        | inr e ↦ elim (Bool-cases (writes_nil Q usage utilization s.headroom nils)) [
          | inl w ↦ rw (e, w) tt
          | inr w ↦ elim (Bool-cases (not (is_empty targets) && all_at_max spec floored)) [
            | inl k ↦ rw (e, w, k) floors
            | inr k ↦ rw (e, w, k) floors
          ]
        ]
      ]

  coordinate_listed-Leaves :
      {S : Type 0} (spec : DynamicResourceSpec Q S) (hpa : Option Autoscaler)
      (targets : List (String × ResourceList Q)) (nils : List (String × Bool))
      (usage : List (String × ContainerUsageSnapshot F)) (now : Time)
      → Leaves usage targets (coordinate_listed spec hpa targets nils usage now)
  unfolding IsCoordinated Leaves
  coordinate_listed-Leaves spec none targets nils usage now = inl refl
  coordinate_listed-Leaves spec (some hpa) targets nils usage now =
      coordinate_found-Leaves spec hpa targets nils usage now

  coordinate_result-Leaves :
      {S : Type 0} (spec : DynamicResourceSpec Q S) (workload : String)
      (hpas : Option (List Autoscaler)) (targets : List (String × ResourceList Q))
      (nils : List (String × Bool)) (usage : List (String × ContainerUsageSnapshot F)) (now : Time)
      → Leaves usage targets (coordinate_result spec workload hpas targets nils usage now)
  unfolding Leaves
  coordinate_result-Leaves spec workload none targets nils usage now = tt
  coordinate_result-Leaves spec workload (some hpas) targets nils usage now =
      coordinate_listed-Leaves spec (find_hpa hpas workload) targets nils usage now

  coordinate_hpa-Leaves :
      {S : Type 0} (spec : DynamicResourceSpec Q S) (workload : String)
      (hpas : Option (List Autoscaler)) (targets : List (String × ResourceList Q))
      (nils : List (String × Bool)) (usage : List (String × ContainerUsageSnapshot F)) (now : Time)
      → Leaves usage targets (coordinate_hpa spec workload hpas targets nils usage now)
  unfolding IsCoordinated Leaves coordinate_hpa
  coordinate_hpa-Leaves spec workload hpas targets nils usage now =
      elim (Bool-cases (is_ignored spec.hpa)) [
        | inl e ↦ rw e (inl refl)
        | inr e ↦ rw e (coordinate_result-Leaves spec workload hpas targets nils usage now)
      ]

  pub coordinate_hpa-IsKept :
      {S : Type 0} (spec : DynamicResourceSpec Q S) (workload : String)
      (hpas : Option (List Autoscaler)) (targets : List (String × ResourceList Q))
      (nils : List (String × Bool)) (usage : List (String × ContainerUsageSnapshot F)) (now : Time)
      {state : HpaState} {after : List (String × ResourceList Q)}
      → coordinate_hpa spec workload hpas targets nils usage now ≡ coordinated state after
      → (name : String) → IsKept (lookup name targets) (lookup name after)
  unfolding IsCoordinated Leaves
  coordinate_hpa-IsKept spec workload hpas targets nils usage now h name =
      let left = coordinate_hpa-Leaves spec workload hpas targets nils usage now in
      elim (subst (Leaves usage targets) h left) [
        | inl e ↦ rw e (IsKept-refl (lookup name targets))
        | inr (utilization, headroom, e) ↦
            rw e (floor_targets-IsKept usage utilization headroom targets name)
      ]
