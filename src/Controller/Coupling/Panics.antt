-- ===== src/Controller/Coupling/Panics.antt =====
-- internal/controller/actuation.go: when `coordinateHPA` does not panic.
use kubera.Base.{
  ◌≡◌, refl, Bool, false, not, ◌&&◌, Option, none, some, String, List, [], ◌∷◌, All, insert, ℤ,
  str_eq, Bool-cases, inl, inr,
}
use kubera.Go.Float64.{Float64}
use kubera.Go.Time.{Time}
use kubera.Kube.Quantity.{Quantity}
use kubera.Kube.Objects.{ResourceList, Autoscaler}
use kubera.Api.{DynamicResourceSpec}
use kubera.Coordination.{find_hpa, is_scaling, target_utilization}
use kubera.Controller.Coupling.{
  ContainerUsageSnapshot, Coordinated, unlisted, nil_write, coordinated, settings, is_ignored,
  is_empty, writes_nil, floor_targets, all_at_max, coordinate_found, coordinate_listed,
  coordinate_result, coordinate_hpa,
}

-- None of these maps is nil.
abbrev pub NoneNil : List (String × Bool) → Type 0
NoneNil = All (λ e. e.1 ≡ false)

pub insert-NoneNil :
    (name : String) (nils : List (String × Bool)) → NoneNil nils → NoneNil (insert name false nils)
insert-NoneNil name [] h = (refl, tt)
insert-NoneNil name ((j, b) ∷ nils) h = elim (Bool-cases (str_eq j name)) [
  | inl same ↦ rw same (refl, h.1)
  | inr other ↦ rw other (h.0, insert-NoneNil name nils h.1)
]

module _ (Q : Type 0) {F : Type 0} ⦃q : Quantity Q⦄ ⦃f : Float64 F⦄ where
  writes_nil-none :
      (usage : List (String × ContainerUsageSnapshot F)) (utilization : ℤ × ℤ) (headroom : ℤ)
      (nils : List (String × Bool))
      → NoneNil nils
      → writes_nil Q usage utilization headroom nils ≡ false
  unfolding writes_nil
  writes_nil-none usage utilization headroom [] h = refl
  writes_nil-none usage utilization headroom ((name, is_nil) ∷ rest) h =
      rw (h.0, writes_nil-none usage utilization headroom rest h.1) refl

-- There is no panic.
abbrev pub IsQuiet : {Q : Type 0} → Coordinated Q → Type 0
IsQuiet nil_write = ⊥
IsQuiet unlisted = Unit
IsQuiet (coordinated state after) = Unit

module _ {Q S F : Type 0} ⦃q : Quantity Q⦄ ⦃f : Float64 F⦄ (spec : DynamicResourceSpec Q S)
    (targets : List (String × ResourceList Q)) (nils : List (String × Bool))
    (usage : List (String × ContainerUsageSnapshot F)) (now : Time) (h : NoneNil nils) where
  coordinate_found-IsQuiet :
      (hpa : Autoscaler) → IsQuiet (coordinate_found spec hpa targets nils usage now)
  coordinate_found-IsQuiet hpa =
      let s = settings spec.hpa in
      let utilization = target_utilization (some hpa) in
      let floored = floor_targets usage utilization s.headroom targets in
      let quiet = writes_nil-none Q usage utilization s.headroom nils h in
      elim (Bool-cases (s.pause && is_scaling (some hpa) s.settle now)) [
        | inl e ↦ rw e tt
        | inr e ↦ elim (Bool-cases (not (is_empty targets) && all_at_max spec floored)) [
          | inl k ↦ rw (e, quiet, k) tt
          | inr k ↦ rw (e, quiet, k) tt
        ]
      ]

  coordinate_listed-IsQuiet :
      (hpa : Option Autoscaler) → IsQuiet (coordinate_listed spec hpa targets nils usage now)
  coordinate_listed-IsQuiet none = tt
  coordinate_listed-IsQuiet (some hpa) = coordinate_found-IsQuiet hpa

  coordinate_result-IsQuiet :
      (workload : String) (hpas : Option (List Autoscaler))
      → IsQuiet (coordinate_result spec workload hpas targets nils usage now)
  coordinate_result-IsQuiet workload none = tt
  coordinate_result-IsQuiet workload (some hpas) =
      coordinate_listed-IsQuiet (find_hpa hpas workload)

  pub coordinate_hpa-IsQuiet :
      (workload : String) (hpas : Option (List Autoscaler))
      → IsQuiet (coordinate_hpa spec workload hpas targets nils usage now)
  unfolding coordinate_hpa
  coordinate_hpa-IsQuiet workload hpas = elim (Bool-cases (is_ignored spec.hpa)) [
    | inl e ↦ rw e tt
    | inr e ↦ rw e (coordinate_result-IsQuiet workload hpas)
  ]
