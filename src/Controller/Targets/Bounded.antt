-- ===== src/Controller/Targets/Bounded.antt =====
-- internal/controller/recommendation.go: the target of a container and its bounds.
use kubera.Base.{◌≡◌, refl, some, none, String, []}
use kubera.Go.Float64.{Float64}
use kubera.Kube.Quantity.{Quantity, IsQuantity}
use kubera.Api.{DynamicResourceSpec}
use kubera.Recommender.States.{Recommendation}
use kubera.Controller.Bounds.{find_override, bounds_for, validate_bounds}
use kubera.Controller.Bounds.Validated.{IsWithin, clamp_quantity-validated}
use kubera.Controller.Targets.{
  target_of, round_up_milli, round_up_bytes, safety_margin, max_float, cpu_rounding_milli,
  mem_rounding_bytes, min_memory_recommendation_bytes,
}

module _ {Q F : Type 0} ⦃q : Quantity Q⦄ ⦃f : Float64 F⦄ where
  -- Where the spec passes the validation, the target of a container has CPU and memory and nothing
  -- else, and both are within the bounds that hold for the container, whatever its usage.
  pub target_of-IsWithin :
      {S : Type 0}
      → IsQuantity Q
      → (spec : DynamicResourceSpec Q S) (name : String) (raw : Recommendation F)
      → validate_bounds spec ≡ none
      → let o = find_override spec.container_overrides name in
        let bounds = bounds_for spec.resources o in
        let target = target_of raw spec.resources o in
        (c : Q) × (m : Q) × (target ≡ record { cpu = some c; memory = some m; others = [] })
        × IsWithin c bounds.0
        × IsWithin m bounds.1
  unfolding target_of
  target_of-IsWithin laws spec name raw h =
      let cpu = round_up_milli (safety_margin raw.cpu_milli) cpu_rounding_milli in
      let mem =
        round_up_bytes
          (max_float (safety_margin raw.mem_bytes) (f.of_int min_memory_recommendation_bytes))
          mem_rounding_bytes in
      (
        _,
        _,
        refl,
        (clamp_quantity-validated laws spec name cpu h).0,
        (clamp_quantity-validated laws spec name mem h).1,
      )
