-- ===== src/Coordination/Floor.antt =====
-- The floor under a downward resize.
use kubera.Base.{ℕ, ◌-◌, ◌^◌, ◌≤◌, ◌<◌, ◌≡◌, arith, pos}
use kubera.Go.Int64.{sub32}
use kubera.Go.Float64.{Float64}
use kubera.Coordination.{request_floor}

sub32-pos : (a b : ℕ) → b ≤ a → a < 2 ^ 31 → sub32 (pos a) (pos b) ≡ pos (a - b)
unfolding sub32
sub32-pos a b h k = ground arith

module _ {F : Type 0} ⦃f : Float64 F⦄ where
  -- Where the autoscaler does not target the resource, or the headroom takes all of the target,
  -- there is no floor.
  pub request_floor_none :
      (usage : F) (target headroom : ℕ)
      → target < 2 ^ 31
      → headroom < 2 ^ 31
      → target ≤ headroom
      → request_floor usage (pos target) (pos headroom) ≡ pos 0
  unfolding request_floor sub32
  request_floor_none usage target headroom ht hh le = ground arith
