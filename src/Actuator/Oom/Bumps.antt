-- ===== src/Actuator/Oom/Bumps.antt =====
-- What the fast path after an OOMKill does to memory.
use kubera.Base.{
  ◌≡◌, arith, ℤ, ◌≤ℤ◌, ◌<ℤ◌, leb_ℤ, Bool, true, false, not, ◌&&◌, some, String, List, contains,
  lookup,
}
use kubera.Go.Float64.{Float64}
use kubera.Kube.Quantity.{Quantity}
use kubera.Kube.Objects.{Container, cpu, memory, index, or_zero}
use kubera.Actuator.Policy.{Policy}
use kubera.Actuator.Plan.{ContainerChange, is_requests_only, resources, plan_limits}
use kubera.Actuator.Oom.{bump_container, cap_max, bumped_memory, oom_bump_factor}

cap_max-le : {Q : Type 0} ⦃q : Quantity Q⦄ (new : ℤ) (m : Q) → cap_max new (some m) ≤ℤ q.value m
cap_max-le new m = ground arith

leb-false : (a b : ℤ) → leb_ℤ a b ≡ false → b <ℤ a
leb-false a b h = ground arith

leb-true : (a b : ℤ) → a ≤ℤ b → leb_ℤ a b ≡ true
leb-true a b h = ground arith

module _ {F : Type 0} ⦃f : Float64 F⦄ {Q : Type 0} ⦃q : Quantity Q⦄ where
  bumped_memory-le :
      (factor : F) (c : Container Q) (max_memory : List (String × Q)) (max : Q)
      → lookup c.name max_memory ≡ some max
      → bumped_memory factor c max_memory ≤ℤ q.value max
  unfolding bumped_memory
  bumped_memory-le factor c max_memory max e = rw e (cap_max-le _ max)

  -- Unless only requests are managed on a pod that is not Guaranteed, a bump keeps the CPU request,
  -- raises the memory request above the current one, and never above the container's maximum.
  pub bump_container_raises :
      (c : Container Q) (oom : List String) (max_memory : List (String × Q)) (policy : Policy F)
      (pinned : Bool) {change : ContainerChange Q}
      → (is_requests_only policy.controlled_values && not pinned) ≡ false
      → bump_container c oom max_memory policy pinned ≡ some change
      → (m : ℤ) × (contains c.name oom ≡ true)
        × (change.name ≡ c.name)
        × (change.requests ≡ resources (q.milli_value (or_zero (index cpu c.requests))) m)
        × (q.value (or_zero (index memory c.requests)) <ℤ m)
        × ((max : Q) → lookup c.name max_memory ≡ some max → m ≤ℤ q.value max)
  unfolding bump_container plan_limits
  bump_container_raises c oom max_memory policy pinned mode h =
      let m = bumped_memory {F = F} oom_bump_factor c max_memory in
      let above : leb_ℤ m (q.value (or_zero (index memory c.requests))) ≡ false = ground arith in
      (
        m,
        ground arith,
        ground arith,
        ground arith,
        leb-false m (q.value (or_zero (index memory c.requests))) above,
        bumped_memory-le oom_bump_factor c max_memory,
      )
