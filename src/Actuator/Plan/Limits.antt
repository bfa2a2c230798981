-- ===== src/Actuator/Plan/Limits.antt =====
-- What the plan for one container may do to requests and limits.
use kubera.Base.{◌≡◌, arith, ℤ, ◌≤ℤ◌, Option, none, some, Bool, true, false, max_ℤ, ◌⊎◌}
use kubera.Go.Float64.{Float64}
use kubera.Kube.Quantity.{Quantity}
use kubera.Kube.Objects.{ResourceList, Container, cpu, memory, index, or_zero}
use kubera.Actuator.Policy.{Policy}
use kubera.Actuator.Clamp.{step_clamp}
use kubera.Actuator.Plan.{
  ContainerChange, resources, scale_limit, ratio_of, plan_limits, keep_pinned, plan_container,
}

keep_pinned-ge : (cur new : ℤ) → cur ≤ℤ keep_pinned true cur new
keep_pinned-ge cur new = ground arith

max_ℤ-ge_right : (a b : ℤ) → b ≤ℤ max_ℤ a b
max_ℤ-ge_right a b = ground arith

-- A planned request and what bounds it: the old limit where limits stay, or a new one.
abbrev pub IsUnder :
    {Q : Type 0}
    → (read : Q → ℤ) (make : ℤ → Q) (field : ResourceList Q → Option Q) → Q
    → ℤ
    → Option (ResourceList Q)
    → Type 0
IsUnder {Q} read make field lim request limits =
    ((limits ≡ none) × (request ≤ℤ read lim))
    ⊎ ((l : ResourceList Q) × (m : ℤ) × (limits ≡ some l)
        × (field l ≡ some (make m))
        × (request ≤ℤ m))

-- A change for a Guaranteed container: requests and limits agree, and memory does not shrink.
abbrev pub IsPinnedChange : {Q : Type 0} ⦃q : Quantity Q⦄ → ContainerChange Q → Container Q → Type 0
IsPinnedChange ⦃q⦄ change c =
    (n : ℤ) × (m : ℤ) × (change.name ≡ c.name)
    × (change.requests ≡ resources n m)
    × (change.limits ≡ some (resources n m))
    × (q.value (or_zero (index memory c.requests)) ≤ℤ m)

module _ {Q F : Type 0} ⦃q : Quantity Q⦄ ⦃f : Float64 F⦄ where
  pub new_cpu : Container Q → ResourceList Q → Policy F → ℤ
  new_cpu c target policy =
      step_clamp (q.milli_value (or_zero (index cpu c.requests)))
        (q.milli_value (or_zero target.cpu)) policy

  pub new_mem : Container Q → ResourceList Q → Policy F → Bool → ℤ
  new_mem c target policy pinned =
      let now = q.value (or_zero (index memory c.requests)) in
      keep_pinned pinned now (step_clamp now (q.value (or_zero target.memory)) policy)

  pub plan_container-pinned :
      (c : Container Q) (target : ResourceList Q) (policy : Policy F) {change : ContainerChange Q}
      {grows : Bool}
      → plan_container c target policy true ≡ some (change, grows)
      → IsPinnedChange change c
  unfolding plan_container plan_limits new_cpu new_mem
  plan_container-pinned c target policy h =
      let now = q.value (or_zero (index memory c.requests)) in
      let next = step_clamp now (q.value (or_zero target.memory)) policy in
      (
        new_cpu c target policy,
        new_mem c target policy true,
        ground arith,
        ground arith,
        ground arith,
        keep_pinned-ge now next,
      )

  -- Where the limits of a pod that is not Guaranteed are planned anew, a memory limit never
  -- decreases.
  pub plan_limits-memory_kept :
      (c : Container Q) (cpu_new mem_new : ℤ) (policy : Policy F) {lim : Q} {l : ResourceList Q}
      → index memory c.limits ≡ some lim
      → (plan_limits c cpu_new mem_new policy false).limits ≡ some l
      → (n : ℤ) × (l.memory ≡ some (q.new_quantity n)) × (q.value lim ≤ℤ n)
  unfolding plan_limits
  plan_limits-memory_kept c cpu_new mem_new policy {lim} has h =
      let req = q.value (or_zero (index memory c.requests)) in
      let new = scale_limit (ratio_of {F = F} (q.value lim) req) mem_new in
      (max_ℤ new (q.value lim), ground arith, max_ℤ-ge_right new (q.value lim))
