-- ===== src/Actuator/Plan.antt =====
-- internal/actuator/plan.go: `planLimits`, `planContainer` and `PlanPod`.
pub mod Limits
pub mod Pods
use kubera.Base.{
  Option, none, some, Bool, true, false, not, ◌&&◌, ◌||◌, String, List, [], ◌∷◌, ◌++◌,
  if◌then◌else◌, lookup, ℤ, ltb_ℤ, eqb_ℤ, max_ℤ,
}
use kubera.Go.Float64.{Float64}
use kubera.Kube.Quantity.{Quantity}
use kubera.Kube.Objects.{ResourceList, Container, Pod, cpu, memory, index, or_zero}
use kubera.Api.{ControlledValues, requests_only}
use kubera.Actuator.Policy.{Direction, up, down, Policy}
use kubera.Actuator.Clamp.{within_tolerance, step_clamp}
use kubera.Actuator.Qos.{qos_class, is_guaranteed, is_best_effort}

pub record ContainerChange (Q : Type 0) : Type 0 where
  pub name : String
  pub requests : ResourceList Q
  -- `none` leaves the limits as they are.
  pub limits : Option (ResourceList Q)

pub record PodPlan (Q : Type 0) : Type 0 where
  pub pod : String
  pub changes : List (ContainerChange Q)
  pub direction : Direction

-- The request values that `planLimits` may lower in place, and the limits that it returns.
pub record Planned (Q : Type 0) : Type 0 where
  pub cpu_milli : ℤ
  pub mem_bytes : ℤ
  pub limits : Option (ResourceList Q)

abbrev pub is_requests_only : ControlledValues → Bool
is_requests_only requests_only = true
is_requests_only _ = false

-- `int64(float64(new) * (float64(lim) / float64(req)))`.
unfoldable pub scale_limit : {F : Type 0} ⦃f : Float64 F⦄ → F → ℤ → ℤ
scale_limit ⦃f⦄ ratio new = f.to_int (f.mul (f.of_int new) ratio)

abbrev pub ratio_of : {F : Type 0} ⦃f : Float64 F⦄ → ℤ → ℤ → F
ratio_of ⦃f⦄ lim req = f.div (f.of_int lim) (f.of_int req)

-- Memory does not shrink where the request is pinned to the limit.
abbrev keep_pinned : Bool → ℤ → ℤ → ℤ
keep_pinned pinned cur new = if pinned && ltb_ℤ new cur then cur else new

-- `limits`, after `if !hasCPULim && !hasMemLim { return nil }`.
abbrev pub scaled : {Q : Type 0} → Option Q → Option Q → Option (ResourceList Q)
scaled none none = none
scaled cpu_lim mem_lim = some (record { cpu = cpu_lim; memory = mem_lim; others = [] })

-- `continue`, or append the change and raise the direction.
abbrev pub add_change :
    {Q : Type 0}
    → Option (ContainerChange Q × Bool)
    → List (ContainerChange Q) × Direction
    → List (ContainerChange Q) × Direction
add_change none acc = acc
add_change (some (change, grows)) (changes, d) = (changes ++ change ∷ [], if grows then up else d)

-- `if len(plan.Changes) == 0 { return nil }`.
abbrev pub close_plan :
    {Q : Type 0} → String → List (ContainerChange Q) × Direction → Option (PodPlan Q)
close_plan name ([], d) = none
close_plan name (change ∷ changes, d) =
    some (record { pod = name; changes = change ∷ changes; direction = d })

module _ {Q : Type 0} ⦃q : Quantity Q⦄ where
  -- `corev1.ResourceList{cpu: NewMilliQuantity(c), memory: NewQuantity(m)}`.
  abbrev pub resources : ℤ → ℤ → ResourceList Q
  resources c m = record {
    cpu = some (q.new_milli c);
    memory = some (q.new_quantity m);
    others = [];
  }

  -- `if hasLim && *new > lim { *new = lim }`.
  abbrev pub cap : (Q → ℤ) → ℤ → Option Q → ℤ
  cap read new none = new
  cap read new (some lim) = if ltb_ℤ (read lim) new then read lim else new

  -- The values after the tolerance and zero guards, and whether the resize goes up.
  abbrev finish_container : Container Q → ℤ → ℤ → Planned Q → Option (ContainerChange Q × Bool)
  finish_container c cur_cpu cur_mem p =
      if eqb_ℤ p.cpu_milli cur_cpu && eqb_ℤ p.mem_bytes cur_mem
      then none
      else some (
        record { name = c.name; requests = resources p.cpu_milli p.mem_bytes; limits = p.limits },
        ltb_ℤ cur_cpu p.cpu_milli || ltb_ℤ cur_mem p.mem_bytes,
      )

  module _ (F : Type 0) ⦃f : Float64 F⦄ where
    -- The new CPU limit keeps the ratio of limit to request.
    abbrev pub cpu_limit : Container Q → ℤ → Option Q → Option Q
    cpu_limit c new none = none
    cpu_limit c new (some lim) =
        let req = q.milli_value (or_zero (index cpu c.requests)) in
        some (q.new_milli (scale_limit (ratio_of {F = F} (q.milli_value lim) req) new))

    -- So does the new memory limit, but it never decreases.
    abbrev pub mem_limit : Container Q → ℤ → Option Q → Option Q
    mem_limit c new none = none
    mem_limit c new (some lim) =
        let req = q.value (or_zero (index memory c.requests)) in
        some (
          q.new_quantity
            (max_ℤ (scale_limit (ratio_of {F = F} (q.value lim) req) new) (q.value lim)))

  module _ {F : Type 0} ⦃f : Float64 F⦄ where
    unfoldable pub plan_limits : Container Q → ℤ → ℤ → Policy F → Bool → Planned Q
    plan_limits c new_cpu new_mem policy pinned =
        let cpu_lim = index cpu c.limits in
        let mem_lim = index memory c.limits in
        if is_requests_only policy.controlled_values && not pinned
        then record {
          cpu_milli = cap q.milli_value new_cpu cpu_lim;
          mem_bytes = cap q.value new_mem mem_lim;
          limits = none;
        }
        else record {
          cpu_milli = new_cpu;
          mem_bytes = new_mem;
          limits =
              if pinned
              then some (resources new_cpu new_mem)
              else scaled (cpu_limit F c new_cpu cpu_lim) (mem_limit F c new_mem mem_lim);
        }

    -- `none` is `nil, false`.
    unfoldable pub plan_container :
        Container Q → ResourceList Q → Policy F → Bool → Option (ContainerChange Q × Bool)
    plan_container c target policy pinned =
        let cur_cpu = or_zero (index cpu c.requests) in
        let cur_mem = or_zero (index memory c.requests) in
        let want_cpu = or_zero target.cpu in
        let want_mem = or_zero target.memory in
        let cpu_now = q.milli_value cur_cpu in
        let mem_now = q.value cur_mem in
        let new_cpu = step_clamp cpu_now (q.milli_value want_cpu) policy in
        let new_mem = keep_pinned pinned mem_now (step_clamp mem_now (q.value want_mem) policy) in
        if q.is_zero cur_cpu || q.is_zero cur_mem
        then none
        else (if q.is_zero want_cpu || q.is_zero want_mem
            then none
            else (if within_tolerance cpu_now (q.milli_value want_cpu) policy.tolerance
                  && within_tolerance mem_now (q.value want_mem) policy.tolerance
                then none
                else finish_container c cpu_now mem_now
                    (plan_limits c new_cpu new_mem policy pinned)))

    abbrev pub plan_target :
        Container Q → Option (ResourceList Q) → Policy F → Bool → Option (ContainerChange Q × Bool)
    plan_target c none policy pinned = none
    plan_target c (some target) policy pinned = plan_container c target policy pinned

    -- The loop over `pod.Spec.Containers`.
    unfoldable pub plan_loop :
        List (Container Q)
        → List (String × ResourceList Q)
        → Policy F
        → Bool
        → List (ContainerChange Q) × Direction
        → List (ContainerChange Q) × Direction
    plan_loop [] targets policy pinned acc = acc
    plan_loop (c ∷ cs) targets policy pinned acc =
        plan_loop cs targets policy pinned
          (add_change (plan_target c (lookup c.name targets) policy pinned) acc)

  module _ {F : Type 0} ⦃f : Float64 F⦄ where
    unfoldable pub plan_pod : Pod Q → List (String × ResourceList Q) → Policy F → Option (PodPlan Q)
    unfolding plan_loop
    plan_pod pod targets policy =
        let class = qos_class pod in
        if is_best_effort class
        then none
        else close_plan pod.name
            (plan_loop pod.containers targets policy (is_guaranteed class) ([], down))
