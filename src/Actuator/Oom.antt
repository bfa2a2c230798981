-- ===== src/Actuator/Oom.antt =====
-- internal/actuator/oom.go: the fast path after an OOMKill.
pub mod Bumps
use kubera.Base.{
  Option, none, some, Bool, not, ◌&&◌, ◌||◌, String, List, [], ◌∷◌, ◌++◌, if◌then◌else◌, str_eq,
  contains, lookup, ◌*◌, ℤ, pos, ltb_ℤ, leb_ℤ,
}
use kubera.Go.Float64.{Float64}
use kubera.Go.Time.{Time, Duration, since, minute}
use kubera.Kube.Quantity.{Quantity}
use kubera.Kube.Objects.{Container, ContainerStatus, Terminated, Pod, cpu, memory, index, or_zero}
use kubera.Actuator.Policy.{up, Policy}
use kubera.Actuator.Qos.{qos_class, is_guaranteed}
use kubera.Actuator.Plan.{
  ContainerChange, PodPlan, Planned, resources, scale_limit, plan_limits, close_plan,
}

abbrev pub oom_lookback : Duration
oom_lookback = pos (15 * minute)

-- The status names a recent OOMKill.
abbrev killed : Option Terminated → Time → Bool
killed none now = Bool.false
killed (some t) now = str_eq t.reason "OOMKilled" && leb_ℤ (since now t.finished_at) oom_lookback

unfoldable pub oom_killed : List ContainerStatus → Time → List String
oom_killed [] now = []
oom_killed (s ∷ ss) now =
    let rest = oom_killed ss now in if killed s.last_terminated now then s.name ∷ rest else rest

-- `OOMKilledContainers`.
unfoldable pub oom_killed_containers : {Q : Type 0} → Pod Q → Time → List String
unfolding oom_killed
oom_killed_containers pod now = oom_killed pod.container_statuses now

module _ {Q : Type 0} ⦃q : Quantity Q⦄ where
  -- `if maxQ, ok := maxMemory[name]; ok && newMem > maxQ.Value() { newMem = maxQ.Value() }`.
  abbrev pub cap_max : ℤ → Option Q → ℤ
  cap_max new none = new
  cap_max new (some m) = if ltb_ℤ (q.value m) new then q.value m else new

  abbrev bumped_change : Container Q → Planned Q → ContainerChange Q
  bumped_change c p = record {
    name = c.name;
    requests = resources p.cpu_milli p.mem_bytes;
    limits = p.limits;
  }

-- `continue`, or append the change.
abbrev add_bump :
    {Q : Type 0} → Option (ContainerChange Q) → List (ContainerChange Q) → List (ContainerChange Q)
add_bump none changes = changes
add_bump (some change) changes = changes ++ change ∷ []

abbrev pub oom_bump_factor : {F : Type 0} ⦃f : Float64 F⦄ → F
oom_bump_factor ⦃f⦄ = f.decimal 15 1

module _ {F : Type 0} ⦃f : Float64 F⦄ {Q : Type 0} ⦃q : Quantity Q⦄ where
  -- The memory request to set: one and a half times the current one, within the maximum.
  unfoldable pub bumped_memory : F → Container Q → List (String × Q) → ℤ
  bumped_memory factor c max_memory =
      cap_max (scale_limit factor (q.value (or_zero (index memory c.requests))))
        (lookup c.name max_memory)

  -- The body of the loop; `none` is `continue`.
  unfoldable pub bump_container :
      Container Q → List String → List (String × Q) → Policy F → Bool → Option (ContainerChange Q)
  bump_container c oom max_memory policy pinned =
      let cur_mem = or_zero (index memory c.requests) in
      let cur_cpu = or_zero (index cpu c.requests) in
      let new_mem = bumped_memory oom_bump_factor c max_memory in
      if not (contains c.name oom)
      then none
      else (if q.is_zero cur_mem || q.is_zero cur_cpu
          then none
          else (if leb_ℤ new_mem (q.value cur_mem)
              then none
              else some
                  (bumped_change c (plan_limits c (q.milli_value cur_cpu) new_mem policy pinned))))

  unfoldable pub bump_loop :
      List (Container Q)
      → List String
      → List (String × Q)
      → Policy F
      → Bool
      → List (ContainerChange Q)
      → List (ContainerChange Q)
  bump_loop [] oom max_memory policy pinned changes = changes
  bump_loop (c ∷ cs) oom max_memory policy pinned changes =
      bump_loop cs oom max_memory policy pinned
        (add_bump (bump_container c oom max_memory policy pinned) changes)

  unfoldable pub plan_oom_bump :
      Pod Q → List String → List (String × Q) → Policy F → Option (PodPlan Q)
  unfolding bump_loop
  plan_oom_bump pod oom max_memory policy =
      close_plan pod.name
        (bump_loop pod.containers oom max_memory policy (is_guaranteed (qos_class pod)) [], up)
