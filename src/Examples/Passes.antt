-- ===== src/Examples/Passes.antt =====
-- Validated bounds, and the loop over a workload's pods.
use kubera.Base.{
  ◌+◌, ◌≤◌, ltb, not, ◌≡◌, ◌⊎◌, refl, arith, pos, none, some, true, false, String, List, [], ◌∷◌,
  if◌then◌else◌, length, All, Among, ◌++◌, ◌&&◌, str_eq, leb_ℤ,
}
use kubera.Go.Float64.Fixed.{Fixed, fixed_float64}
use kubera.Kube.Quantity.Milli.{Milli, milli_quantity}
use kubera.Kube.Objects.{Pod, normal}
use kubera.Go.Fmt.{Printer}
use kubera.Controller.Actuation.Messages.{cooldown_key, evict_message}
use kubera.Api.{HpaState, UpdateMode, DynamicResourceStatus, requests_and_limits}
use kubera.Actuator.Resizer.{Cluster, evict}
use kubera.Controller.Actuation.{pod_resize_infeasible, cooldown_for}
use kubera.Go.Time.{Time, Duration, since}
use kubera.Go.Int64.{sub64}
use kubera.Actuator.Clamp.{within_tolerance}
use kubera.Actuator.Qos.{qos_class}
use kubera.Actuator.Recreate.{blocked_memory_shrink}
use kubera.Actuator.Policy.{Direction, default_policy}
use kubera.Actuator.Cooldown.{CooldownTracker, allow, record_resize}
use kubera.Controller.Actuation.Pass.Apart.{none_yet, actuate_pods-apart}
use kubera.Controller.Actuation.Pass.{World, Setting, Actuation, actuate_pods, stamp_all, actuate}
use kubera.Controller.Actuation.Pass.Stamped.{any_in, actuate_pods-cools}
use kubera.Controller.Actuation.Pods.{
  Action, Workload, Pass, state_of, pods_loop, pod_step, needs_recreate, recreate_step,
}
use kubera.Controller.Actuation.Pods.Steps.{evictions}
use kubera.Controller.Gauges.{count_of}
use kubera.Controller.Actuation.Pods.Counted.{tally, pods_loop-counted}
use kubera.Controller.Actuation.Pass.Evictions.{actuate-moderate}
use kubera.Controller.Actuation.Pods.Requests.{IsDue, pods_loop-balanced, pods_loop-justified}
use kubera.Examples.{list_of, pinned_web, pod_of, policy_of, spec_of}

abbrev plain : Printer
plain = record { print_names = λ names. "names"; print_count = λ n. "some" }

-- Less memory is wanted of Guaranteed pods: one of the two is evicted.
abbrev shrinking : Workload Milli String Fixed
shrinking = record {
  spec = spec_of UpdateMode.in_place_or_recreate;
  policy = policy_of requests_and_limits;
  targets = ("web", list_of 100 500) ∷ [];
  webhook_enabled = true;
  cooldowns = [];
  key = "default/web";
  now = 1000;
  namespace = "default";
  deployment = "web";
  printer = plain;
}

abbrev calm : Cluster Milli
calm = record {
  limiter = none;
  marshal = λ containers. some "{}";
  patch_resize = λ n namespace pod patch. true;
  create_eviction = λ n namespace pod. true;
}

abbrev pair : List (Pod Milli)
pair = pod_of pinned_web ∷ pod_of pinned_web ∷ []

abbrev fresh : Pass Milli
fresh = record {
  budget = 1;
  went_up = false;
  went_down = false;
  result = record { resized = 0; infeasible = []; recreate_blocked = false };
  requests = 0;
  actions = [];
  resizes = [];
  events = [];
}

pods_loop-balanced_example :
    let after = state_of (pods_loop shrinking calm pair fresh) in
    (after.result.resized + 0 ≡ 0 + length after.actions)
    × (evictions after.actions + after.budget ≡ 0 + 1)
pods_loop-balanced_example = pods_loop-balanced shrinking calm pair fresh

pods_loop-justified_example :
    All
      (λ a. Among (λ b. b ≡ a) [] ⊎ IsDue shrinking pair a)
      (state_of (pods_loop shrinking calm pair fresh)).actions
pods_loop-justified_example = pods_loop-justified shrinking calm pair fresh

abbrev world : World Milli
world = record { autoscalers = λ name. some []; pods = λ name. some pair; cluster = calm }

abbrev setting : Setting Milli String Fixed
setting = record {
  spec = spec_of UpdateMode.in_place_or_recreate;
  namespace = "default";
  name = "policy";
  printer = plain;
  webhook_enabled = true;
  world = world;
  usage = [];
  now = 1000;
}

-- The targets are those of `shrinking`.
abbrev status_of_web : DynamicResourceStatus Milli
status_of_web = record {
  conditions = [];
  matched_workloads = [];
  recommendations =
      record {
        workload = "web";
        containers =
            record {
              container_name = "web";
              is_nil_target = false;
              target = list_of 100 500;
              applied = record { cpu = none; memory = none; others = [] };
            }
            ∷ [];
      }
      ∷ [];
  last_resize_time = none;
  hpa_state = HpaState.unset;
  observed_generation = pos 0;
}

abbrev before : Actuation Milli Fixed
before = record {
  cooldowns = [];
  recommendations = [];
  hpa_state = HpaState.idle;
  result = fresh.result;
  requests = 0;
  actions = [];
  gauges = record {
    recommended_cpu = [];
    recommended_memory = [];
    reclaimable_cpu = [];
    reclaimable_memory = [];
    resizes = [];
  };
  is_panic = false;
  events = [];
}

-- The eviction of the first pod is accepted, and the second is left for a later pass.
abbrev evicted_once : Pass Milli
evicted_once = record {
  budget = 0;
  went_up = false;
  went_down = true;
  result = record { resized = 1; infeasible = []; recreate_blocked = false };
  requests = 1;
  actions = Action.evicted "web-1" ∷ [];
  resizes = ("default" ∷ "web" ∷ "Down" ∷ [], 1) ∷ [];
  events =
      record { kind = normal; reason = "PodEvictedForResize"; note = evict_message "web-1" } ∷ [];
}

actuate_pods-cools_example :
    let after = state_of (actuate_pods setting "web" shrinking.targets (some pair) before) in
    (new : List (Action Milli)) × (after.actions ≡ new ++ [])
    × ((other : String) (e : Direction) (cooldown : Duration) (later : Time)
        → allow after.cooldowns other e cooldown later ≡ (
            if str_eq (cooldown_key "default" "web") other && any_in e new
            then leb_ℤ cooldown (since later 1000)
            else allow [] other e cooldown later))
unfolding pods_loop pod_step needs_recreate pod_resize_infeasible blocked_memory_shrink qos_class
    within_tolerance sub64 default_policy recreate_step allow evict
actuate_pods-cools_example =
    actuate_pods-cools setting "web" shrinking.targets pair before {p = evicted_once} refl

abbrev cooled : CooldownTracker
unfolding pods_loop stamp_all
cooled = (state_of (actuate_pods setting "web" shrinking.targets (some pair) before)).cooldowns

-- Ten minutes later.
abbrev later_setting : Setting Milli String Fixed
later_setting = record setting { now = 600_000_001_000 }

abbrev later_state : Actuation Milli Fixed
later_state = record before { cooldowns = cooled }

actuate_pods-apart_example : leb_ℤ (pos 600_000_000_000) (since 600_000_001_000 1000) ≡ true
unfolding pods_loop pod_step needs_recreate pod_resize_infeasible blocked_memory_shrink qos_class
    within_tolerance sub64 default_policy recreate_step allow evict stamp_all cooled cooldown_for
    since record_resize
actuate_pods-apart_example =
    actuate_pods-apart setting "web" shrinking.targets pair before Direction.down {p = evicted_once}
      {t = cooled} {mid = 1000} later_setting "web" shrinking.targets pair later_state refl refl
      none_yet refl (omega arith) refl refl

pods_loop-counted_example :
    let after = state_of (pods_loop shrinking calm pair fresh) in
    (new : List (Action Milli)) × (after.actions ≡ new ++ [])
    × ((read : List String)
        → count_of read after.resizes ≡ count_of read [] + tally shrinking read new)
pods_loop-counted_example = pods_loop-counted shrinking calm pair fresh

actuate-moderate_example :
    let out = actuate setting ("web" ∷ []) status_of_web [] before.gauges in
    let none_done = actuate setting [] status_of_web [] before.gauges in
    (out.state.result.resized ≡ length out.state.actions)
    × (evictions out.state.actions ≤ evictions none_done.state.actions + 1)
    × (evictions out.state.actions ≤ 1)
    × (out.status.last_resize_time
        ≡ (if not out.is_error && ltb 0 (length out.state.actions) then some 1000 else none))
actuate-moderate_example = actuate-moderate setting [] "web" status_of_web [] before.gauges
