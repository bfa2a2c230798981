-- ===== src/Controller/Actuation/Pass.antt =====
-- internal/controller/actuation.go: `actuate`, the loop over the workloads. The namespace's
-- autoscalers and a deployment's pods are what listing them gives, `none` for an error.
pub mod Stamped
pub mod Named
pub mod Apart
pub mod Evictions
pub mod Quiet
use kubera.Base.{
  ℕ, ltb, Bool, true, false, Option, none, some, String, List, [], ◌∷◌, ◌++◌, lookup, if◌then◌else◌,
}
use kubera.Go.Float64.{Float64}
use kubera.Go.Fmt.{Printer}
use kubera.Go.Time.{Time}
use kubera.Kube.Quantity.{Quantity}
use kubera.Kube.Objects.{ResourceList, Pod, Autoscaler, normal, Event}
use kubera.Api.{HpaState, idle, DynamicResourceSpec, WorkloadRecommendation, DynamicResourceStatus}
use kubera.Actuator.Policy.{Direction, up, down, default_policy}
use kubera.Actuator.Cooldown.{CooldownTracker, record_resize}
use kubera.Controller.Coupling.{
  ContainerUsageSnapshot, Coordinated, unlisted, nil_write, coordinated, coordinate_hpa,
  worse_hpa_state,
}
use kubera.Actuator.Resizer.{Cluster}
use kubera.Controller.Actuation.{mark_applied}
use kubera.Controller.Gauges.{Gauges, publish_reclaimable_metrics}
use kubera.Controller.Actuation.Messages.{cooldown_key, resized_message}
use kubera.Controller.Actuation.Targets.{
  find_recommendation, targets_of, nil_targets_of, share_targets,
}
use kubera.Controller.Actuation.Pods.{
  ActuationResult, Action, Workload, Pass, Flow, next, stop, and_then, pods_loop,
}

-- What the API server holds and answers.
pub record World (Q : Type 0) : Type 0 where
  pub autoscalers : String → Option (List Autoscaler)
  pub pods : String → Option (List (Pod Q))
  pub cluster : Cluster Q

-- What changes over the workloads.
pub record Actuation (Q F : Type 0) : Type 0 where
  pub cooldowns : CooldownTracker
  pub recommendations : List (WorkloadRecommendation Q)
  pub hpa_state : HpaState
  pub result : ActuationResult
  pub requests : ℕ
  pub actions : List (Action Q)
  pub gauges : Gauges F
  pub events : List Event
  -- The goroutine panics: the pass stops here, and nothing of it is written.
  pub is_panic : Bool

abbrev pub stamp_if : Bool → CooldownTracker → String → Direction → Time → CooldownTracker
stamp_if false t key d now = t
stamp_if true t key d now = record_resize t key d now

-- `for direction := range resizedDirections { r.Cooldowns.Record(...) }`.
unfoldable pub stamp_all : {Q : Type 0} → Pass Q → CooldownTracker → String → Time → CooldownTracker
stamp_all s t key now = stamp_if s.went_down (stamp_if s.went_up t key up now) key down now

module _ {Q F : Type 0} where
  abbrev pub first : DynamicResourceStatus Q → CooldownTracker → Gauges F → Actuation Q F
  first status cooldowns gauges = record {
    cooldowns = cooldowns;
    recommendations = status.recommendations;
    hpa_state = idle;
    result = record { resized = 0; infeasible = []; recreate_blocked = false };
    requests = 0;
    actions = [];
    gauges = gauges;
    events = [];
    is_panic = false;
  }

  -- The state before the first pod of a workload.
  abbrev pub start : Actuation Q F → Pass Q
  start s = record {
    budget = 1;
    went_up = false;
    went_down = false;
    result = s.result;
    requests = s.requests;
    actions = s.actions;
    resizes = s.gauges.resizes;
    events = s.events;
  }

  abbrev take_over : Pass Q → Actuation Q F → Actuation Q F
  take_over p s = record s {
    result = p.result;
    requests = p.requests;
    actions = p.actions;
    gauges = record s.gauges { resizes = p.resizes };
    events = p.events;
  }

  -- The cooldowns are recorded after the pods, and not when an error returns.
  abbrev pub finish : Flow (Pass Q) → String → Time → Actuation Q F → Flow (Actuation Q F)
  finish (next p) key now s =
      next (record (take_over p s) { cooldowns = stamp_all p s.cooldowns key now })
  finish (stop p) key now s = stop (take_over p s)

-- What a pass leaves: the status, the state with the cooldowns, the result and the accepted
-- requests, and whether an error is returned.
pub record Actuated (Q F : Type 0) : Type 0 where
  pub status : DynamicResourceStatus Q
  pub state : Actuation Q F
  pub is_error : Bool

-- What stays fixed over the workloads.
pub record Setting (Q S F : Type 0) : Type 0 where
  pub spec : DynamicResourceSpec Q S
  pub namespace : String
  pub name : String
  pub printer : Printer
  pub webhook_enabled : Bool
  pub world : World Q
  pub usage : List (String × List (String × ContainerUsageSnapshot F))
  pub now : Time

abbrev pub usage_of :
    {F : Type 0}
    → Option (List (String × ContainerUsageSnapshot F))
    → List (String × ContainerUsageSnapshot F)
usage_of none = []
usage_of (some u) = u

module _ {Q S F : Type 0} ⦃q : Quantity Q⦄ ⦃f : Float64 F⦄ where
  abbrev pub workload_of :
      Setting Q S F → String → List (String × ResourceList Q) → Actuation Q F → Workload Q S F
  workload_of x name targets s = record {
    spec = x.spec;
    policy = default_policy x.spec;
    targets = targets;
    webhook_enabled = x.webhook_enabled;
    cooldowns = s.cooldowns;
    key = cooldown_key x.namespace name;
    now = x.now;
    namespace = x.namespace;
    deployment = name;
    printer = x.printer;
  }

  -- `publishReclaimableMetrics`.
  abbrev pub with_reclaimable :
      Setting Q S F
      → String
      → List (Pod Q)
      → List (String × ResourceList Q)
      → Actuation Q F
      → Actuation Q F
  with_reclaimable x name pods targets s = record s {
    gauges = publish_reclaimable_metrics x.namespace x.name name pods targets s.gauges;
  }

  abbrev pub actuate_pods :
      Setting Q S F
      → String
      → List (String × ResourceList Q)
      → Option (List (Pod Q))
      → Actuation Q F
      → Flow (Actuation Q F)
  actuate_pods x name targets none s = stop s
  actuate_pods x name targets (some pods) s =
      finish (pods_loop (workload_of x name targets s) x.world.cluster pods (start s))
        (cooldown_key x.namespace name) x.now (with_reclaimable x name pods targets s)

  abbrev pub actuate_coordinated :
      Setting Q S F → String → Coordinated Q → Actuation Q F → Flow (Actuation Q F)
  actuate_coordinated x name unlisted s = stop s
  actuate_coordinated x name nil_write s = stop (record s { is_panic = true })
  actuate_coordinated x name (coordinated state targets) s =
      let after = record s {
        hpa_state = worse_hpa_state s.hpa_state state;
        recommendations = share_targets name targets s.recommendations;
      } in
      elim state [
        | HpaState.scaling ↦ next after
        | _ ↦ actuate_pods x name targets (x.world.pods name) after
      ]

  abbrev pub actuate_recommended :
      Setting Q S F
      → String
      → Option (WorkloadRecommendation Q)
      → Actuation Q F
      → Flow (Actuation Q F)
  actuate_recommended x name none s = next s
  actuate_recommended x name (some rec) s =
      actuate_coordinated x name
        (coordinate_hpa x.spec name (x.world.autoscalers name) (targets_of rec.containers [])
          (nil_targets_of rec.containers []) (usage_of (lookup name x.usage)) x.now)
        s

  -- The body of the loop, for the deployment of this name.
  unfoldable pub workload_step : Setting Q S F → String → Actuation Q F → Flow (Actuation Q F)
  workload_step x name s = actuate_recommended x name (find_recommendation name s.recommendations) s

  unfoldable pub workloads_loop : Setting Q S F → List String → Actuation Q F → Flow (Actuation Q F)
  workloads_loop x [] s = next s
  workloads_loop x (name ∷ names) s = and_then (workload_step x name s) (workloads_loop x names)

  -- The status of a pass that returns no error.
  abbrev applied_status :
      Setting Q S F → DynamicResourceStatus Q → Actuation Q F → DynamicResourceStatus Q
  applied_status x status s =
      if ltb 0 s.result.resized
      then record status {
        recommendations = mark_applied s.recommendations s.recommendations;
        last_resize_time = some x.now;
        hpa_state = s.hpa_state;
      }
      else record status { recommendations = s.recommendations; hpa_state = s.hpa_state }

  -- The event of a pass that has resized.
  abbrev announced : Setting Q S F → Actuation Q F → Actuation Q F
  announced x s =
      if ltb 0 s.result.resized
      then record s {
        events =
            s.events
            ++ record {
              kind = normal;
              reason = "PodsResized";
              note = resized_message x.printer s.result.resized;
            }
              ∷ [];
      }
      else s

  abbrev pub close_pass :
      Setting Q S F → DynamicResourceStatus Q → Flow (Actuation Q F) → Actuated Q F
  close_pass x status (next s) = record {
    status = applied_status x status s;
    state = announced x s;
    is_error = false;
  }
  close_pass x status (stop s) = record {
    status = record status { recommendations = s.recommendations };
    state = s;
    is_error = true;
  }

  -- The recommendations that the reconciler passes are those of the status.
  unfoldable pub actuate :
      Setting Q S F
      → List String
      → DynamicResourceStatus Q
      → CooldownTracker
      → Gauges F
      → Actuated Q F
  actuate x matched status cooldowns gauges =
      close_pass x status (workloads_loop x matched (first status cooldowns gauges))
