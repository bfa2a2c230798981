-- ===== src/Controller/Reconcile/Endings.antt =====
-- internal/controller/dynamicresource_controller.go: what changes in a pass of `Reconcile` and the
-- ways in which it ends.
use kubera.Base.{
  Bool, true, false, Option, none, some, String, List, [], ◌∷◌, ◌++◌, length, if◌then◌else◌, pos,
}
use kubera.Go.Time.{Duration}
use kubera.Kube.Objects.{ConditionStatus, yes, no, EventType, Event}
use kubera.Api.{
  UpdateMode, MetricsProvider, MetricsConfig, HpaState, WorkloadRecommendation,
  DynamicResourceStatus, DynamicResource,
}
use kubera.Controller.Conflicts.{Deployment}
use kubera.Controller.Gauges.{Gauges}
use kubera.Controller.Actuation.Pods.{Action}
use kubera.Controller.Actuation.Pass.{Actuated}
use kubera.Controller.Reconcile.{
  Environment, Reconciler, polling_interval, set_condition, capacity_message, managing_message,
}

-- What changes in a pass: the copy of the object's status, what the reconciler and the process
-- keep, the events and the accepted requests to resize or evict a pod.
pub record Progress (Q F : Type 0) : Type 0 where
  pub status : DynamicResourceStatus Q
  pub reconciler : Reconciler F
  pub gauges : Gauges F
  pub events : List Event
  pub actions : List (Action Q)

-- What a pass leaves; the status is the stored one. `requeue_after` is 0 for none.
pub record Reconciled (Q F : Type 0) : Type 0 where
  pub progress : Progress Q F
  pub stored : DynamicResourceStatus Q
  pub requeue_after : Duration
  pub is_error : Bool

abbrev pub no_requeue : Duration
no_requeue = pos 0

abbrev idle_or : HpaState → HpaState
idle_or HpaState.unset = HpaState.idle
idle_or state = state

abbrev pub idle_if_unset : {Q : Type 0} → DynamicResourceStatus Q → DynamicResourceStatus Q
idle_if_unset s = record s { hpa_state = idle_or s.hpa_state }

abbrev pub is_actuating : UpdateMode → Bool
is_actuating UpdateMode.unset = false
is_actuating UpdateMode.off = false
is_actuating _ = true

-- What is stored of the computed recommendations: the last ones in a metrics gap.
abbrev pub kept :
    {Q : Type 0}
    → List (WorkloadRecommendation Q)
    → List (WorkloadRecommendation Q)
    → List (WorkloadRecommendation Q)
kept last [] = last
kept last (r ∷ rs) = r ∷ rs

-- The Prometheus provider is asked for, and there is none.
abbrev pub is_unsupported : {A : Type 0} → Option MetricsConfig → Option A → Bool
is_unsupported none prometheus = false
is_unsupported (some m) (some prometheus) = false
is_unsupported (some m) none = elim m.provider [ MetricsProvider.prometheus ↦ true | _ ↦ false ]

abbrev pub with_actuated : {Q F : Type 0} → Actuated Q F → Progress Q F → Progress Q F
with_actuated a w = record w {
  status = a.status;
  reconciler = record w.reconciler { cooldowns = a.state.cooldowns };
  gauges = a.state.gauges;
  events = w.events ++ a.state.events;
  actions = a.state.actions;
}

module _ {Q F S P L : Type 0} (env : Environment Q S P L) (dr : DynamicResource Q S) where
  -- The original status is the one that `Get` read.
  unfoldable pub patch_status : Progress Q F → Duration → Reconciled Q F
  patch_status w requeue =
      if env.same_status dr.status w.status
      then record { progress = w; stored = dr.status; requeue_after = requeue; is_error = false }
      else (if env.patch w.status
          then record { progress = w; stored = w.status; requeue_after = requeue; is_error = false }
          else record {
            progress = w;
            stored = dr.status;
            requeue_after = no_requeue;
            is_error = true;
          })

  -- An error that is returned without a patch of the status, and one after it.
  abbrev pub fail : Progress Q F → Reconciled Q F
  fail w = record { progress = w; stored = dr.status; requeue_after = no_requeue; is_error = true }

  abbrev pub patch_and_fail : Progress Q F → Reconciled Q F
  patch_and_fail w = record (patch_status w no_requeue) { is_error = true }

  abbrev pub with_condition :
      String → ConditionStatus → String → String → Progress Q F → Progress Q F
  with_condition kind status reason message w = record w {
    status = set_condition env dr.generation kind status reason message w.status;
  }

  abbrev pub with_event : EventType → String → String → Progress Q F → Progress Q F
  with_event kind reason note w = record w {
    events = w.events ++ record { kind = kind; reason = reason; note = note } ∷ [];
  }

  abbrev pub not_ready : String → String → Progress Q F → Progress Q F
  not_ready = with_condition "Ready" no

  -- The switch on the result of `actuate`: `recreateBlocked` and `infeasible`.
  abbrev pub feasibility : Bool → List String → Progress Q F → Progress Q F
  feasibility true pods w =
      with_condition "ResizeInfeasible" yes "RecreateRequiresWebhook"
        "pods need evict-and-recreate to converge, but the pod webhook is disabled; start the operator with --enable-pod-webhook (recreated pods would otherwise inherit stale template resources)"
        w
  feasibility false [] w = with_condition "ResizeInfeasible" no "Feasible" "no infeasible resizes" w
  feasibility false (pod ∷ pods) w =
      with_condition "ResizeInfeasible" yes "NodeCapacity" (capacity_message env (pod ∷ pods)) w

  -- `Ready`, at the end of a pass that meets no guard.
  abbrev pub readied : List (Deployment S L) → Progress Q F → Progress Q F
  readied matched w =
      let ready =
        with_condition "Ready" yes "Reconciled" (managing_message env (length matched)) w in
      record ready { status = idle_if_unset ready.status }

  abbrev pub close : List (Deployment S L) → Progress Q F → Reconciled Q F
  close matched w = patch_status (readied matched w) (polling_interval dr.spec)

  abbrev pub after_actuation : List (Deployment S L) → Actuated Q F → Progress Q F → Reconciled Q F
  after_actuation matched a w =
      let done = with_actuated a w in
      if a.is_error
      then patch_and_fail done
      else close matched
          (feasibility a.state.result.recreate_blocked a.state.result.infeasible done)
