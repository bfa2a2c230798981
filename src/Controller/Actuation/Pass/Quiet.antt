-- ===== src/Controller/Actuation/Pass/Quiet.antt =====
-- internal/controller/actuation.go: when `actuate` does not panic.
use kubera.Base.{
  ◌≡◌, refl, sym, subst, ◌∙◌, Bool, false, Option, none, some, inl, inr, String, List, [], ◌∷◌, All,
  insert, str_eq, Bool-cases, Option-cases, ltb,
}
use kubera.Go.Float64.{Float64}
use kubera.Go.Time.{Time}
use kubera.Kube.Quantity.{Quantity}
use kubera.Kube.Objects.{ResourceList, Pod}
use kubera.Api.{HpaState, ContainerRecommendation, WorkloadRecommendation, DynamicResourceStatus}
use kubera.Actuator.Cooldown.{CooldownTracker}
use kubera.Controller.Coupling.{Coordinated, unlisted, nil_write, coordinated}
use kubera.Controller.Coupling.Panics.{NoneNil, insert-NoneNil, IsQuiet, coordinate_hpa-IsQuiet}
use kubera.Controller.Gauges.{Gauges}
use kubera.Controller.Actuation.Targets.{
  find_recommendation, nil_targets_of, share_containers, share_targets,
}
use kubera.Controller.Actuation.Targets.Found.{find_recommendation-All}
use kubera.Controller.Actuation.Pods.{Pass, Flow, next, stop, state_of, and_then, pods_loop}
use kubera.Controller.Actuation.Pass.{
  Setting, Actuation, finish, with_reclaimable, actuate_pods, actuate_coordinated, workload_of,
  start, workload_step, workloads_loop, first, close_pass, actuate,
}

-- No container's target is a nil map.
abbrev pub HasTargets : {Q : Type 0} → WorkloadRecommendation Q → Type 0
HasTargets w = All (λ c. c.is_nil_target ≡ false) w.containers

module _ {Q : Type 0} where
  nil_targets_of-NoneNil :
      (cs : List (ContainerRecommendation Q)) (nils : List (String × Bool))
      → All (λ c. c.is_nil_target ≡ false) cs
      → NoneNil nils
      → NoneNil (nil_targets_of cs nils)
  unfolding nil_targets_of
  nil_targets_of-NoneNil [] nils h k = k
  nil_targets_of-NoneNil (c ∷ cs) nils h k =
      nil_targets_of-NoneNil cs (insert c.container_name c.is_nil_target nils) h.1 (
        subst (λ b. NoneNil (insert c.container_name b nils)) (sym h.0)
          (insert-NoneNil c.container_name nils k))

  share_containers-HasTargets :
      (targets : List (String × ResourceList Q)) (cs : List (ContainerRecommendation Q))
      → All (λ c. c.is_nil_target ≡ false) cs
      → All (λ c. c.is_nil_target ≡ false) (share_containers targets cs)
  share_containers-HasTargets targets [] h = tt
  share_containers-HasTargets targets (c ∷ cs) h = (h.0, share_containers-HasTargets targets cs h.1)

  share_targets-HasTargets :
      (name : String) (targets : List (String × ResourceList Q))
      (recs : List (WorkloadRecommendation Q))
      → All HasTargets recs
      → All HasTargets (share_targets name targets recs)
  unfolding share_targets
  share_targets-HasTargets name targets [] h = tt
  share_targets-HasTargets name targets (r ∷ rs) h =
      let rest = share_targets-HasTargets name targets rs h.1 in
      elim (Bool-cases (str_eq r.workload name)) [
        | inl same ↦ simp same (share_containers-HasTargets targets r.containers h.0, rest)
        | inr other ↦ simp other (h.0, rest)
      ]

-- A state without a panic and without nil maps.
abbrev IsCalm : {Q F : Type 0} → Actuation Q F → Type 0
IsCalm s = (s.is_panic ≡ false) × All HasTargets s.recommendations

finish-IsCalm :
    {Q F : Type 0} (flow : Flow (Pass Q)) (key : String) (now : Time) (s : Actuation Q F)
    → IsCalm s
    → IsCalm (state_of (finish flow key now s))
finish-IsCalm (next p) key now s h = h
finish-IsCalm (stop p) key now s h = h

module _ {Q S F : Type 0} ⦃q : Quantity Q⦄ ⦃f : Float64 F⦄ (x : Setting Q S F) where
  actuate_pods-IsCalm :
      (name : String) (targets : List (String × ResourceList Q)) (pods : Option (List (Pod Q)))
      (s : Actuation Q F)
      → IsCalm s
      → IsCalm (state_of (actuate_pods x name targets pods s))
  actuate_pods-IsCalm name targets none s h = h
  actuate_pods-IsCalm name targets (some pods) s h =
      finish-IsCalm (pods_loop (workload_of x name targets s) x.world.cluster pods (start s)) _
        x.now (with_reclaimable x name pods targets s) h

  actuate_coordinated-IsCalm :
      (name : String) (o : Coordinated Q) (s : Actuation Q F)
      → IsQuiet o
      → IsCalm s
      → IsCalm (state_of (actuate_coordinated x name o s))
  actuate_coordinated-IsCalm name unlisted s quiet h = h
  actuate_coordinated-IsCalm name nil_write s quiet h = absurd quiet
  actuate_coordinated-IsCalm name (coordinated HpaState.scaling targets) s quiet h =
      (h.0, share_targets-HasTargets name targets s.recommendations h.1)
  actuate_coordinated-IsCalm name (coordinated _ targets) s quiet h =
      actuate_pods-IsCalm name targets (x.world.pods name) _
        (h.0, share_targets-HasTargets name targets s.recommendations h.1)

  workload_step-IsCalm :
      (name : String) (s : Actuation Q F) → IsCalm s → IsCalm (state_of (workload_step x name s))
  unfolding workload_step
  workload_step-IsCalm name s h = elim (Option-cases (find_recommendation name s.recommendations)) [
    | inl e ↦ rw e h
    | inr (r, e) ↦
        let whole = find_recommendation-All HasTargets name s.recommendations h.1 e in
        rw e (
          actuate_coordinated-IsCalm name _ s
            (coordinate_hpa-IsQuiet x.spec _ _ _ x.now
              (nil_targets_of-NoneNil r.containers [] whole tt) name (x.world.autoscalers name))
            h)
  ]

  and_then-IsCalm :
      (flow : Flow (Actuation Q F)) (rest : Actuation Q F → Flow (Actuation Q F))
      → IsCalm (state_of flow)
      → ((t : Actuation Q F) → IsCalm t → IsCalm (state_of (rest t)))
      → IsCalm (state_of (and_then flow rest))
  and_then-IsCalm (next t) rest h k = k t h
  and_then-IsCalm (stop t) rest h k = h

  workloads_loop-IsCalm :
      (names : List String) (s : Actuation Q F)
      → IsCalm s
      → IsCalm (state_of (workloads_loop x names s))
  unfolding workloads_loop
  workloads_loop-IsCalm [] s h = h
  workloads_loop-IsCalm (name ∷ names) s h =
      and_then-IsCalm (workload_step x name s) (workloads_loop x names)
        (workload_step-IsCalm name s h) (workloads_loop-IsCalm names)

  close_pass-panic :
      (status : DynamicResourceStatus Q) (flow : Flow (Actuation Q F))
      → (close_pass x status flow).state.is_panic ≡ (state_of flow).is_panic
  close_pass-panic status (stop s) = refl
  close_pass-panic status (next s) = elim (Bool-cases (ltb 0 s.result.resized)) [
    | inl some_ ↦ simp some_ refl
    | inr none_ ↦ simp none_ refl
  ]

  -- Where no recommendation of the status has a nil target, a pass of actuation does not panic.
  pub actuate-quiet :
      (matched : List String) (status : DynamicResourceStatus Q) (cooldowns : CooldownTracker)
      (gauges : Gauges F)
      → All HasTargets status.recommendations
      → (actuate x matched status cooldowns gauges).state.is_panic ≡ false
  unfolding actuate
  actuate-quiet matched status cooldowns gauges h =
      close_pass-panic status (workloads_loop x matched (first status cooldowns gauges))
      ∙ (workloads_loop-IsCalm matched (first status cooldowns gauges) (refl, h)).0
