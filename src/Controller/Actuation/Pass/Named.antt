-- ===== src/Controller/Actuation/Pass/Named.antt =====
-- internal/controller/actuation.go: the workloads that the recommendations of the status name.
use kubera.Base.{
  ◌≡◌, refl, ◌∙◌, Option, none, some, inl, inr, String, List, [], ◌∷◌, str_eq, Bool-cases,
  Option-cases, ltb,
}
use kubera.Go.Float64.{Float64}
use kubera.Go.Time.{Time}
use kubera.Kube.Quantity.{Quantity}
use kubera.Kube.Objects.{ResourceList, Pod}
use kubera.Api.{HpaState, WorkloadRecommendation, DynamicResourceStatus}
use kubera.Actuator.Cooldown.{CooldownTracker}
use kubera.Controller.Coupling.{Coordinated, unlisted, nil_write, coordinated}
use kubera.Controller.Gauges.{Gauges}
use kubera.Controller.Actuation.{mark_applied, is_listed}
use kubera.Controller.Actuation.Targets.{find_recommendation, share_targets}
use kubera.Controller.Actuation.Pods.{Pass, Flow, next, stop, state_of, and_then}
use kubera.Controller.Actuation.Pass.{
  Setting, Actuation, finish, with_reclaimable, actuate_pods, actuate_coordinated, workload_step,
  workloads_loop, first, close_pass, actuate,
}

abbrev pub names_of : {Q : Type 0} → List (WorkloadRecommendation Q) → List String
names_of [] = []
names_of (r ∷ rs) = r.workload ∷ names_of rs

names_of-share_targets :
    {Q : Type 0} (name : String) (targets : List (String × ResourceList Q))
    (recs : List (WorkloadRecommendation Q))
    → names_of (share_targets name targets recs) ≡ names_of recs
unfolding share_targets
names_of-share_targets name targets [] = refl
names_of-share_targets name targets (r ∷ rs) =
    let rest = names_of-share_targets name targets rs in
    elim (Bool-cases (str_eq r.workload name)) [
      | inl same ↦ simp same (rw rest refl)
      | inr other ↦ simp other (rw rest refl)
    ]

names_of-mark_applied :
    {Q : Type 0} (recs marked : List (WorkloadRecommendation Q))
    → names_of (mark_applied recs marked) ≡ names_of marked
unfolding mark_applied
names_of-mark_applied recs [] = refl
names_of-mark_applied recs (w ∷ ws) =
    let rest = names_of-mark_applied recs ws in
    elim (Bool-cases (is_listed w.workload recs)) [
      | inl listed ↦ simp listed (rw rest refl)
      | inr other ↦ simp other (rw rest refl)
    ]

finish-names :
    {Q F : Type 0} (flow : Flow (Pass Q)) (key : String) (now : Time) (s : Actuation Q F)
    → (state_of (finish flow key now s)).recommendations ≡ s.recommendations
finish-names (next p) key now s = refl
finish-names (stop p) key now s = refl

module _ {Q S F : Type 0} ⦃q : Quantity Q⦄ ⦃f : Float64 F⦄ (x : Setting Q S F) where
  actuate_pods-names :
      (name : String) (targets : List (String × ResourceList Q)) (pods : Option (List (Pod Q)))
      (s : Actuation Q F)
      → (state_of (actuate_pods x name targets pods s)).recommendations ≡ s.recommendations
  actuate_pods-names name targets none s = refl
  actuate_pods-names name targets (some pods) s =
      finish-names _ _ _ (with_reclaimable x name pods targets s)

  actuate_coordinated-names :
      (name : String) (o : Coordinated Q) (s : Actuation Q F)
      → names_of (state_of (actuate_coordinated x name o s)).recommendations
        ≡ names_of s.recommendations
  actuate_coordinated-names name unlisted s = refl
  actuate_coordinated-names name nil_write s = refl
  actuate_coordinated-names name (coordinated HpaState.scaling targets) s =
      names_of-share_targets name targets s.recommendations
  actuate_coordinated-names name (coordinated _ targets) s =
      rw (actuate_pods-names name targets (x.world.pods name) _)
        (names_of-share_targets name targets s.recommendations)

  workload_step-names :
      (name : String) (s : Actuation Q F)
      → names_of (state_of (workload_step x name s)).recommendations ≡ names_of s.recommendations
  unfolding workload_step
  workload_step-names name s = elim (Option-cases (find_recommendation name s.recommendations)) [
    | inl e ↦ rw e refl
    | inr (r, e) ↦ rw e (actuate_coordinated-names name _ s)
  ]

  and_then-names :
      (flow : Flow (Actuation Q F)) (rest : Actuation Q F → Flow (Actuation Q F))
      (s : Actuation Q F)
      → names_of (state_of flow).recommendations ≡ names_of s.recommendations
      → ((t : Actuation Q F)
          → names_of (state_of (rest t)).recommendations ≡ names_of t.recommendations)
      → names_of (state_of (and_then flow rest)).recommendations ≡ names_of s.recommendations
  and_then-names (next t) rest s h k = k t ∙ h
  and_then-names (stop t) rest s h k = h

  workloads_loop-names :
      (names : List String) (s : Actuation Q F)
      → names_of (state_of (workloads_loop x names s)).recommendations ≡ names_of s.recommendations
  unfolding workloads_loop
  workloads_loop-names [] s = refl
  workloads_loop-names (name ∷ names) s =
      and_then-names (workload_step x name s) (workloads_loop x names) s
        (workload_step-names name s) (workloads_loop-names names)

  close_pass-names :
      (status : DynamicResourceStatus Q) (flow : Flow (Actuation Q F))
      → names_of (close_pass x status flow).status.recommendations
        ≡ names_of (state_of flow).recommendations
  close_pass-names status (stop s) = refl
  close_pass-names status (next s) = elim (Bool-cases (ltb 0 s.result.resized)) [
    | inl some_ ↦ simp some_ (names_of-mark_applied s.recommendations s.recommendations)
    | inr none_ ↦ simp none_ refl
  ]

  -- A pass of actuation writes targets and applied values, and leaves which workloads have
  -- recommendations, and their order, as they were.
  pub names_of-actuate :
      (matched : List String) (status : DynamicResourceStatus Q) (cooldowns : CooldownTracker)
      (gauges : Gauges F)
      → names_of (actuate x matched status cooldowns gauges).status.recommendations
        ≡ names_of status.recommendations
  unfolding actuate
  names_of-actuate matched status cooldowns gauges =
      close_pass-names status (workloads_loop x matched (first status cooldowns gauges))
      ∙ workloads_loop-names matched (first status cooldowns gauges)
