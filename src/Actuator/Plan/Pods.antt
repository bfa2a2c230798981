-- ===== src/Actuator/Plan/Pods.antt =====
-- What the plan for a whole pod contains.
use mathlib.Core.List.{append-nil, append_assoc}
use kubera.Base.{
  ◌≡◌, refl, arith, Option, none, some, Bool, true, false, ◌||◌, String, List, [], ◌∷◌, ◌++◌,
  lookup, if◌then◌else◌, All, Among, All-map, inl, inr, ◌≢◌, ◌∙◌, sym, Bool-cases, Option-cases,
}
use kubera.Go.Float64.{Float64}
use kubera.Kube.Quantity.{Quantity}
use kubera.Kube.Objects.{ResourceList, Container, Pod, QosClass, guaranteed, best_effort}
use kubera.Actuator.Policy.{Direction, up, down, Policy}
use kubera.Actuator.Qos.{qos_class, is_guaranteed, is_best_effort}
use kubera.Actuator.Plan.{
  ContainerChange, PodPlan, plan_target, plan_loop, add_change, close_plan, plan_pod,
}
use kubera.Actuator.Plan.Limits.{IsPinnedChange, plan_container-pinned}

abbrev pub grows_any : {Q : Type 0} → List (ContainerChange Q × Bool) → Bool
grows_any [] = false
grows_any ((change, grows) ∷ rest) = grows || grows_any rest

abbrev pub changes_of : {Q : Type 0} → List (ContainerChange Q × Bool) → List (ContainerChange Q)
changes_of [] = []
changes_of ((change, grows) ∷ rest) = change ∷ changes_of rest

-- The container's own plan, put in front of the others'.
abbrev cons_planned :
    {Q : Type 0}
    → Option (ContainerChange Q × Bool)
    → List (ContainerChange Q × Bool)
    → List (ContainerChange Q × Bool)
cons_planned none rest = rest
cons_planned (some p) rest = p ∷ rest

-- What a loop that stands at `acc` ends with after these plans.
abbrev outcome :
    {Q : Type 0}
    → List (ContainerChange Q) × Direction
    → List (ContainerChange Q × Bool)
    → List (ContainerChange Q) × Direction
outcome acc all = (acc.0 ++ changes_of all, if grows_any all then up else acc.1)

add_change-cons :
    {Q : Type 0} (o : Option (ContainerChange Q × Bool)) (rest : List (ContainerChange Q × Bool))
    (acc : List (ContainerChange Q) × Direction)
    → outcome (add_change o acc) rest ≡ outcome acc (cons_planned o rest)
add_change-cons none rest acc = refl
add_change-cons (some (change, true)) rest (changes, d) =
    ground (arith, append_assoc changes (change ∷ []) (changes_of rest))
add_change-cons (some (change, false)) rest (changes, d) = rw append_assoc

close_plan-eq :
    {Q : Type 0} (name : String) (changes : List (ContainerChange Q)) (d : Direction)
    {plan : PodPlan Q}
    → close_plan name (changes, d) ≡ some plan
    → (plan.pod ≡ name) × (plan.changes ≡ changes) × (plan.direction ≡ d) × (changes ≢ [])
close_plan-eq name [] d h = cc
close_plan-eq name (change ∷ changes) d h = (ground arith, ground arith, ground arith, λ e. cc e)

not_best_effort : (class : QosClass) → is_best_effort class ≡ false → class ≢ best_effort
not_best_effort class h = ground arith

module _ {Q F : Type 0} ⦃q : Quantity Q⦄ ⦃f : Float64 F⦄ where
  -- The plans of the containers by themselves, in their order.
  pub planned :
      List (Container Q)
      → List (String × ResourceList Q)
      → Policy F
      → Bool
      → List (ContainerChange Q × Bool)
  planned [] targets policy pinned = []
  planned (c ∷ cs) targets policy pinned =
      cons_planned (plan_target c (lookup c.name targets) policy pinned)
        (planned cs targets policy pinned)

  plan_loop-eq :
      (cs : List (Container Q)) (targets : List (String × ResourceList Q)) (policy : Policy F)
      (pinned : Bool) (acc : List (ContainerChange Q) × Direction)
      → plan_loop cs targets policy pinned acc ≡ outcome acc (planned cs targets policy pinned)
  unfolding plan_loop planned
  plan_loop-eq [] targets policy pinned acc = rw append-nil
  plan_loop-eq (c ∷ cs) targets policy pinned acc =
      let o = plan_target c (lookup c.name targets) policy pinned in
      plan_loop-eq cs targets policy pinned (add_change o acc)
      ∙ add_change-cons o (planned cs targets policy pinned) acc

  -- A plan for a pod is never empty and never for a BestEffort pod. It holds what is planned for
  -- each container that has a target, in order, and it counts as going up exactly if one of its
  -- changes does.
  pub plan_pod_lem :
      (pod : Pod Q) (targets : List (String × ResourceList Q)) (policy : Policy F)
      {plan : PodPlan Q}
      → plan_pod pod targets policy ≡ some plan
      → let all = planned pod.containers targets policy (is_guaranteed (qos_class pod)) in
        (qos_class pod ≢ best_effort)
        × (plan.pod ≡ pod.name)
        × (plan.changes ≢ [])
        × (plan.changes ≡ changes_of all)
        × (plan.direction ≡ (if grows_any all then up else down))
  unfolding plan_pod
  plan_pod_lem pod targets policy {plan} h =
      let class = qos_class pod in
      let all = planned pod.containers targets policy (is_guaranteed class) in
      let loop = plan_loop-eq pod.containers targets policy (is_guaranteed class) ([], down) in
      elim (Bool-cases (is_best_effort class)) [
        | inl best ↦ let nothing = rw best at h in cc
        | inr other ↦
            let closed = rw (other, loop) at h in
            let (pod_eq, changes_eq, direction_eq, some_change) =
              close_plan-eq pod.name (changes_of all) (if grows_any all then up else down) closed in
            (
              not_best_effort class other,
              pod_eq,
              (λ e. some_change (sym changes_eq ∙ e)),
              changes_eq,
              direction_eq,
            )
      ]

  plan_target-pinned :
      (c : Container Q) (target : Option (ResourceList Q)) (policy : Policy F)
      {change : ContainerChange Q} {grows : Bool}
      → plan_target c target policy true ≡ some (change, grows)
      → IsPinnedChange change c
  plan_target-pinned c none policy h = cc
  plan_target-pinned c (some target) policy h = plan_container-pinned c target policy h

  planned-pinned :
      (cs : List (Container Q)) (targets : List (String × ResourceList Q)) (policy : Policy F)
      → All
          (λ change. Among (IsPinnedChange change) cs)
          (changes_of (planned cs targets policy true))
  unfolding planned
  planned-pinned [] targets policy = tt
  planned-pinned (c ∷ cs) targets policy =
      let o = plan_target c (lookup c.name targets) policy true in
      let rest =
        All-map (changes_of (planned cs targets policy true)) (λ change h. inr h)
          (planned-pinned cs targets policy) in
      elim (Option-cases o) [
        | inl e ↦ rw e rest
        | inr ((change, grows), e) ↦
            rw e (inl (plan_target-pinned c (lookup c.name targets) policy e), rest)
      ]

  -- On a Guaranteed pod each planned change belongs to a container of the pod, its new limits are
  -- its new requests, and its memory request is at least the container's current one.
  pub plan_pod-pinned :
      (pod : Pod Q) (targets : List (String × ResourceList Q)) (policy : Policy F)
      {plan : PodPlan Q}
      → qos_class pod ≡ guaranteed
      → plan_pod pod targets policy ≡ some plan
      → All (λ change. Among (IsPinnedChange change) pod.containers) plan.changes
  plan_pod-pinned pod targets policy class h =
      let changes_eq = (plan_pod_lem pod targets policy h).3 in
      let all = planned-pinned pod.containers targets policy in rw (changes_eq, class) all
