-- ===== src/Controller/Actuation/Pass/Evictions.antt =====
-- internal/controller/actuation.go: how many evictions and resizes a whole pass of `actuate` makes.
use kubera.Base.{
  ℕ, suc, ◌+◌, ◌≤◌, ◌≡◌, refl, arith, sym, ◌&&◌, not, Option, none, some, inl, inr, String, List,
  [], ◌∷◌, ◌++◌, length, ltb, Bool-cases, Option-cases, if◌then◌else◌,
}
use kubera.Go.Float64.{Float64}
use kubera.Go.Time.{Time}
use kubera.Kube.Quantity.{Quantity}
use kubera.Kube.Objects.{ResourceList, Pod}
use kubera.Api.{HpaState, DynamicResourceStatus}
use kubera.Actuator.Cooldown.{CooldownTracker}
use kubera.Controller.Coupling.{Coordinated, unlisted, nil_write, coordinated}
use kubera.Controller.Gauges.{Gauges}
use kubera.Controller.Actuation.Targets.{find_recommendation}
use kubera.Controller.Actuation.Pods.{Pass, Flow, next, stop, state_of, and_then, pods_loop}
use kubera.Controller.Actuation.Pods.Steps.{evictions}
use kubera.Controller.Actuation.Pods.Requests.{pods_loop-balanced}
use kubera.Controller.Actuation.Pass.{
  Setting, Actuation, start, finish, workload_of, with_reclaimable, actuate_pods,
  actuate_coordinated, workload_step, workloads_loop, first, close_pass, actuate,
}

-- The resizes are counted as the accepted requests, with at most so many evictions.
abbrev Moderate : {Q F : Type 0} → ℕ → Actuation Q F → Actuation Q F → Type 0
Moderate n s after =
    (after.result.resized + length s.actions ≡ s.result.resized + length after.actions)
    × (evictions after.actions ≤ evictions s.actions + n)

Moderate-trans :
    {Q F : Type 0} (n : ℕ) (s t u : Actuation Q F)
    → Moderate 1 s t
    → Moderate n t u
    → Moderate (suc n) s u
Moderate-trans n s t u h k = (omega (arith, h.0, k.0), omega (arith, h.1, k.1))

Moderate-id : {Q F : Type 0} (n : ℕ) (s : Actuation Q F) → Moderate n s s
Moderate-id n s = (refl, omega arith)

finish-Moderate :
    {Q F : Type 0} (flow : Flow (Pass Q)) (key : String) (now : Time) (s : Actuation Q F)
    → (state_of flow).result.resized + length s.actions
      ≡ s.result.resized + length (state_of flow).actions
    → evictions (state_of flow).actions + (state_of flow).budget ≡ evictions s.actions + 1
    → Moderate 1 s (state_of (finish flow key now s))
finish-Moderate (next p) key now s h k = (h, omega (arith, k))
finish-Moderate (stop p) key now s h k = (h, omega (arith, k))

module _ {Q S F : Type 0} ⦃q : Quantity Q⦄ ⦃f : Float64 F⦄ (x : Setting Q S F) where
  actuate_pods-Moderate :
      (name : String) (targets : List (String × ResourceList Q)) (pods : Option (List (Pod Q)))
      (s : Actuation Q F)
      → Moderate 1 s (state_of (actuate_pods x name targets pods s))
  actuate_pods-Moderate name targets none s = Moderate-id 1 s
  actuate_pods-Moderate name targets (some pods) s =
      let w = workload_of x name targets s in
      let balanced = pods_loop-balanced w x.world.cluster pods (start s) in
      finish-Moderate (pods_loop w x.world.cluster pods (start s)) _ x.now
        (with_reclaimable x name pods targets s) balanced.0 balanced.1

  actuate_coordinated-Moderate :
      (name : String) (o : Coordinated Q) (s : Actuation Q F)
      → Moderate 1 s (state_of (actuate_coordinated x name o s))
  actuate_coordinated-Moderate name unlisted s = Moderate-id 1 s
  actuate_coordinated-Moderate name nil_write s = (refl, omega arith)
  actuate_coordinated-Moderate name (coordinated HpaState.scaling targets) s = (refl, omega arith)
  actuate_coordinated-Moderate name (coordinated _ targets) s =
      actuate_pods-Moderate name targets (x.world.pods name) _

  workload_step-Moderate :
      (name : String) (s : Actuation Q F) → Moderate 1 s (state_of (workload_step x name s))
  unfolding workload_step
  workload_step-Moderate name s = elim (Option-cases (find_recommendation name s.recommendations)) [
    | inl e ↦ rw e (Moderate-id 1 s)
    | inr (r, e) ↦ rw e (actuate_coordinated-Moderate name _ s)
  ]

  flow-Moderate :
      (n : ℕ) (s : Actuation Q F) (flow : Flow (Actuation Q F))
      (rest : Actuation Q F → Flow (Actuation Q F))
      → Moderate 1 s (state_of flow)
      → ((t : Actuation Q F) → Moderate n t (state_of (rest t)))
      → Moderate (suc n) s (state_of (and_then flow rest))
  flow-Moderate n s (next t) rest h k = Moderate-trans n s t (state_of (rest t)) h (k t)
  flow-Moderate n s (stop t) rest h k = (h.0, omega (arith, h.1))

  workloads_loop-Moderate :
      (names : List String) (s : Actuation Q F)
      → Moderate (length names) s (state_of (workloads_loop x names s))
  unfolding workloads_loop
  workloads_loop-Moderate [] s = Moderate-id 0 s
  workloads_loop-Moderate (name ∷ names) s =
      flow-Moderate (length names) s (workload_step x name s) (workloads_loop x names)
        (workload_step-Moderate name s) (workloads_loop-Moderate names)

  evictions_after :
      (flow : Flow (Actuation Q F)) (rest more : Actuation Q F → Flow (Actuation Q F))
      → ((t : Actuation Q F)
          → evictions (state_of (more t)).actions ≤ evictions (state_of (rest t)).actions + 1)
      → evictions (state_of (and_then flow more)).actions
        ≤ evictions (state_of (and_then flow rest)).actions + 1
  evictions_after (next t) rest more h = h t
  evictions_after (stop t) rest more h = omega arith

  -- One more deployment brings at most one more eviction.
  workloads_loop-last :
      (done : List String) (name : String) (s : Actuation Q F)
      → evictions (state_of (workloads_loop x (done ++ name ∷ []) s)).actions
        ≤ evictions (state_of (workloads_loop x done s)).actions + 1
  unfolding workloads_loop
  workloads_loop-last [] name s = (workloads_loop-Moderate (name ∷ []) s).1
  workloads_loop-last (d ∷ done) name s =
      evictions_after (workload_step x d s) (workloads_loop x done)
        (workloads_loop x (done ++ name ∷ [])) (workloads_loop-last done name)

  close_pass-Moderate :
      (status : DynamicResourceStatus Q) (flow : Flow (Actuation Q F))
      → let out = close_pass x status flow in
        (out.state.result ≡ (state_of flow).result)
        × (out.state.actions ≡ (state_of flow).actions)
        × (out.status.last_resize_time ≡ (
            if not out.is_error && ltb 0 (state_of flow).result.resized
            then some x.now
            else status.last_resize_time))
  close_pass-Moderate status (stop s) = (refl, refl, refl)
  close_pass-Moderate status (next s) = elim (Bool-cases (ltb 0 s.result.resized)) [
    | inl some_ ↦ simp some_ (refl, refl, refl)
    | inr none_ ↦ simp none_ (refl, refl, refl)
  ]

  -- However a whole pass ends, and whatever the API server answers: the pass counts as many resizes
  -- as requests were accepted; the last of the matched deployments adds at most one eviction to
  -- those of the pass over the deployments before it, whichever these are, so that there are at
  -- most as many evictions as deployments; and the time of the last resize becomes the present
  -- exactly if the pass ends without an error and a request was accepted, and else stays.
  pub actuate-moderate :
      (done : List String) (name : String) (status : DynamicResourceStatus Q)
      (cooldowns : CooldownTracker) (gauges : Gauges F)
      → let matched = done ++ name ∷ [] in
        let before = actuate x done status cooldowns gauges in
        let out = actuate x matched status cooldowns gauges in
        (out.state.result.resized ≡ length out.state.actions)
        × (evictions out.state.actions ≤ evictions before.state.actions + 1)
        × (evictions out.state.actions ≤ length matched)
        × (out.status.last_resize_time ≡ (
            if not out.is_error && ltb 0 (length out.state.actions)
            then some x.now
            else status.last_resize_time))
  unfolding actuate
  actuate-moderate done name status cooldowns gauges =
      let matched = done ++ name ∷ [] in
      let s = first status cooldowns gauges in
      let flow = workloads_loop x matched s in
      let (counted, few) = workloads_loop-Moderate matched s in
      let (result_eq, actions_eq, time_eq) = close_pass-Moderate status flow in
      let resized : (state_of flow).result.resized ≡ length (state_of flow).actions =
        omega (arith, counted) in
      (
        rw (result_eq, actions_eq) resized,
        rw (actions_eq, (close_pass-Moderate status (workloads_loop x done s)).1)
            (workloads_loop-last done name s),
        rw actions_eq (omega (arith, few)),
        rw (actions_eq, sym resized) time_eq,
      )
