-- ===== src/Controller/Actuation/Pass/Apart.antt =====
-- internal/controller/actuation.go: cooldowns over several passes.
use kubera.Base.{
  ◌≡◌, refl, arith, ◌≤◌, ◌∙◌, sym, subst, Bool, true, false, ◌||◌, ◌&&◌, Option, none, some, inl,
  inr, ◌⊎◌, String, List, [], ◌∷◌, leb_ℤ, str_eq, Bool-cases,
}
use text.Mathlib.TextPositions.{eq_refl}
use kubera.Go.Float64.{Float64}
use kubera.Go.Time.{Time, Duration, since}
use kubera.Kube.Quantity.{Quantity}
use kubera.Kube.Objects.{Pod, ResourceList}
use kubera.Actuator.Policy.{Direction, up, down}
use kubera.Actuator.Cooldown.{CooldownTracker, allow}
use kubera.Actuator.Cooldown.Laws.{same_direction}
use kubera.Actuator.Resizer.{Cluster}
use kubera.Controller.Actuation.{cooldown_for}
use kubera.Controller.Actuation.Pods.{
  Action, Workload, Pass, Flow, next, stop, state_of, and_then, is_allowed, pod_step, pods_loop,
}
use kubera.Controller.Actuation.Pods.Steps.{
  flag, acts_in, Handled, idle, acted, IsJustified, pod_step-Handled,
}
use kubera.Controller.Actuation.Pass.{
  Setting, Actuation, finish, start, actuate_pods, workload_of, with_reclaimable,
}
use kubera.Controller.Actuation.Messages.{cooldown_key}
use kubera.Controller.Actuation.Pass.Stamped.{allow-stamp_all}

-- A later start makes an interval no longer.
since_anti :
    (later first second : Time) (d : Duration)
    → first ≤ second
    → leb_ℤ d (since later second) ≡ true
    → leb_ℤ d (since later first) ≡ true
unfolding since
since_anti later first second d le h = ground arith

same_direction_sound : (d e : Direction) → same_direction d e ≡ true → e ≡ d
same_direction_sound up up h = refl
same_direction_sound down down h = refl
same_direction_sound up down h = cc
same_direction_sound down up h = cc

or_cases : (a b : Bool) → (a || b) ≡ true → (a ≡ true) ⊎ (b ≡ true)
or_cases true b h = inl refl
or_cases false b h = inr h

module _ {Q S F : Type 0} ⦃q : Quantity Q⦄ ⦃f : Float64 F⦄ where
  IsJustified-allowed :
      (w : Workload Q S F) (pod : Pod Q) (d : Direction) (a : Action Q)
      → IsJustified w pod a
      → acts_in d a ≡ true
      → is_allowed w d ≡ true
  IsJustified-allowed w pod down (Action.evicted name) h e = h.3
  IsJustified-allowed w pod up (Action.evicted name) h e = cc
  IsJustified-allowed w pod d (Action.bumped plan) h e = cc
  IsJustified-allowed w pod d (Action.resized plan) h e =
      subst (λ x. is_allowed w x ≡ true) (same_direction_sound d plan.direction e) h.3

  -- A direction is noted only if it was before or its cooldown has passed.
  abbrev IsFree : Workload Q S F → Direction → Pass Q → Pass Q → Type 0
  IsFree w d s after = flag d after ≡ true → (flag d s ≡ true) ⊎ (is_allowed w d ≡ true)

  Handled-IsFree :
      {w : Workload Q S F} {pod : Pod Q} {s after : Pass Q} (d : Direction)
      → Handled w pod s after
      → IsFree w d s after
  Handled-IsFree d (idle actions_eq resized_eq budget_eq flag_eq resizes_eq) h =
      inl (sym (flag_eq d) ∙ h)
  Handled-IsFree {w = w} {pod = pod} {s = s} d
        (acted a actions_eq resized_eq budget_eq flag_eq resizes_eq seen why) h =
      elim (or_cases (flag d s) (acts_in d a) (sym (flag_eq d) ∙ h)) [
        | inl before ↦ inl before
        | inr acts ↦ inr (IsJustified-allowed w pod d a why acts)
      ]

  flow-IsFree :
      (w : Workload Q S F) (d : Direction) (s : Pass Q) (flow : Flow (Pass Q))
      (rest : Pass Q → Flow (Pass Q))
      → IsFree w d s (state_of flow)
      → ((t : Pass Q) → IsFree w d t (state_of (rest t)))
      → IsFree w d s (state_of (and_then flow rest))
  flow-IsFree w d s (next t) rest h k noted = elim (k t noted) [
    | inl before ↦ h before
    | inr allowed ↦ inr allowed
  ]
  flow-IsFree w d s (stop t) rest h k noted = h noted

  pods_loop-IsFree :
      (w : Workload Q S F) (cluster : Cluster Q) (pods : List (Pod Q)) (d : Direction) (s : Pass Q)
      → IsFree w d s (state_of (pods_loop w cluster pods s))
  unfolding pods_loop
  pods_loop-IsFree w cluster [] d s h = inl h
  pods_loop-IsFree w cluster (pod ∷ pods) d s h =
      flow-IsFree w d s (pod_step w cluster pod s) (pods_loop w cluster pods)
        (Handled-IsFree d (pod_step-Handled w cluster pod s))
        (λ t. pods_loop-IsFree w cluster pods d t) h

  start-IsFree :
      (w : Workload Q S F) (d : Direction) (s : Actuation Q F) (after : Pass Q)
      → IsFree w d (start s) after
      → flag d after ≡ true
      → is_allowed w d ≡ true
  start-IsFree w up s after free h = elim (free h) [ inl never ↦ cc | inr allowed ↦ allowed ]
  start-IsFree w down s after free h = elim (free h) [ inl never ↦ cc | inr allowed ↦ allowed ]

-- What the handling of workloads, of this object and of others, makes of the cooldowns from one
-- instant to a later one, errors included.
pub data Passes (Q S F : Type 0) ⦃q : Quantity Q⦄ ⦃f : Float64 F⦄
    : CooldownTracker → Time → CooldownTracker → Time → Type 0 where
  none_yet : {t : CooldownTracker} {now : Time} → Passes Q S F t now t now
  one_more :
      {t u : CooldownTracker} {now mid : Time}
      → Passes Q S F t now u mid
      → (x : Setting Q S F) (name : String) (targets : List (String × ResourceList Q))
        (pods : Option (List (Pod Q))) (s : Actuation Q F)
      → s.cooldowns ≡ u
      → mid ≤ x.now
      → Passes Q S F t now (state_of (actuate_pods x name targets pods s)).cooldowns x.now

-- Whenever the direction is allowed, its cooldown has passed since this instant.
abbrev Cooling : String → Direction → Time → CooldownTracker → Type 0
Cooling key d then_ t =
    (cooldown : Duration) (later : Time)
    → allow t key d cooldown later ≡ true
    → leb_ℤ cooldown (since later then_) ≡ true

finish-Cooling :
    {Q F : Type 0} (key other : String) (d : Direction) (then_ now : Time) (flow : Flow (Pass Q))
    (s : Actuation Q F)
    → then_ ≤ now
    → Cooling key d then_ s.cooldowns
    → Cooling key d then_ (state_of (finish flow other now s)).cooldowns
finish-Cooling key other d then_ now (stop p) s le h cooldown later allowed =
    h cooldown later allowed
finish-Cooling key other d then_ now (next p) s le h cooldown later allowed =
    let stamped = allow-stamp_all p s.cooldowns other key d cooldown now later in
    elim (Bool-cases (str_eq other key && flag d p)) [
      | inl same ↦ since_anti later then_ now cooldown le (sym (rw same at stamped) ∙ allowed)
      | inr differs ↦ h cooldown later (sym (rw differs at stamped) ∙ allowed)
    ]

noted-Cooling :
    {Q F : Type 0} (key : String) (d : Direction) (now : Time) (p : Pass Q) (s : Actuation Q F)
    → flag d p ≡ true
    → Cooling key d now (state_of (finish (next p) key now s)).cooldowns
noted-Cooling key d now p s noted cooldown later allowed =
    let stamped = allow-stamp_all p s.cooldowns key key d cooldown now later in
    sym (rw (eq_refl key, noted) at stamped) ∙ allowed

module _ {Q S F : Type 0} ⦃q : Quantity Q⦄ ⦃f : Float64 F⦄ where
  Passes-Cooling :
      (key : String) (d : Direction) (then_ : Time) {t u : CooldownTracker} {mid : Time}
      → Cooling key d then_ t
      → Passes Q S F t then_ u mid
      → (then_ ≤ mid) × Cooling key d then_ u
  Passes-Cooling key d then_ h none_yet = (omega arith, h)
  Passes-Cooling key d then_ h (one_more before x name targets none s e le) =
      let (le_mid, cooling) = Passes-Cooling key d then_ h before in
      (omega arith, subst (Cooling key d then_) (sym e) cooling)
  Passes-Cooling key d then_ h (one_more before x name targets (some pods) s e le) =
      let (le_mid, cooling) = Passes-Cooling key d then_ h before in
      (
        omega arith,
        finish-Cooling key (cooldown_key x.namespace name) d then_ x.now _
            (with_reclaimable x name pods targets s) (omega arith)
            (subst (Cooling key d then_) (sym e) cooling),
      )

  -- Take a pass over a deployment's pods that ends without an error and has noted a resize or an
  -- eviction in a direction, any number of passes over this and other deployments after it, with
  -- errors or not, in an order of time, and then a pass over the same deployment that notes the
  -- same direction again: between the two lies at least the cooldown that the last one's spec sets.
  pub actuate_pods-apart :
      (x : Setting Q S F) (name : String) (targets : List (String × ResourceList Q))
      (pods : List (Pod Q)) (s : Actuation Q F) (d : Direction) {p : Pass Q} {t : CooldownTracker}
      {mid : Time} (x' : Setting Q S F) (name' : String) (targets' : List (String × ResourceList Q))
      (pods' : List (Pod Q)) (s' : Actuation Q F)
      → pods_loop (workload_of x name targets s) x.world.cluster pods (start s) ≡ next p
      → flag d p ≡ true
      → Passes Q S F (state_of (actuate_pods x name targets (some pods) s)).cooldowns x.now t mid
      → s'.cooldowns ≡ t
      → mid ≤ x'.now
      → cooldown_key x'.namespace name' ≡ cooldown_key x.namespace name
      → flag d (
          state_of (pods_loop (workload_of x' name' targets' s') x'.world.cluster pods' (start s')))
        ≡ true
      → leb_ℤ (cooldown_for x'.spec d) (since x'.now x.now) ≡ true
  actuate_pods-apart x name targets pods s d {p} x' name' targets' pods' s' ended noted passes same
        le key again =
      let w = workload_of x' name' targets' s' in
      let allowed =
        start-IsFree w d s' (state_of (pods_loop w x'.world.cluster pods' (start s')))
          (pods_loop-IsFree w x'.world.cluster pods' d (start s')) again in
      let cooling =
        Passes-Cooling (cooldown_key x.namespace name) d x.now
          (rw ended (
            noted-Cooling (cooldown_key x.namespace name) d x.now p
              (with_reclaimable x name pods targets s) noted))
          passes in
      cooling.1 (cooldown_for x'.spec d) x'.now (rw (key, same) at allowed)
