-- ===== src/Controller/Actuation/Pass/Stamped.antt =====
-- internal/controller/actuation.go: the cooldowns that `actuate` records for a workload.
use mathlib.Core.List.{append_assoc}
use kubera.Base.{
  ◌≡◌, refl, arith, ◌∙◌, sym, Bool, true, false, ◌||◌, ◌&&◌, some, String, List, [], ◌∷◌, ◌++◌,
  leb_ℤ, str_eq, if◌then◌else◌,
}
use kubera.Go.Float64.{Float64}
use kubera.Go.Time.{Time, Duration, since}
use kubera.Kube.Quantity.{Quantity}
use kubera.Kube.Objects.{Pod, ResourceList}
use kubera.Actuator.Policy.{Direction, up, down}
use kubera.Actuator.Cooldown.{CooldownTracker, allow}
use kubera.Actuator.Cooldown.Laws.{same_direction, allow-record_resize}
use kubera.Actuator.Resizer.{Cluster}
use kubera.Controller.Actuation.Pods.{
  Action, Workload, Pass, Flow, next, stop, state_of, and_then, pod_step, pods_loop,
}
use kubera.Controller.Actuation.Pods.Steps.{
  of_direction, flag, acts_in, or_false, Handled, idle, acted, pod_step-Handled,
}
use kubera.Controller.Actuation.Pass.{
  Setting, Actuation, stamp_all, stamp_if, start, actuate_pods, workload_of,
}
use kubera.Controller.Actuation.Messages.{cooldown_key}

abbrev pub any_in : {Q : Type 0} → Direction → List (Action Q) → Bool
any_in d [] = false
any_in d (a ∷ rest) = acts_in d a || any_in d rest

-- The requests that were added, and the directions that they are noted for.
abbrev Noted : {Q : Type 0} → Pass Q → Pass Q → Type 0
Noted {Q} s after =
    (new : List (Action Q)) × (after.actions ≡ new ++ s.actions)
    × ((d : Direction) → flag d after ≡ (flag d s || any_in d new))

any_in-append :
    {Q : Type 0} (d : Direction) (xs ys : List (Action Q))
    → any_in d (xs ++ ys) ≡ (any_in d xs || any_in d ys)
any_in-append d [] ys = refl
any_in-append d (x ∷ xs) ys = ground (arith, any_in-append d xs ys)

or_swap : (a b c : Bool) → ((a || b) || c) ≡ (a || (c || b))
or_swap a b c = ground arith

Noted-trans : {Q : Type 0} (s t u : Pass Q) → Noted s t → Noted t u → Noted s u
Noted-trans s t u (xs, xs_eq, xs_flag) (ys, ys_eq, ys_flag) = (
  ys ++ xs,
  rw (ys_eq, xs_eq) (sym (append_assoc ys xs s.actions)),
  λ d.
      rw (ys_flag d, xs_flag d, any_in-append d ys xs)
        (or_swap (flag d s) (any_in d xs) (any_in d ys)),
)

flow-Noted :
    {Q : Type 0} (s : Pass Q) (flow : Flow (Pass Q)) (rest : Pass Q → Flow (Pass Q))
    → Noted s (state_of flow)
    → ((t : Pass Q) → Noted t (state_of (rest t)))
    → Noted s (state_of (and_then flow rest))
flow-Noted s (next t) rest h k = Noted-trans s t (state_of (rest t)) h (k t)
flow-Noted s (stop t) rest h k = h

module _ {Q S F : Type 0} ⦃q : Quantity Q⦄ ⦃f : Float64 F⦄ where
  Handled-Noted :
      {w : Workload Q S F} {pod : Pod Q} {s after : Pass Q} → Handled w pod s after → Noted s after
  Handled-Noted {s = s} (idle actions_eq resized_eq budget_eq flag_eq resizes_eq) =
      ([], actions_eq, λ d. flag_eq d ∙ or_false (flag d s))
  Handled-Noted {s = s} (acted a actions_eq resized_eq budget_eq flag_eq resizes_eq seen why) =
      (a ∷ [], actions_eq, λ d. ground (arith, flag_eq d))

  pods_loop-Noted :
      (w : Workload Q S F) (cluster : Cluster Q) (pods : List (Pod Q)) (s : Pass Q)
      → Noted s (state_of (pods_loop w cluster pods s))
  unfolding pods_loop
  pods_loop-Noted w cluster [] s = ([], refl, λ d. or_false (flag d s))
  pods_loop-Noted w cluster (pod ∷ pods) s =
      flow-Noted s (pod_step w cluster pod s) (pods_loop w cluster pods)
        (Handled-Noted (pod_step-Handled w cluster pod s)) (pods_loop-Noted w cluster pods)

allow-stamp_if :
    (b : Bool) (t : CooldownTracker) (key other : String) (d e : Direction) (cooldown : Duration)
    (then_ now : Time)
    → allow (stamp_if b t key d then_) other e cooldown now ≡ (
        if str_eq key other && (b && same_direction d e)
        then leb_ℤ cooldown (since now then_)
        else allow t other e cooldown now)
allow-stamp_if true t key other d e cooldown then_ now =
    allow-record_resize t key other d e cooldown then_ now
allow-stamp_if false t key other d e cooldown then_ now = ground arith

start-flag :
    {Q F : Type 0} (e : Direction) (s : Actuation Q F) (b : Bool) → (flag e (start s) || b) ≡ b
start-flag up s b = refl
start-flag down s b = refl

-- Two tests in a row, for the two directions.
two_tests :
    {A : Type 0} (same up_ down_ : Bool) (e : Direction) (a b : A)
    → (if same && (down_ && same_direction down e)
        then a
        else (if same && (up_ && same_direction up e) then a else b))
      ≡ (if same && of_direction e up_ down_ then a else b)
two_tests same up_ down_ up a b = ground arith
two_tests same up_ down_ down a b = ground arith

-- What recording both directions changes.
pub allow-stamp_all :
    {Q : Type 0} (s : Pass Q) (t : CooldownTracker) (key other : String) (e : Direction)
    (cooldown : Duration) (then_ now : Time)
    → allow (stamp_all s t key then_) other e cooldown now ≡ (
        if str_eq key other && flag e s
        then leb_ℤ cooldown (since now then_)
        else allow t other e cooldown now)
unfolding stamp_all
allow-stamp_all s t key other e cooldown then_ now =
    rw
      (
        allow-stamp_if s.went_down (stamp_if s.went_up t key up then_) key other down e cooldown
            then_ now,
        allow-stamp_if s.went_up t key other up e cooldown then_ now,
      )
      (two_tests (str_eq key other) s.went_up s.went_down e (leb_ℤ cooldown (since now then_))
        (allow t other e cooldown now))

module _ {Q S F : Type 0} ⦃q : Quantity Q⦄ ⦃f : Float64 F⦄ where
  -- When the pods of a workload are handled without an error, the workload's cooldown starts now in
  -- exactly the directions in which a request of this pass was accepted, an eviction counting as
  -- down and a bump after an OOMKill not at all; every other workload, and a direction without an
  -- accepted request, is allowed as before.
  pub actuate_pods-cools :
      (x : Setting Q S F) (name : String) (targets : List (String × ResourceList Q))
      (pods : List (Pod Q)) (s : Actuation Q F) {p : Pass Q}
      → pods_loop (workload_of x name targets s) x.world.cluster pods (start s) ≡ next p
      → let after = state_of (actuate_pods x name targets (some pods) s) in
        (new : List (Action Q)) × (after.actions ≡ new ++ s.actions)
        × ((other : String) (e : Direction) (cooldown : Duration) (later : Time)
            → allow after.cooldowns other e cooldown later ≡ (
                if str_eq (cooldown_key x.namespace name) other && any_in e new
                then leb_ℤ cooldown (since later x.now)
                else allow s.cooldowns other e cooldown later))
  actuate_pods-cools x name targets pods s {p} h =
      let (new, actions_eq, flag_eq) =
        pods_loop-Noted (workload_of x name targets s) x.world.cluster pods (start s) in
      let key = cooldown_key x.namespace name in
      (
        new,
        rw h (rw h at actions_eq),
        λ other e cooldown later.
            let noted = rw h at flag_eq e in
            rw
              (
                h,
                allow-stamp_all p s.cooldowns key other e cooldown x.now later,
                noted ∙ start-flag e s (any_in e new),
              )
              refl,
      )
