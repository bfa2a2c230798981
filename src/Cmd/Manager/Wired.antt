-- ===== src/Cmd/Manager/Wired.antt =====
-- cmd/main.go: what an operator that runs has registered.
use kubera.Base.{
  ◌≡◌, refl, arith, sym, ap, subst, Bool, true, false, Option, none, some, ◌⊎◌, inl, inr, List, [],
  ◌∷◌, ℤ, pos, ◌≤ℤ◌, max_ℤ, quot,
}
use kubera.Go.Float64.{Float64}
use kubera.Actuator.Detect.{detect_in_place_resize}
use kubera.Cmd.Manager.{
  Flags, Services, Wiring, Registered, the_controller, the_webhook, the_health_check,
  the_ready_check, Exit, exited, ran, initial_reconciler, supported_or_false, wiring,
  manager_options, run_main, must, add_webhook, add_checks,
}

abbrev pub controller_of : {F : Type 0} → List (Registered F) → Option (Wiring F)
controller_of [] = none
controller_of (the_controller w ∷ rest) = some w
controller_of (_ ∷ rest) = controller_of rest

abbrev pub has_webhook : {F : Type 0} → List (Registered F) → Bool
has_webhook [] = false
has_webhook (the_webhook ∷ rest) = true
has_webhook (_ ∷ rest) = has_webhook rest

must-ran :
    {F : Type 0} (b : Bool) (done : List (Registered F)) (rest : Exit F) {all : List (Registered F)}
    {ends : Bool}
    → must b done rest ≡ ran all ends
    → (b ≡ true) × (rest ≡ ran all ends)
must-ran true done rest h = (refl, h)
must-ran false done rest h = cc

pub one-le-max : (x : ℤ) → pos 1 ≤ℤ max_ℤ (pos 1) x
one-le-max x = ground arith

supported_or_false_lem :
    (detected : Option Bool) → (supported_or_false detected ≡ false) ⊎ (detected ≡ some true)
unfolding supported_or_false
supported_or_false_lem none = inl refl
supported_or_false_lem (some false) = inl refl
supported_or_false_lem (some true) = inr refl

abbrev registered : {F : Type 0} → Exit F → List (Registered F)
registered (exited done) = done
registered (ran done ends) = done

module _ {F : Type 0} ⦃f : Float64 F⦄ (services : Services F) where
  add_checks-ran :
      (done : List (Registered F)) {all : List (Registered F)} {ends : Bool}
      → add_checks services done ≡ ran all ends
      → the_ready_check ∷ the_health_check ∷ done ≡ all
  add_checks-ran done h =
      let (healthy, later) = must-ran services.healthz done _ h in
      let (ready, last) = must-ran services.readyz (the_health_check ∷ done) _ later in
      ap registered last

  -- What the controller and the webhook are.
  abbrev IsSetUp : Wiring F → Bool → List (Registered F) → Type 0
  IsSetUp w enabled all = (controller_of all ≡ some w) × (has_webhook all ≡ enabled)

  add_webhook-IsSetUp :
      (w : Wiring F) (enabled : Bool) {all : List (Registered F)} {ends : Bool}
      → add_webhook services enabled (the_controller w ∷ []) ≡ ran all ends
      → IsSetUp w enabled all
  add_webhook-IsSetUp w false h =
      subst (IsSetUp w false) (add_checks-ran (the_controller w ∷ []) h) (refl, refl)
  add_webhook-IsSetUp w true h =
      let (taken, later) = must-ran services.setup_webhook (the_controller w ∷ []) _ h in
      subst (IsSetUp w true) (add_checks-ran (the_webhook ∷ the_controller w ∷ []) later)
        (refl, refl)

  -- When the operator runs, the controller that is registered is one that was set up, starts without
  -- samples and cooldowns, counts on the webhook exactly if the webhook is registered as well, resizes
  -- pods only if discovery has told a version that supports it, and has a limiter that holds at least
  -- one token.
  pub run_main-wired :
      (flags : Flags) {all : List (Registered F)} {ends : Bool}
      → run_main services flags ≡ ran all ends
      → (w : Wiring F) × (controller_of all ≡ some w)
        × (services.setup_controller w ≡ true)
        × (w.reconciler ≡ initial_reconciler)
        × (w.webhook_enabled ≡ has_webhook all)
        × ((w.resize_supported ≡ false)
            ⊎ (detect_in_place_resize services.atoi services.version ≡ some true))
        × (pos 1 ≤ℤ w.limiter.burst)
  unfolding run_main wiring
  run_main-wired flags h =
      let detected = detect_in_place_resize services.atoi services.version in
      let w = wiring flags detected in
      let (managed, h1) = must-ran (services.new_manager (manager_options flags)) [] _ h in
      let (measured, h2) = must-ran services.metrics_client [] _ h1 in
      let (discovered, h3) = must-ran services.discovery_client [] _ h2 in
      let (set, h4) = must-ran (services.setup_controller w) [] _ h3 in
      let (controller, webhook) = add_webhook-IsSetUp w flags.enable_pod_webhook h4 in
      (
        w,
        controller,
        set,
        refl,
        sym webhook,
        supported_or_false_lem detected,
        one-le-max (quot flags.max_resizes_per_minute 6),
      )
