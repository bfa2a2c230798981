-- ===== src/Examples/Starts.antt =====
-- The start of the operator, and its first passes.
use kubera.Base.{◌≡◌, refl, true, false, some, ◌⊎◌, List, [], ◌∷◌, get_or, pos, ◌≤ℤ◌}
use kubera.Go.Float64.Fixed.{Fixed, fixed_float64, fixed-IsIeee}
use kubera.Go.Float64.Fixed.Rough.{fixed-IsLog}
use kubera.Go.Time.{seconds, since}
use kubera.Kube.Quantity.Milli.{Milli, milli_quantity, milli-IsQuantity}
use kubera.Api.{UpdateMode}
use kubera.Actuator.Detect.{detect_in_place_resize}
use kubera.Recommender.States
use kubera.Recommender.States.{new_recommender}
use kubera.Recommender.Histogram
use kubera.Base.Sorting.{sort_by}
use kubera.Controller.Bounds.{validate_bounds}
use kubera.Controller.Conflicts.{conflicted_workloads, is_taken}
use kubera.Controller.Vpa.{vpa_conflicts}
use kubera.Controller.Collection.Workloads.{compute_recommendations}
use kubera.Controller.Gauges.{initial_gauges}
use kubera.Controller.Reconcile.{resolve_selector}
use kubera.Controller.Reconcile.Endings.{Reconciled}
use kubera.Controller.Reconcile.Handler.{reconcile_object}
use kubera.Controller.Reconcile.Total.{start, pass, reconcile_object-ends}
use kubera.Cmd.Manager.{
  default_flags, Flags, Services, Wiring, Registered, the_controller, the_webhook, the_health_check,
  the_ready_check, initial_reconciler, wiring, run_main,
}
use kubera.Cmd.Manager.Wired.{controller_of, run_main-wired}
use kubera.Examples.Reconciles.{web_env, nothing}
use kubera.Examples.Objects.{web_deployment, env_of-IsApi, object_of}

-- The pass over a deployment with one sample, after the start.
abbrev first_pass : Reconciled Milli Fixed
unfolding reconcile_object
first_pass =
    get_or (reconcile_object web_env (object_of UpdateMode.off) initial_reconciler initial_gauges)
      nothing

reconcile_object-ends_example :
    (out : Reconciled Milli Fixed) × (reconcile_object web_env
        (object_of UpdateMode.in_place_only)
        first_pass.progress.reconciler
        first_pass.progress.gauges
      ≡ some out)
unfolding first_pass reconcile_object validate_bounds resolve_selector conflicted_workloads sort_by
    is_taken vpa_conflicts compute_recommendations States.observe States.add_sample
    Histogram.observe seconds Histogram.new_decaying_histogram since new_recommender
reconcile_object-ends_example =
    reconcile_object-ends milli-IsQuantity fixed-IsIeee fixed-IsLog web_env
      (object_of UpdateMode.in_place_only)
      (pass {out = first_pass} start web_env (object_of UpdateMode.off)
        (env_of-IsApi (web_deployment ∷ [])) refl)
      (env_of-IsApi (web_deployment ∷ [])) tt

-- The webhook is on, and the server is of a version that resizes pods.
abbrev flags : Flags
flags = record default_flags { enable_pod_webhook = true }

abbrev services : Services Fixed
services = record {
  new_manager = λ options. true;
  metrics_client = true;
  discovery_client = true;
  atoi = λ text. some (pos 33);
  version = some (record { major = "33"; minor = "33" });
  setup_controller = λ w. true;
  setup_webhook = true;
  healthz = true;
  readyz = true;
  manager_ends = true;
}

abbrev all_registered : List (Registered Fixed)
all_registered =
    the_ready_check
    ∷ the_health_check
    ∷ the_webhook
    ∷ the_controller (wiring flags (some true))
    ∷ []

run_main-wired_example :
    (w : Wiring Fixed) × (controller_of all_registered ≡ some w)
    × (true ≡ true)
    × (w.reconciler ≡ initial_reconciler)
    × (w.webhook_enabled ≡ true)
    × ((w.resize_supported ≡ false)
        ⊎ (detect_in_place_resize services.atoi services.version ≡ some true))
    × (pos 1 ≤ℤ w.limiter.burst)
unfolding detect_in_place_resize run_main
run_main-wired_example = run_main-wired services flags {all = all_registered} {ends = true} refl
