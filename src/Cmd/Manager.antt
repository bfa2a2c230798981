-- ===== src/Cmd/Manager.antt =====
-- cmd/main.go: the start of the operator. The libraries that it calls (the manager, discovery, the
-- registration of the controller, of the webhook and of the checks) are the fields of `Services`.
pub mod Wired
use kubera.Base.{
  Bool, true, false, Option, none, some, String, List, [], ◌∷◌, str_eq, if◌then◌else◌, ℤ, pos, quot,
  max_ℤ,
}
use kubera.Go.Float64.{Float64}
use kubera.Actuator.Detect.{Version, detect_in_place_resize}
use kubera.Recommender.States.{new_recommender}
use kubera.Controller.Gauges.{Gauges}
use kubera.Controller.Reconcile.{Reconciler}

-- The flags of the command line.
pub record Flags : Type 0 where
  pub metrics_addr : String
  pub probe_addr : String
  pub enable_leader_election : Bool
  pub secure_metrics : Bool
  pub webhook_cert_path : String
  pub webhook_cert_name : String
  pub webhook_cert_key : String
  pub metrics_cert_path : String
  pub metrics_cert_name : String
  pub metrics_cert_key : String
  pub enable_http2 : Bool
  pub prometheus_url : String
  pub max_resizes_per_minute : ℤ
  pub enable_pod_webhook : Bool

abbrev pub default_flags : Flags
default_flags = record {
  metrics_addr = "0";
  probe_addr = ":8081";
  enable_leader_election = false;
  secure_metrics = true;
  webhook_cert_path = "";
  webhook_cert_name = "tls.crt";
  webhook_cert_key = "tls.key";
  metrics_cert_path = "";
  metrics_cert_name = "tls.crt";
  metrics_cert_key = "tls.key";
  enable_http2 = false;
  prometheus_url = "";
  max_resizes_per_minute = pos 30;
  enable_pod_webhook = false;
}

-- A function on a `tls.Config` sets the protocols that are offered.
pub data TlsOption : Type 0 where
  next_protos : List String → TlsOption

unfoldable pub tls_options : Bool → List TlsOption
tls_options true = []
tls_options false = next_protos ("http/1.1" ∷ []) ∷ []

pub record Certificate : Type 0 where
  pub cert_dir : String
  pub cert_name : String
  pub key_name : String

-- `if len(path) > 0`; the fields are empty else.
abbrev pub certificate : String → String → String → Certificate
certificate path name key =
    if str_eq path ""
    then record { cert_dir = ""; cert_name = ""; key_name = "" }
    else record { cert_dir = path; cert_name = name; key_name = key }

pub record ServerOptions : Type 0 where
  pub bind_address : String
  pub secure_serving : Bool
  pub has_authentication : Bool
  pub tls_opts : List TlsOption
  pub certificate_of : Certificate

pub record ManagerOptions : Type 0 where
  pub metrics : ServerOptions
  pub webhook_tls_opts : List TlsOption
  pub webhook_certificate : Certificate
  pub probe_address : String
  pub leader_election : Bool
  pub leader_election_id : String

unfoldable pub manager_options : Flags → ManagerOptions
unfolding tls_options
manager_options flags = record {
  metrics = record {
    bind_address = flags.metrics_addr;
    secure_serving = flags.secure_metrics;
    has_authentication = flags.secure_metrics;
    tls_opts = tls_options flags.enable_http2;
    certificate_of =
        certificate flags.metrics_cert_path flags.metrics_cert_name flags.metrics_cert_key;
  };
  webhook_tls_opts = tls_options flags.enable_http2;
  webhook_certificate =
      certificate flags.webhook_cert_path flags.webhook_cert_name flags.webhook_cert_key;
  probe_address = flags.probe_addr;
  leader_election = flags.enable_leader_election;
  leader_election_id = "59f7bfcc.kubera.io";
}

-- The token bucket of `rate.NewLimiter`: tokens a second, and how many it holds.
pub record Limiter (F : Type 0) : Type 0 where
  pub limit : F
  pub burst : ℤ

-- The fields of the reconciler that `main` decides.
pub record Wiring (F : Type 0) : Type 0 where
  pub reconciler : Reconciler F
  -- The URL of the Prometheus provider, if there is one.
  pub prometheus : Option String
  pub limiter : Limiter F
  pub resize_supported : Bool
  pub webhook_enabled : Bool

unfoldable pub supported_or_false : Option Bool → Bool
supported_or_false none = false
supported_or_false (some supported) = supported

abbrev pub initial_reconciler : {F : Type 0} → Reconciler F
initial_reconciler = record { recommender = new_recommender; cooldowns = [] }

module _ {F : Type 0} ⦃f : Float64 F⦄ where
  abbrev pub limiter_of : ℤ → Limiter F
  limiter_of n = record {
    limit = f.div (f.of_int n) (f.decimal 60 0);
    burst = max_ℤ (pos 1) (quot n 6);
  }

  unfoldable pub wiring : Flags → Option Bool → Wiring F
  unfolding supported_or_false
  wiring flags detected = record {
    reconciler = initial_reconciler;
    prometheus = if str_eq flags.prometheus_url "" then none else some flags.prometheus_url;
    limiter = limiter_of flags.max_resizes_per_minute;
    resize_supported = supported_or_false detected;
    webhook_enabled = flags.enable_pod_webhook;
  }

-- Whether what the libraries are asked for succeeds.
pub record Services (F : Type 0) : Type 0 where
  pub new_manager : ManagerOptions → Bool
  pub metrics_client : Bool
  pub discovery_client : Bool
  -- `strconv.Atoi` and the version that discovery gives.
  pub atoi : String → Option ℤ
  pub version : Option Version
  pub setup_controller : Wiring F → Bool
  pub setup_webhook : Bool
  pub healthz : Bool
  pub readyz : Bool
  -- Whether the manager, once started, ends without an error.
  pub manager_ends : Bool

-- What has been registered with the manager when `main` ends, in reverse order.
pub data Registered (F : Type 0) : Type 0 where
  the_controller : Wiring F → Registered F
  the_webhook the_health_check the_ready_check : Registered F

-- `os.Exit(1)` before the manager starts, and the two ends of a manager that has run.
pub data Exit (F : Type 0) : Type 0 where
  exited : List (Registered F) → Exit F
  ran : List (Registered F) → Bool → Exit F

-- `if err := ...; err != nil { os.Exit(1) }`.
abbrev must : {F : Type 0} → Bool → List (Registered F) → Exit F → Exit F
must false done rest = exited done
must true done rest = rest

module _ {F : Type 0} ⦃f : Float64 F⦄ (services : Services F) where
  abbrev run_manager : List (Registered F) → Exit F
  run_manager done = ran done services.manager_ends

  abbrev add_checks : List (Registered F) → Exit F
  add_checks done = must services.healthz done (
      must services.readyz (the_health_check ∷ done)
        (run_manager (the_ready_check ∷ the_health_check ∷ done)))

  abbrev add_webhook : Bool → List (Registered F) → Exit F
  add_webhook false done = add_checks done
  add_webhook true done = must services.setup_webhook done (add_checks (the_webhook ∷ done))

  abbrev set_up : Flags → Wiring F → Exit F
  set_up flags w =
      must (services.setup_controller w) []
        (add_webhook flags.enable_pod_webhook (the_controller w ∷ []))

  unfoldable pub run_main : Flags → Exit F
  unfolding wiring manager_options
  run_main flags = must (services.new_manager (manager_options flags)) [] (
      must services.metrics_client [] (
        must services.discovery_client []
          (set_up flags (wiring flags (detect_in_place_resize services.atoi services.version)))))
