-- ===== src/Examples/Objects.antt =====
-- A reconciler, an API server that takes every patch, and an object.
use kubera.Base.{
  ◌≡◌, refl, arith, Bool, true, false, none, some, String, List, [], ◌∷◌, str_eq, eq_iff,
  if◌then◌else◌, pos,
}
use kubera.Go.Float64.Fixed.{Fixed, fixed_float64}
use kubera.Kube.Quantity.Milli.{Milli, milli_quantity}
use kubera.Kube.Objects.{Condition}
use kubera.Api.{UpdateMode, HpaState, DynamicResource}
use kubera.Controller.Conflicts.{Selectors, Deployment}
use kubera.Metrics.{PodUsage}
use kubera.Controller.Vpa.{listed}
use kubera.Controller.Reconcile.{Environment, Reconciler}
use kubera.Controller.Reconcile.Verdict.{IsApi, find_condition}
use kubera.Controller.Gauges.{Gauges}
use kubera.Examples.{spec_of}

-- A condition of the kind is replaced, and another is appended.
abbrev pub set_status_condition : Condition → List Condition → List Condition
set_status_condition c [] = c ∷ []
set_status_condition c (d ∷ ds) =
    if str_eq d.kind c.kind then c ∷ ds else d ∷ set_status_condition c ds

set-found :
    (c : Condition) (cs : List Condition)
    → find_condition c.kind (set_status_condition c cs) ≡ some c
set-found c [] = ground (arith, eq_iff c.kind c.kind)
set-found c (d ∷ ds) = ground (arith, eq_iff c.kind c.kind, set-found c ds)

-- Only statuses without conditions are the same here.
abbrev pub both_empty : List Condition → List Condition → Bool
both_empty [] [] = true
both_empty _ _ = false

both_empty_sound : (a b : List Condition) → both_empty a b ≡ true → a ≡ b
both_empty_sound [] [] h = refl
both_empty_sound [] (d ∷ ds) h = cc
both_empty_sound (c ∷ cs) [] h = cc
both_empty_sound (c ∷ cs) (d ∷ ds) h = cc

abbrev pub by_label : Selectors String String String
by_label = record {
  compile = λ s. some s;
  is_empty = λ s. str_eq s "";
  matches = λ s label. str_eq s label;
}

abbrev pub web_deployment : Deployment String String
web_deployment = record { name = "web"; labels = "app=web"; pod_selector = "app=web" }

abbrev pub sample : PodUsage Milli
sample = record {
  pod = "web-1";
  timestamp = 100;
  containers = record { container = "web"; cpu = pos 20; memory = pos 30_000 } ∷ [];
}

-- The pods of the namespace are not read here, and its deployments are `deployments`.
abbrev pub env_of : List (Deployment String String) → Environment Milli String String String
env_of deployments = record {
  selectors = by_label;
  deployments = λ selector. some deployments;
  objects = some [];
  vertical_autoscalers = listed [];
  autoscalers = λ name. some [];
  pods = λ selector. some [];
  cluster = record {
    limiter = none;
    marshal = λ containers. some "{}";
    patch_resize = λ n namespace pod patch. true;
    create_eviction = λ n namespace pod. true;
  };
  metrics = λ namespace selector. some (sample ∷ []);
  prometheus = none;
  webhook_enabled = true;
  resize_supported = true;
  now = 1000;
  set_status_condition = set_status_condition;
  same_status = λ a b. both_empty a.conditions b.conditions;
  same_recommendations = λ a b. false;
  patch = λ status. true;
  text_of = λ failure. "invalid";
  printer = record { print_names = λ names. "names"; print_count = λ n. "some" };
}

pub env_of-IsApi : (deployments : List (Deployment String String)) → IsApi (env_of deployments)
env_of-IsApi deployments = record {
  set-found = λ c cs. (c, set-found c cs, refl, refl);
  same-conditions = λ {a} {b} h. both_empty_sound a.conditions b.conditions h;
}

abbrev pub object_of : UpdateMode → DynamicResource Milli String
object_of mode = record {
  name = "web";
  namespace = "default";
  generation = pos 1;
  creation_timestamp = 10;
  spec = spec_of mode;
  status = record {
    conditions = [];
    matched_workloads = [];
    recommendations = [];
    last_resize_time = none;
    hpa_state = HpaState.unset;
    observed_generation = pos 0;
  };
}

abbrev pub reconciler : Reconciler Fixed
reconciler = record { recommender = record { half_life = pos 1000; states = [] }; cooldowns = [] }

abbrev pub gauges : Gauges Fixed
gauges = record {
  recommended_cpu = [];
  recommended_memory = [];
  reclaimable_cpu = [];
  reclaimable_memory = [];
  resizes = [];
}
