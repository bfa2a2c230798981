-- ===== src/Examples.antt =====
-- Concrete objects: a pod with one container, policies and a spec. Quantities are thousandths and
-- floating-point numbers fixed-point ones.
pub mod Plans
pub mod Resizes
pub mod Readouts
pub mod Passes
pub mod Owners
pub mod Admission
pub mod Replacements
pub mod Usages
pub mod Objects
pub mod Reconciles
pub mod Manifests
pub mod Starts
use kubera.Base.{ℕ, ◌*◌, Option, none, some, String, [], ◌∷◌, pos}
use kubera.Go.Float64.Fixed.{Fixed}
use kubera.Kube.Quantity.Milli.{Milli}
use kubera.Kube.Objects.{ResourceList, Container, QosClass, PodPhase, Pod}
use kubera.Api.{
  ControlledValues, UpdateMode, ContainerMode, ResourceBounds, ContainerOverride,
  DynamicResourceSpec,
}
use kubera.Actuator.Policy.{Policy}

abbrev pub bytes : ℕ → Milli
bytes n = pos (n * 1000)

abbrev pub list_of : ℕ → ℕ → ResourceList Milli
list_of cpu mem = record { cpu = some (pos cpu); memory = some (bytes mem); others = [] }

-- 100m and 1000 bytes requested, with limits twice as large.
abbrev pub web : Container Milli
web = record { name = "web"; requests = some (list_of 100 1000); limits = some (list_of 200 2000) }

-- 100m and 1000 bytes requested, with the same limits.
abbrev pub pinned_web : Container Milli
pinned_web = record {
  name = "web";
  requests = some (list_of 100 1000);
  limits = some (list_of 100 1000);
}

abbrev pub pod_of : Container Milli → Pod Milli
pod_of c = record {
  name = "web-1";
  deletion_timestamp = none;
  containers = c ∷ [];
  qos_class = QosClass.unset;
  phase = PodPhase.running;
  conditions = [];
  container_statuses = [];
}

abbrev pub policy_of : ControlledValues → Policy Fixed
policy_of v = record {
  controlled_values = v;
  tolerance = pos 100;
  max_step_up_percent = pos 50;
  max_step_down_percent = pos 20;
}

abbrev pub bounds_of : ℕ → ℕ → ResourceBounds Milli
bounds_of min max = record { min = pos min; max = pos max }

abbrev pub sidecar : ContainerOverride Milli
sidecar = record {
  container_name = "sidecar";
  mode = ContainerMode.auto;
  cpu = none;
  memory = some (bounds_of 100 500);
}

abbrev pub spec_of : UpdateMode → DynamicResourceSpec Milli String
spec_of mode = record {
  selector = "app=web";
  update_mode = mode;
  resources = record {
    cpu = bounds_of 10 1000;
    memory = bounds_of 100_000 9_000_000;
    controlled_values = ControlledValues.unset;
  };
  container_overrides = sidecar ∷ [];
  metrics = none;
  behavior = none;
  hpa = none;
}
