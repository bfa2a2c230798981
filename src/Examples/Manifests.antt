-- ===== src/Examples/Manifests.antt =====
-- A manifest that the API server admits, and the table for an object.
use kubera.Base.{false, ◌≡◌, refl, true, none, some, String, List, [], ◌∷◌, All, pos, get_or}
use kubera.Go.Float64.Fixed.{fixed_float64, fixed-IsIeee}
use kubera.Kube.Quantity.Milli.{Milli, milli_quantity}
use kubera.Api.{UpdateMode, DynamicResource, DynamicResourceSpec}
use kubera.Api.Schema.{
  Manifest, admit, admit_update_mode, admit_controlled_values, admit_overrides, admit_metrics,
  admit_hpa,
}
use kubera.Api.Schema.Sound.{Conforms, admit-Conforms}
use kubera.Controller.Defaults.{IsEffective, admit-IsEffective}
use kubera.Cmd.Diff.{Row, Reader, run_diff, object_rows}
use kubera.Cmd.Diff.Rows.{IsShown, IsIn, run_diff-IsShown}
use kubera.Examples.{bounds_of, pinned_web, list_of, spec_of}
use kubera.Examples.Objects.{object_of}

-- A headroom of 0, a percentile and an override are sent, and nothing of the behavior.
abbrev manifest : Manifest Milli String
manifest = record {
  selector = "app=web";
  update_mode = some "InPlaceOnly";
  cpu = bounds_of 10 1000;
  memory = bounds_of 100_000 9_000_000;
  controlled_values = none;
  container_overrides =
      record { container_name = "sidecar"; mode = some "Off"; cpu = none; memory = none } ∷ [];
  metrics = some (record {
    provider = none;
    polling_interval = none;
    cpu_percentile = some (pos 99);
    memory_percentile = none;
    prometheus_url = none;
  });
  behavior = none;
  hpa = some (record {
    mode = none;
    reserve_headroom_percent = some (pos 0);
    pause_while_hpa_scaling = none;
    cooldown_after_hpa = none;
  });
}

abbrev admitted : DynamicResourceSpec Milli String
unfolding admit admit_update_mode admit_controlled_values admit_overrides admit_metrics admit_hpa
admitted = get_or (admit manifest) (spec_of UpdateMode.off)

admit-Conforms_example : Conforms manifest admitted
unfolding admitted
admit-Conforms_example = admit-Conforms manifest {spec = admitted} refl

admit-IsEffective_example : IsEffective fixed-IsIeee manifest admitted
unfolding admitted
admit-IsEffective_example = admit-IsEffective fixed-IsIeee manifest {spec = admitted} refl

-- A recommendation for the containers of a deployment.
abbrev recommended : DynamicResource Milli String
recommended = record (object_of UpdateMode.off) {
  status = record (object_of UpdateMode.off).status {
    recommendations =
        record {
          workload = "web";
          containers =
              record {
                container_name = "web";
                is_nil_target = false;
                target = list_of 100 500;
                applied = record { cpu = none; memory = none; others = [] };
              }
              ∷ [];
        }
        ∷ [];
  };
}

abbrev reader : Reader Milli String
reader = record {
  has_config = λ path. true;
  has_client = λ path. true;
  has_object_client = λ path. true;
  list = λ namespace. some (recommended ∷ []);
  deployment = λ namespace name. some (pinned_web ∷ []);
  print = λ quantity. "some";
}

abbrev table : List Row
unfolding object_rows
table = object_rows reader (recommended ∷ [])

run_diff-IsShown_example :
    (drs : List (DynamicResource Milli String)) × (some (recommended ∷ []) ≡ some drs)
    × All (IsShown reader drs) table
    × All
        (λ dr.
          All
            (λ rec. IsIn reader table dr.namespace rec (some (pinned_web ∷ [])))
            dr.status.recommendations)
        drs
unfolding run_diff table
run_diff-IsShown_example = run_diff-IsShown reader "config" "default" {rows = table} refl
