-- ===== src/Examples/Admission.antt =====
-- A new pod at admission.
use kubera.Webhook.Owner.{owning_deployment, owner_of}
use kubera.Webhook.Owner.Named.{owner_of-owning_deployment}
use kubera.Base.{false, ◌≡◌, refl, inl, none, some, [], ◌∷◌, pos}
use kubera.Go.Float64.Fixed.{Fixed, fixed_float64}
use kubera.Kube.Quantity.Milli.{Milli, milli_quantity, milli-IsQuantity}
use kubera.Kube.Objects.{guaranteed}
use kubera.Api.{UpdateMode, HpaState, DynamicResourceStatus}
use kubera.Actuator.Qos.{qos_class, qos_loop}
use kubera.Webhook.{Approximate, default_pod}
use kubera.Webhook.Applied.{default_pod-guaranteed}
use kubera.Examples.{list_of, pinned_web, pod_of}

-- Both are thousandths.
abbrev pub thousandths : Approximate Milli Fixed
thousandths = record { to_float = λ q. q }

abbrev pub status : DynamicResourceStatus Milli
status = record {
  conditions = [];
  observed_generation = pos 1;
  matched_workloads = [];
  recommendations =
      record {
        workload = "web";
        containers =
            record {
              container_name = "web";
              is_nil_target = false;
              target = list_of 70 800;
              applied = list_of 100 1000;
            }
            ∷ [];
      }
      ∷ [];
  last_resize_time = none;
  hpa_state = HpaState.idle;
}

default_pod-guaranteed_example :
    qos_class (
      default_pod thousandths
        (some "web")
        ((UpdateMode.in_place_only, status) ∷ [])
        (pod_of pinned_web))
    ≡ guaranteed
unfolding qos_class qos_loop
default_pod-guaranteed_example =
    default_pod-guaranteed thousandths milli-IsQuantity (some "web")
      ((UpdateMode.in_place_only, status) ∷ []) (pod_of pinned_web) refl refl

-- The ReplicaSet can not be read.
owner_of-owning_deployment_example :
    owner_of
      (owning_deployment (λ name. none) (record { kind = "ReplicaSet"; name = "web-5d4f" } ∷ []))
    ≡ some "web"
owner_of-owning_deployment_example =
    owner_of-owning_deployment (λ name. none) "web" "5d4f"
      (record { kind = "ReplicaSet"; name = "web-5d4f" }) [] refl (refl, (refl, (refl, (refl, tt))))
      refl (inl refl)
