-- ===== src/Actuator/Lookups.antt =====
-- internal/actuator/plan.go and recreate.go: how the map of targets is read.
use kubera.Base.{◌≡◌, refl, subst, Bool, String, List, [], ◌∷◌, lookup}
use kubera.Go.Float64.{Float64}
use kubera.Kube.Quantity.{Quantity}
use kubera.Kube.Objects.{ResourceList, Container, Pod}
use kubera.Actuator.Policy.{Direction, down, Policy}
use kubera.Actuator.Qos.{qos_class, is_guaranteed}
use kubera.Actuator.Plan.{ContainerChange, add_change, plan_target, plan_loop, plan_pod}
use kubera.Actuator.Recreate.{shrink_loop, blocked_memory_shrink}

module _ {Q F : Type 0} ⦃q : Quantity Q⦄ ⦃f : Float64 F⦄ where
  plan_loop-agree :
      (cs : List (Container Q)) (targets others : List (String × ResourceList Q))
      (policy : Policy F) (pinned : Bool) (acc : List (ContainerChange Q) × Direction)
      → ((name : String) → lookup name targets ≡ lookup name others)
      → plan_loop cs targets policy pinned acc ≡ plan_loop cs others policy pinned acc
  unfolding plan_loop
  plan_loop-agree [] targets others policy pinned acc h = refl
  plan_loop-agree (c ∷ cs) targets others policy pinned acc h =
      subst
        (λ t.
          plan_loop cs targets policy pinned
            (add_change (plan_target c (lookup c.name targets) policy pinned) acc)
          ≡ plan_loop cs others policy pinned (add_change (plan_target c t policy pinned) acc))
        (h c.name) (plan_loop-agree cs targets others policy pinned _ h)

  shrink_loop-agree :
      (cs : List (Container Q)) (targets others : List (String × ResourceList Q))
      (policy : Policy F)
      → ((name : String) → lookup name targets ≡ lookup name others)
      → shrink_loop cs targets policy ≡ shrink_loop cs others policy
  unfolding shrink_loop
  shrink_loop-agree [] targets others policy h = refl
  shrink_loop-agree (c ∷ cs) targets others policy h =
      rw (h c.name, shrink_loop-agree cs targets others policy h) refl

  -- A plan and an eviction depend on the target of each name only.
  pub agree :
      (pod : Pod Q) (targets others : List (String × ResourceList Q)) (policy : Policy F)
      → ((name : String) → lookup name targets ≡ lookup name others)
      → (plan_pod pod targets policy ≡ plan_pod pod others policy)
        × (blocked_memory_shrink pod targets policy ≡ blocked_memory_shrink pod others policy)
  unfolding plan_pod blocked_memory_shrink
  agree pod targets others policy h =
      let pinned = is_guaranteed (qos_class pod) in
      (
        rw (plan_loop-agree pod.containers targets others policy pinned ([], down) h) refl,
        rw (shrink_loop-agree pod.containers targets others policy h) refl,
      )
