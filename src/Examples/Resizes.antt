-- ===== src/Examples/Resizes.antt =====
-- Steps, bumps and cooldowns.
use kubera.Base.{
  ℕ, ◌≤◌, ◌≡◌, refl, arith, ℤ, pos, ◌≤ℤ◌, ◌<ℤ◌, some, true, false, String, List, [], ◌∷◌, contains,
  lookup,
}
use kubera.Go.Float64.Fixed.{Fixed, fixed_float64}
use kubera.Kube.Quantity.Milli.{Milli, milli_quantity}
use kubera.Kube.Objects.{Container}
use kubera.Api.{requests_and_limits}
use kubera.Actuator.Policy.{Policy}
use kubera.Actuator.Clamp.{FitsStep, step_clamp}
use kubera.Actuator.Clamp.Bounds.{resizes, step_clamp_bounds, step_clamp_stalls, resizes-reach}
use kubera.Actuator.Plan.{ContainerChange, plan_limits, resources, scale_limit}
use kubera.Actuator.Oom.{bump_container, bumped_memory}
use kubera.Actuator.Oom.Bumps.{bump_container_raises}
use kubera.Examples.{bytes, list_of, web, policy_of}

abbrev both : Policy Fixed
both = policy_of requests_and_limits

abbrev fits : (n : ℕ) → n ≤ 1000 → FitsStep both n 50 20
fits n h = record {
  up_eq = refl;
  down_eq = refl;
  down_le = omega arith;
  up_fits = omega arith;
  down_fits = omega arith;
}

step_clamp_bounds_example :
    (r : ℕ) × (step_clamp (pos 100) (pos 1000) both ≡ pos r)
    × (80 ≤ r)
    × (r ≤ 150)
    × (100 ≤ 1000 → (100 ≤ r) × (r ≤ 1000))
    × (1000 ≤ 100 → (1000 ≤ r) × (r ≤ 100))
step_clamp_bounds_example = step_clamp_bounds 1000 (fits 100 (omega arith))

-- One milli-core never grows, not even to a whole core.
step_clamp_stalls_example : step_clamp (pos 1) (pos 1000) both ≡ pos 1
step_clamp_stalls_example =
    step_clamp_stalls 1000 (fits 1 (omega arith)) (omega arith) (omega arith)

resizes-reach_example : resizes 900 (pos 100) (pos 1000) both ≡ pos 1000
resizes-reach_example =
    resizes-reach 900 100 1000 (fits 1000 (omega arith)) (omega arith) (omega arith) (omega arith)

abbrev maxima : List (String × Milli)
maxima = ("web", bytes 5000) ∷ []

abbrev bumped : ContainerChange Milli
bumped = record { name = "web"; requests = list_of 100 1500; limits = some (list_of 200 3000) }

bump_container_raises_example :
    (m : ℤ) × (contains "web" ("web" ∷ []) ≡ true)
    × (bumped.name ≡ "web")
    × (bumped.requests ≡ resources (pos 100) m)
    × (pos 1000 <ℤ m)
    × ((max : Milli) → lookup "web" maxima ≡ some max → m ≤ℤ milli_quantity.value max)
unfolding bump_container bumped_memory plan_limits scale_limit
bump_container_raises_example =
    bump_container_raises web ("web" ∷ []) maxima both false {change = bumped} refl refl

abbrev same_memory : Container Milli
same_memory = record {
  name = "web";
  requests = some (list_of 100 1000);
  limits = some (list_of 200 1000);
}
