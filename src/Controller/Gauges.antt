-- ===== src/Controller/Gauges.antt =====
-- internal/controller/prommetrics.go: the gauges and the counter, each a map from the values of
-- its labels to a number.
pub mod Counted
use kubera.Base.{
  ℕ, ◌+◌, Bool, true, false, ◌&&◌, Option, none, some, String, List, [], ◌∷◌, str_eq, lookup,
  if◌then◌else◌, ℤ, pos, ltb_ℤ,
}
use kubera.Go.Float64.{Float64}
use kubera.Go.Int64.{sub64}
use kubera.Kube.Quantity.{Quantity}
use kubera.Kube.Objects.{ResourceName, ResourceList, index, or_zero, Container, Pod, PodPhase}
use kubera.Api.{ContainerRecommendation, WorkloadRecommendation}

-- A gauge vector.
abbrev pub Gauge : Type 0 → Type 0
Gauge F = List (List String × F)

-- A counter vector.
abbrev pub Counter : Type 0
Counter = List (List String × ℕ)

-- The gauges, and the counter `resizesTotal`.
pub record Gauges (F : Type 0) : Type 0 where
  pub recommended_cpu : Gauge F
  pub recommended_memory : Gauge F
  pub reclaimable_cpu : Gauge F
  pub reclaimable_memory : Gauge F
  pub resizes : Counter

-- No label values are set at the start.
abbrev pub initial_gauges : {F : Type 0} → Gauges F
initial_gauges = record {
  recommended_cpu = [];
  recommended_memory = [];
  reclaimable_cpu = [];
  reclaimable_memory = [];
  resizes = [];
}

unfoldable pub same_labels : List String → List String → Bool
same_labels [] [] = true
same_labels [] (y ∷ ys) = false
same_labels (x ∷ xs) [] = false
same_labels (x ∷ xs) (y ∷ ys) = str_eq x y && same_labels xs ys

-- `WithLabelValues(labels...).Set(v)`.
abbrev pub set_gauge : {F : Type 0} → List String → F → Gauge F → Gauge F
set_gauge labels v [] = (labels, v) ∷ []
set_gauge labels v ((l, w) ∷ rest) =
    if same_labels l labels then (labels, v) ∷ rest else (l, w) ∷ set_gauge labels v rest

-- `WithLabelValues(labels...).Inc()`.
abbrev pub increment : List String → Counter → Counter
increment labels [] = (labels, 1) ∷ []
increment labels ((l, n) ∷ rest) =
    if same_labels l labels then (labels, n + 1) ∷ rest else (l, n) ∷ increment labels rest

abbrev pub count_of : List String → Counter → ℕ
count_of labels [] = 0
count_of labels ((l, n) ∷ rest) = if same_labels l labels then n else count_of labels rest

abbrev pub gauge_of : {F : Type 0} → List String → Gauge F → Option F
gauge_of labels [] = none
gauge_of labels ((l, w) ∷ rest) = if same_labels l labels then some w else gauge_of labels rest

-- `if d := cur - tgt; d > 0 { gap += float64(d) }`.
abbrev pub add_gap : {F : Type 0} ⦃f : Float64 F⦄ → ℤ → ℤ → F → F
add_gap ⦃f⦄ current target gap =
    let d = sub64 current target in if ltb_ℤ (pos 0) d then f.add gap (f.of_int d) else gap

-- Being deleted, or not running.
abbrev is_skipped : {Q : Type 0} → Pod Q → Bool
is_skipped pod = elim pod.deletion_timestamp [
  | some t ↦ true
  | none ↦ elim pod.phase [ PodPhase.running ↦ false | _ ↦ true ]
]

module _ {Q F : Type 0} ⦃q : Quantity Q⦄ ⦃f : Float64 F⦄ where
  abbrev set_recommended : List String → ResourceList Q → Gauges F → Gauges F
  set_recommended labels target g = record g {
    recommended_cpu =
        set_gauge labels (f.of_int (q.milli_value (or_zero target.cpu))) g.recommended_cpu;
    recommended_memory =
        set_gauge labels (f.of_int (q.value (or_zero target.memory))) g.recommended_memory;
  }

  -- The inner loop, over a workload's containers.
  unfoldable pub publish_containers :
      String → String → String → List (ContainerRecommendation Q) → Gauges F → Gauges F
  publish_containers namespace name workload [] g = g
  publish_containers namespace name workload (c ∷ cs) g =
      publish_containers namespace name workload cs
        (set_recommended (namespace ∷ name ∷ workload ∷ c.container_name ∷ []) c.target g)

  unfoldable pub publish_recommendation_metrics :
      String → String → List (WorkloadRecommendation Q) → Gauges F → Gauges F
  unfolding publish_containers
  publish_recommendation_metrics namespace name [] g = g
  publish_recommendation_metrics namespace name (w ∷ ws) g =
      publish_recommendation_metrics namespace name ws
        (publish_containers namespace name w.workload w.containers g)

  -- CPU and memory.
  abbrev pub container_gap : Container Q → Option (ResourceList Q) → F × F → F × F
  container_gap c none gaps = gaps
  container_gap c (some target) (cpu_gap, mem_gap) = (
    add_gap (q.milli_value (or_zero (index ResourceName.cpu c.requests)))
        (q.milli_value (or_zero target.cpu)) cpu_gap,
    add_gap (q.value (or_zero (index ResourceName.memory c.requests)))
        (q.value (or_zero target.memory)) mem_gap,
  )

  unfoldable pub containers_gap :
      List (String × ResourceList Q) → List (Container Q) → F × F → F × F
  containers_gap targets [] gaps = gaps
  containers_gap targets (c ∷ cs) gaps =
      containers_gap targets cs (container_gap c (lookup c.name targets) gaps)

  unfoldable pub pods_gap : List (String × ResourceList Q) → List (Pod Q) → F × F → F × F
  unfolding containers_gap
  pods_gap targets [] gaps = gaps
  pods_gap targets (pod ∷ pods) gaps =
      pods_gap targets pods
        (if is_skipped pod then gaps else containers_gap targets pod.containers gaps)

  unfoldable pub publish_reclaimable_metrics :
      String → String → String → List (Pod Q) → List (String × ResourceList Q) → Gauges F → Gauges F
  unfolding pods_gap
  publish_reclaimable_metrics namespace name workload pods targets g =
      let (cpu_gap, mem_gap) = pods_gap targets pods (f.of_int (pos 0), f.of_int (pos 0)) in
      let labels = namespace ∷ name ∷ workload ∷ [] in
      record g {
        reclaimable_cpu = set_gauge labels cpu_gap g.reclaimable_cpu;
        reclaimable_memory = set_gauge labels mem_gap g.reclaimable_memory;
      }
