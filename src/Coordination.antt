-- ===== src/Coordination.antt =====
-- internal/coordination/hpa.go: what the controller reads of a HorizontalPodAutoscaler.
pub mod Floor
use kubera.Base.{
  ◌||◌, ◌&&◌, not, Bool, true, false, Option, none, some, String, List, [], ◌∷◌, str_eq,
  if◌then◌else◌, ℤ, pos, ltb_ℤ, leb_ℤ, eqb_ℤ,
}
use kubera.Go.Int64.{sub32}
use kubera.Go.Float64.{Float64}
use kubera.Go.Time.{Time, Duration, since}
use kubera.Kube.Objects.{MetricTarget, ResourceMetric, MetricSpec, Autoscaler}

-- `FindHPA`, over the autoscalers of the namespace; the listing itself is the client's.
unfoldable pub find_hpa : List Autoscaler → String → Option Autoscaler
find_hpa [] deployment = none
find_hpa (h ∷ hs) deployment =
    if str_eq h.target_kind "Deployment" && str_eq h.target_name deployment
    then some h
    else find_hpa hs deployment

abbrev scaled_recently : Option Time → Duration → Time → Bool
scaled_recently none settle now = false
scaled_recently (some t) settle now = ltb_ℤ (since now t) settle

unfoldable pub is_scaling : Option Autoscaler → Duration → Time → Bool
is_scaling none settle now = false
is_scaling (some h) settle now =
    not (eqb_ℤ h.desired_replicas h.current_replicas)
    || scaled_recently h.last_scale_time settle now

-- The metric's resource and target, where the `switch` on the metric's type takes it.
abbrev metric_source : MetricSpec → Option ResourceMetric
metric_source m =
    if str_eq m.kind "Resource"
    then m.resource
    else (if str_eq m.kind "ContainerResource" then m.container_resource else none)

abbrev utilization_of : MetricTarget → Option ℤ
utilization_of t = if str_eq t.kind "Utilization" then t.average_utilization else none

-- The inner `switch`: the last metric for a resource wins.
abbrev assign : String → Option ℤ → ℤ × ℤ → ℤ × ℤ
assign name none acc = acc
assign name (some u) (cpu, mem) =
    if str_eq name "cpu" then (u, mem) else (if str_eq name "memory" then (cpu, u) else (cpu, mem))

abbrev take_metric : Option ResourceMetric → ℤ × ℤ → ℤ × ℤ
take_metric none acc = acc
take_metric (some r) acc = assign r.name (utilization_of r.target) acc

unfoldable pub utilization_loop : List MetricSpec → ℤ × ℤ → ℤ × ℤ
utilization_loop [] acc = acc
utilization_loop (m ∷ ms) acc = utilization_loop ms (take_metric (metric_source m) acc)

unfoldable pub target_utilization : Option Autoscaler → ℤ × ℤ
unfolding utilization_loop
target_utilization none = (pos 0, pos 0)
target_utilization (some h) = utilization_loop h.metrics (pos 0, pos 0)

unfoldable pub request_floor : {F : Type 0} ⦃f : Float64 F⦄ → F → ℤ → ℤ → ℤ
request_floor ⦃f⦄ usage target headroom =
    let effective = sub32 target headroom in
    if leb_ℤ target (pos 0) || leb_ℤ effective (pos 0)
    then pos 0
    else f.to_int (f.ceil (f.div (f.mul usage (f.decimal 100 0)) (f.of_int effective)))
