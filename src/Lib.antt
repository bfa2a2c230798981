-- ===== src/Lib.antt =====
-- KubeRA: vertical resizing of the pods of Kubernetes deployments, next to horizontal autoscaling.
--
-- The program is an operator. Its controller (internal/controller) samples the usage of the
-- containers of the deployments that a DynamicResource object selects, keeps histograms of it
-- (internal/recommender), and publishes a target of CPU and memory for each container. An
-- actuation pass then goes over the pods, holds back where a HorizontalPodAutoscaler is at work
-- (internal/coordination), plans a resize of each pod (internal/actuator) and sends it to the API
-- server, within cooldowns, or evicts a pod that can not be resized in place. A webhook
-- (internal/webhook) gives the target to the pod that replaces it.
--
-- Which file models what:
--   Base           shared names, native integers, lists and maps with text keys
--   Go             int64 arithmetic that wraps, floating point, and package time
--   Kube           resource.Quantity, and the fields that are read of pods and autoscalers
--   Api            api/v1alpha1/dynamicresource_types.go; Schema is the admission of a spec by the
--                  markers of its fields (enumerations, ranges, defaults)
--   Actuator       internal/actuator: Policy, Clamp, Qos and Plan are plan.go, Oom is oom.go,
--                  Recreate is recreate.go, Resizer, Cooldown and Detect are resizer.go
--   Coordination   internal/coordination/hpa.go
--   Recommender    internal/recommender: Histogram is histogram.go, States is recommender.go
--   Metrics        internal/metrics: Server, Fake and Prometheus are its providers (Names and
--                  Query are the text of a query and the samples of an answer, Merge their merge)
--   Controller     internal/controller: Bounds (validateBounds, boundsFor, clampQuantity,
--                  maxMemoryBounds), Targets and Collection (recommendation.go; Workloads is the
--                  loop over the deployments), Coupling (coordinateHPA), Conflicts
--                  (conflictedWorkloads, olderThan), Vpa (vpa.go), Gauges (prommetrics.go),
--                  Actuation (actuate; Pods is its inner loop, Pass its outer one), where the
--                  limiter, `Apply` and `Evict` answer the numbered requests of a pass, and
--                  Reconcile (Reconcile; Handler is its body, Endings the ways in which it ends,
--                  Verdict what its guards decide), Watches (the requests of watch events),
--                  Defaults (what the code reads of an admitted spec)
--   Webhook        internal/webhook/pod_webhook.go; Owner is owningDeployment
--   Cmd            cmd: Manager is main.go, Diff is kubectl-kubera/main.go
--   Examples       concrete objects and runs
-- A theorem about a definition stands in a child of the definition's module.
--
-- How code and model correspond. A Go map with string keys is an association list, a nil pointer
-- or a missing key is `none`, and a struct is a record with the fields that are read. A loop with
-- `continue` and early returns is a recursion over the list with one step function, and what the
-- step changes is a record that is passed along: `Pass` for the pods of a workload, `Actuation`
-- for the workloads. An error return is `stop`, with the state as it is then. No loop needs fuel.
-- A panic (the write of a histogram out of range, an assignment to a nil map of targets) ends a
-- pass of `Reconcile` with `none`. `is_nil_target` tells a nil map from an empty one.
-- `int64` arithmetic wraps at 2 ^ 63 (Go.Int64); an instant is a natural number of nanoseconds
-- and a difference of instants saturates as in Go.
--
-- What is a parameter. `resource.Quantity` is the interface Quantity with the laws IsQuantity, and
-- `float64` is Float64 with IsIeee: correctly rounded arithmetic is monotone, and exact on integers
-- up to 2 ^ 53; each law has the range in which it holds. Kube.Quantity.Milli and Go.Float64.Fixed
-- are instances that compute and meet the laws; IsLog has the facts of `math.Log` that keep a
-- histogram in range. The rate limiter and the API server's answers are functions of the number of
-- the request, and what listing gives is an argument, so that a theorem holds for every sequence of
-- answers. Label selectors are the interface Selectors. `Reconcile` has what it calls outside
-- (lists, the patch of the status, `meta.SetStatusCondition`, `equality.Semantic.DeepEqual`,
-- printing) in the record Environment, with the laws IsApi.
--
-- How the parts meet in a pass. `reconcile_object` runs the guards on Bounds, selectors, Conflicts
-- and Vpa, then `compute_recommendations` on the provider and the Recommender, then `actuate`; the
-- recommender, the cooldowns, the metrics, the events and the status go through it as the record
-- Progress. `list_workload_pods` gives the pods of a deployment by its own selector. The actuator
-- and the webhook meet in the status: what a pass assigns to its targets is assigned to the
-- recommendations as well (`share_targets`), where the webhook reads it for new pods.
--
-- What is not modelled: generated code, the scheme of the API group, the set-up of the webhook, the
-- helpers of the end-to-end tests, and logs. They are generated, call libraries, or are glue around
-- the parts above.
pub mod Base
pub mod Go
pub mod Kube
pub mod Api
pub mod Actuator
pub mod Coordination
pub mod Recommender
pub mod Metrics
pub mod Controller
pub mod Webhook
pub mod Cmd
pub mod Examples
