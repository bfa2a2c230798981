-- ===== src/Examples/Usages.antt =====
-- Samples of two queries, and autoscalers that target deployments.
use kubera.Base.{◌≡◌, refl, ◌&&◌, some, List, [], ◌∷◌, contains, pos}
use kubera.Go.Float64.Fixed.{Fixed, fixed_float64}
use kubera.Kube.Quantity.Milli.{Milli, milli_quantity}
use kubera.Metrics.Prometheus.Query.{PromSample}
use kubera.Metrics.Prometheus.Merge.{merge_samples}
use kubera.Metrics.Prometheus.Merge.Merged.{entry, usage_of, entry-merge_samples}
use kubera.Controller.Vpa.{TargetRef, vpa_conflicts}
use kubera.Controller.Vpa.Targeted.{targets, vpa_conflicts-contains}

abbrev sample_of : Fixed → PromSample Fixed
sample_of v = record { pod = "web-1"; container = "web"; value = v }

-- Two samples of CPU, the second of which counts.
abbrev cpu : List (PromSample Fixed)
cpu = sample_of (pos 100) ∷ sample_of (pos 200) ∷ []

abbrev mem : List (PromSample Fixed)
mem = sample_of (pos 5_000_000) ∷ []

entry-merge_samples_example :
    entry "web-1" "web" (merge_samples {Q = Milli} cpu mem)
    ≡ usage_of "web" (some (pos 200)) (some (pos 5_000_000))
entry-merge_samples_example = entry-merge_samples cpu mem "web-1" "web"

abbrev autoscalers : List TargetRef
autoscalers =
    record { kind = "Deployment"; name = "web" } ∷ record { kind = "StatefulSet"; name = "db" } ∷ []

vpa_conflicts-contains_example :
    contains "web" ("web" ∷ []) ≡ (targets "web" autoscalers && contains "web" ("web" ∷ "db" ∷ []))
unfolding vpa_conflicts
vpa_conflicts-contains_example =
    vpa_conflicts-contains autoscalers ("web" ∷ "db" ∷ []) {conflicts = "web" ∷ []} "web" refl
