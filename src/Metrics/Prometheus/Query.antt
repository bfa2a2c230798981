-- ===== src/Metrics/Prometheus/Query.antt =====
-- internal/metrics/prometheus.go: the text of the queries, and the samples of an answer.
use Prim.Native.String.{◌++◌}
use kubera.Base.{
  Bool, ◌||◌, Option, none, some, String, List, [], ◌∷◌, str_eq, lookup, if◌then◌else◌,
}
use kubera.Metrics.Prometheus.Names.{prom_label_name, quote}

-- What `selector.Requirements()` gives for a selector of the library.
pub record Requirement : Type 0 where
  pub key : String
  pub operator : String
  pub values : List String

abbrev is_supported : String → Bool
is_supported operator = str_eq operator "=" || str_eq operator "==" || str_eq operator "in"

-- The matcher of one value, as only such requirements have one.
abbrev value_matcher : String → List String → Option String
value_matcher key [] = none
value_matcher key (v ∷ []) = some (prom_label_name key ++ "=" ++ quote v)
value_matcher key (v ∷ w ∷ rest) = none

abbrev pub matcher : Requirement → Option String
matcher r = if is_supported r.operator then value_matcher r.key r.values else none

abbrev push : Option String → Option (List String) → Option (List String)
push none later = none
push (some m) none = none
push (some m) (some ms) = some (m ∷ ms)

-- `strings.Join(matchers, ",")`.
unfoldable pub join : List String → String
join [] = ""
join (m ∷ []) = m
join (m ∷ n ∷ ms) = m ++ "," ++ join (n ∷ ms)

unfoldable pub matchers_of : List Requirement → Option (List String)
matchers_of [] = some []
matchers_of (r ∷ rs) = push (matcher r) (matchers_of rs)

abbrev joined : Option (List String) → Option String
joined none = none
joined (some ms) = some (join ms)

-- `none` is an error; a selector that is not selectable is `none` itself.
unfoldable pub selector_matchers : Option (List Requirement) → Option String
unfolding matchers_of
selector_matchers none = none
selector_matchers (some requirements) = joined (matchers_of requirements)

abbrev join_labels : String → String → String
join_labels namespace matchers =
    "* on(pod) group_left() kube_pod_labels{namespace=" ++ quote namespace ++ "," ++ matchers ++ "}"

unfoldable pub cpu_query : String → String → String
cpu_query namespace matchers =
    "sum by (pod, container) (rate(container_cpu_usage_seconds_total{namespace="
    ++ quote namespace
    ++ ",container!=\"\",container!=\"POD\"}[2m])) "
    ++ join_labels namespace matchers

unfoldable pub mem_query : String → String → String
mem_query namespace matchers =
    "sum by (pod, container) (container_memory_working_set_bytes{namespace="
    ++ quote namespace
    ++ ",container!=\"\",container!=\"POD\"}) "
    ++ join_labels namespace matchers

-- The decoded body. An element of `value` is a text or another JSON value.
pub data Value : Type 0 where
  text : String → Value
  other : Value

pub record Series : Type 0 where
  pub metric : List (String × String)
  pub value : List Value

pub record Body : Type 0 where
  pub status : String
  pub result : List Series

-- The HTTP client: the decoded answer to a query, `none` for a request that fails, a status that is
-- not 200 or a body that can not be decoded; and `strconv.ParseFloat`, `none` for its error.
pub record PrometheusServer (F : Type 0) : Type 0 where
  pub get : String → Option Body
  pub parse_float : String → Option F

pub record PromSample (F : Type 0) : Type 0 where
  pub pod : String
  pub container : String
  pub value : F

-- A missing label reads as the empty text.
abbrev label_or_empty : Option String → String
label_or_empty none = ""
label_or_empty (some v) = v

module _ {F : Type 0} (server : PrometheusServer F) where
  abbrev sample_at : Series → Option F → Option (PromSample F)
  sample_at r none = none
  sample_at r (some v) = some (record {
    pod = label_or_empty (lookup "pod" r.metric);
    container = label_or_empty (lookup "container" r.metric);
    value = v;
  })

  -- `[timestamp, "value"]`; anything else is passed over.
  abbrev sample_of_value : Series → List Value → Option (PromSample F)
  sample_of_value r (t ∷ text raw ∷ []) = sample_at r (server.parse_float raw)
  sample_of_value r _ = none

  abbrev add_sample : Option (PromSample F) → List (PromSample F) → List (PromSample F)
  add_sample none later = later
  add_sample (some s) later = s ∷ later

  unfoldable pub samples_of : List Series → List (PromSample F)
  samples_of [] = []
  samples_of (r ∷ rs) = add_sample (sample_of_value r r.value) (samples_of rs)

  abbrev samples_of_body : Option Body → Option (List (PromSample F))
  samples_of_body none = none
  samples_of_body (some body) =
      if str_eq body.status "success" then some (samples_of body.result) else none

  -- `none` is an error.
  unfoldable pub query : String → Option (List (PromSample F))
  unfolding samples_of
  query q = samples_of_body (server.get q)
