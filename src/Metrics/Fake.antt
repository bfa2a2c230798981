-- ===== src/Metrics/Fake.antt =====
-- internal/metrics/fake.go. Its mutex makes each operation one step; `E` is the type of errors.
use kubera.Base.{Option, none, some, String, List, [], lookup, insert}
use kubera.Metrics.{PodUsage}

pub record FakeProvider (Q E : Type 0) : Type 0 where
  pub usages : List (String × List (PodUsage Q))
  pub list_err : Option E

abbrev usages_or_nil : {Q : Type 0} → Option (List (PodUsage Q)) → List (PodUsage Q)
usages_or_nil none = []
usages_or_nil (some usages) = usages

module _ {Q E : Type 0} where
  abbrev pub new_fake_provider : FakeProvider Q E
  new_fake_provider = record { usages = []; list_err = none }

  abbrev pub set_pod_usage : String → List (PodUsage Q) → FakeProvider Q E → FakeProvider Q E
  set_pod_usage namespace usages f = record f { usages = insert namespace usages f.usages }

  abbrev pub set_error : Option E → FakeProvider Q E → FakeProvider Q E
  set_error err f = record f { list_err = err }

  abbrev unless : Option E → List (PodUsage Q) → Option (List (PodUsage Q))
  unless none usages = some usages
  unless (some err) usages = none

  -- `ListPodUsage`, with `none` for the error that was set.
  abbrev pub list_fake : String → FakeProvider Q E → Option (List (PodUsage Q))
  list_fake namespace f = unless f.list_err (usages_or_nil (lookup namespace f.usages))
