-- ===== src/Go/Fmt.antt =====
-- Package fmt: the verbs `%v` for a list of texts and `%d` for a count.
use Prim.Native.Nat.{ℕ}
use kubera.Base.{String, List}

pub record Printer : Type 0 where
  pub print_names : List String → String
  pub print_count : ℕ → String
