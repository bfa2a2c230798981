-- ===== src/Controller/Actuation/Messages.antt =====
-- internal/controller/actuation.go: the key of the cooldowns and the texts of the events.
use Prim.Native.Nat.{ℕ}
use Prim.Native.String.{String, ◌++◌}
use kubera.Base.{List}
use kubera.Go.Fmt.{Printer}

abbrev pub evict_message : String → String
evict_message pod =
    "evicted pod " ++ pod
    ++ ": resize impossible in-place, replacement gets recommendation via webhook"

abbrev pub bump_message : Printer → String → List String → String
bump_message printer pod containers =
    "bumped memory of pod "
    ++ pod
    ++ " after OOMKill (containers: "
    ++ printer.print_names containers
    ++ ")"

abbrev pub resized_message : Printer → ℕ → String
resized_message printer n =
    "resized " ++ printer.print_count n ++ " pod(s) in-place or via recreate"

abbrev pub cooldown_key : String → String → String
cooldown_key namespace deployment = namespace ++ "/" ++ deployment
