-- ===== src/Metrics/Prometheus/Names.antt =====
-- internal/metrics/prometheus.go: `promLabelName`, and `%q`.
use Prim.Native.Char.{code}
use Prim.Native.String.{String, [], ◌∷◌, ◌++◌}
use kubera.Base.{ℕ, ◌==◌, leb, Bool, ◌&&◌, ◌||◌, if◌then◌else◌}

-- `[a-zA-Z0-9_]`.
abbrev pub is_word : ℕ → Bool
is_word n = leb 97 n && leb n 122 || leb 65 n && leb n 90 || leb 48 n && leb n 57 || n == 95

-- `promLabelSanitizer.ReplaceAllString(s, "_")`.
unfoldable pub sanitize : String → String
sanitize [] = []
sanitize (c ∷ s) = (if is_word (code c) then c else "_") ∷ sanitize s

unfoldable pub prom_label_name : String → String
unfolding sanitize
prom_label_name key = "label_" ++ sanitize key

-- The escapes of quotes and backslashes.
unfoldable pub escape : String → String
escape [] = []
escape (c ∷ s) = (if code c == 34 || code c == 92 then "\\" ++ (c ∷ []) else c ∷ []) ++ escape s

unfoldable pub quote : String → String
unfolding escape
quote s = "\"" ++ escape s ++ "\""
