-- ===== src/Webhook/Owner/Dash.antt =====
-- internal/webhook/pod_webhook.go: the name of a deployment from that of its ReplicaSet.
use Prim.Native.Char.{Char, code}
use Prim.Native.String.append
use Prim.Native.String.{String, [], ◌∷◌, ◌++◌}
use kubera.Base.{◌==◌, ◌≡◌, refl, ap, ◌∙◌, false, str_eq, Option, none, some, if◌then◌else◌}

-- The text before the last dash, `s[:strings.LastIndex(s, "-")]`; `none` is an index of -1.
unfoldable pub before_last_dash : String → Option String
before_last_dash [] = none
before_last_dash (c ∷ s) = elim (before_last_dash s) [
  | some before ↦ some (c ∷ before)
  | none ↦ if code c == 45 then some [] else none
]

-- The fallback on the name of the ReplicaSet, where the index is not 0; `none` is an error.
abbrev pub fallback : Option String → Option String
fallback none = none
fallback (some []) = none
fallback (some (c ∷ before)) = some (c ∷ before)

-- No character of the text is a dash.
abbrev pub HasNoDash : String → Type 0
HasNoDash [] = Unit
HasNoDash (c ∷ s) = (code c == 45 ≡ false) × HasNoDash s

before_last_dash-none : (s : String) → HasNoDash s → before_last_dash s ≡ none
unfolding before_last_dash
before_last_dash-none [] h = refl
before_last_dash-none (c ∷ s) h = rw (before_last_dash-none s h.1, h.0) refl

nil_append : (t : String) → [] ++ t ≡ t
nil_append t = λ i. append.nil t i

cons_append : (c : Char) (s t : String) → (c ∷ s) ++ t ≡ c ∷ (s ++ t)
cons_append c s t = λ i. append.cons c s t i

dash_append : (t : String) → "-" ++ t ≡ "-" ∷ t
dash_append t = cons_append "-" [] t ∙ ap (λ s. "-" ∷ s) (nil_append t)

before_last_dash-cons :
    (c : Char) (s before : String)
    → before_last_dash s ≡ some before
    → before_last_dash (c ∷ s) ≡ some (c ∷ before)
unfolding before_last_dash
before_last_dash-cons c s before h = rw h refl

pub before_last_dash-append :
    (s hash : String) → HasNoDash hash → before_last_dash (s ++ "-" ++ hash) ≡ some s
unfolding before_last_dash
before_last_dash-append [] hash h =
    rw (nil_append ("-" ++ hash), dash_append hash, before_last_dash-none hash h) refl
before_last_dash-append (c ∷ s) hash h =
    ap before_last_dash (cons_append c s ("-" ++ hash))
    ∙ before_last_dash-cons c (s ++ "-" ++ hash) s (before_last_dash-append s hash h)

-- The fallback finds a name that is not empty.
pub fallback-some : (s : String) → str_eq s "" ≡ false → fallback (some s) ≡ some s
fallback-some [] h = cc
fallback-some (c ∷ s) h = refl
