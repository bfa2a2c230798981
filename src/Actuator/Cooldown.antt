-- ===== src/Actuator/Cooldown.antt =====
-- internal/actuator/resizer.go: `CooldownTracker`. The two directions of a workload's map are fields.
pub mod Laws
use kubera.Base.{Option, none, some, Bool, true, String, List, [], lookup, insert, leb_ℤ}
use kubera.Go.Time.{Time, Duration, since}
use kubera.Actuator.Policy.{Direction, up, down}

-- `map[Direction]time.Time`.
pub record Stamps : Type 0 where
  pub up : Option Time
  pub down : Option Time

abbrev pub CooldownTracker : Type 0
CooldownTracker = List (String × Stamps)

abbrev pub new_cooldown_tracker : CooldownTracker
new_cooldown_tracker = []

-- A workload that is not in the outer map reads as the nil map.
abbrev pub stamps_of : Option Stamps → Stamps
stamps_of none = record { up = none; down = none }
stamps_of (some s) = s

abbrev pub stamp : Direction → Stamps → Option Time
stamp up s = s.up
stamp down s = s.down

abbrev pub set_stamp : Direction → Time → Stamps → Stamps
set_stamp up now s = record s { up = some now }
set_stamp down now s = record s { down = some now }

abbrev pub passed : Option Time → Duration → Time → Bool
passed none cooldown now = true
passed (some last) cooldown now = leb_ℤ cooldown (since now last)

unfoldable pub allow : CooldownTracker → String → Direction → Duration → Time → Bool
allow t key d cooldown now = passed (stamp d (stamps_of (lookup key t))) cooldown now

unfoldable pub record_resize : CooldownTracker → String → Direction → Time → CooldownTracker
record_resize t key d now = insert key (set_stamp d now (stamps_of (lookup key t))) t
