-- ===== src/Actuator/Cooldown/Laws.antt =====
-- Cooldowns: what recording a resize changes, and how time passes.
use kubera.Base.{
  ◌≡◌, refl, arith, ◌≤◌, Bool, true, false, ◌&&◌, String, Option, none, some, if◌then◌else◌, str_eq,
  eq_iff, lookup, lookup-insert, leb_ℤ,
}
use kubera.Go.Time.{Time, Duration, since, since_mono}
use kubera.Actuator.Policy.{Direction, up, down}
use kubera.Actuator.Cooldown.{
  CooldownTracker, stamp, set_stamp, stamps_of, passed, allow, record_resize,
}

abbrev pub same_direction : Direction → Direction → Bool
same_direction up up = true
same_direction down down = true
same_direction _ _ = false

-- After a resize is recorded, the same workload and direction are allowed exactly when the cooldown
-- has passed since then; every other workload and the other direction are allowed as before.
pub allow-record_resize :
    (t : CooldownTracker) (key other : String) (d e : Direction) (cooldown : Duration)
    (then_ now : Time)
    → allow (record_resize t key d then_) other e cooldown now ≡ (
        if str_eq key other && same_direction d e
        then leb_ℤ cooldown (since now then_)
        else allow t other e cooldown now)
unfolding allow record_resize
allow-record_resize t key other up up cooldown then_ now = ground (
  arith,
  lookup-insert key other (set_stamp up then_ (stamps_of (lookup key t))) t,
  eq_iff key other,
)
allow-record_resize t key other up down cooldown then_ now = ground (
  arith,
  lookup-insert key other (set_stamp up then_ (stamps_of (lookup key t))) t,
  eq_iff key other,
)
allow-record_resize t key other down up cooldown then_ now = ground (
  arith,
  lookup-insert key other (set_stamp down then_ (stamps_of (lookup key t))) t,
  eq_iff key other,
)
allow-record_resize t key other down down cooldown then_ now = ground (
  arith,
  lookup-insert key other (set_stamp down then_ (stamps_of (lookup key t))) t,
  eq_iff key other,
)

passed_mono :
    (last : Option Time) (cooldown : Duration) (now later : Time)
    → now ≤ later
    → passed last cooldown now ≡ true
    → passed last cooldown later ≡ true
passed_mono none cooldown now later le h = refl
passed_mono (some start) cooldown now later le h = since_mono now later start cooldown le h

-- A resize that is allowed stays allowed while time passes and nothing is recorded.
pub allow_mono :
    (t : CooldownTracker) (key : String) (d : Direction) (cooldown : Duration) (now later : Time)
    → now ≤ later
    → allow t key d cooldown now ≡ true
    → allow t key d cooldown later ≡ true
unfolding allow
allow_mono t key d cooldown now later le h =
    passed_mono (stamp d (stamps_of (lookup key t))) cooldown now later le h
