-- ===== src/Tracking/Wake.antt =====
-- The quarantine of the fixes that a tracker sends when it wakes up: evaluateWakeFix of
-- backend/src/common/geo/gps-quality.ts, and the part of handlePosition of
-- backend/src/modules/tracking/traccar-bridge.service.ts that decides whether a fix goes on to
-- savePosition. Instants and durations are in milliseconds, satellites an Option, none when the
-- tracker sends no finite count.
use delivery_tracking.Prelude.{
  ℕ, Option, none, some, Bool, true, false, not, ◌&&◌, ◌||◌, ◌+◌, ◌*◌, ltb, leb, if◌then◌else◌,
  List, [], ◌∷◌,
}

abbrev pub wake_trust_min_sat : ℕ
wake_trust_min_sat = 10

abbrev pub wake_silence_min : ℕ
wake_silence_min = 120 * 1000

abbrev pub wake_quarantine_max : ℕ
wake_quarantine_max = 120 * 1000

abbrev pub wake_quarantine_stale : ℕ
wake_quarantine_stale = 600 * 1000

-- An open quarantine: its beginning and its last fix.
pub record Quarantine : Type 0 where
  pub since : ℕ
  pub last : ℕ

-- The gap since the last stored fix may be negative: it is given by the instant of that fix.
pub record WakeFixInput : Type 0 where
  pub sat : Option ℕ
  pub previous : Option ℕ
  pub quarantine : Option Quarantine
  pub fix_time : ℕ

-- Whether the fix is held back, and the quarantine to remember.
pub record WakeFixVerdict : Type 0 where
  pub held : Bool
  pub quarantine : Option Quarantine

abbrev pub max : ℕ → ℕ → ℕ
max a b = if ltb a b then b else a

abbrev pub is_weak : Option ℕ → Bool
is_weak none = false
is_weak (some n) = ltb 0 n && ltb n wake_trust_min_sat

abbrev pub after_silence : Option ℕ → ℕ → Bool
after_silence none now = true
after_silence (some t) now = ltb (t + wake_silence_min) now

abbrev pub passed : WakeFixVerdict
passed = record { held = false; quarantine = none }

-- A weak fix outside a quarantine, or after a stale one.
unfoldable pub evaluate_new : WakeFixInput → WakeFixVerdict
evaluate_new i =
    if after_silence i.previous i.fix_time
    then record {
      held = true;
      quarantine = some (record { since = i.fix_time; last = i.fix_time });
    }
    else passed

-- A weak fix while a quarantine is open.
unfoldable pub evaluate_open : Quarantine → WakeFixInput → WakeFixVerdict
unfolding evaluate_new
evaluate_open q i =
    let last_ms = max q.last q.since in
    if ltb (last_ms + wake_quarantine_stale) i.fix_time
    then evaluate_new i
    else if leb (q.since + wake_quarantine_max) i.fix_time
    then passed
    else record {
      held = true;
      quarantine = some (record { since = q.since; last = max last_ms i.fix_time });
    }

unfoldable pub evaluate_weak : Option Quarantine → WakeFixInput → WakeFixVerdict
unfolding evaluate_new evaluate_open
evaluate_weak none i = evaluate_new i
evaluate_weak (some q) i = evaluate_open q i

unfoldable pub evaluate_wake_fix : WakeFixInput → WakeFixVerdict
unfolding evaluate_weak
evaluate_wake_fix i = if is_weak i.sat then evaluate_weak i.quarantine i else passed

-- A message of the tracker, with what its lookups find: whether the coordinates are valid and a
-- vehicle is mapped, and the instant of the vehicle's last reliable row.
pub record TraccarFix : Type 0 where
  pub time : ℕ
  pub has_coordinates : Bool
  pub valid : Bool
  pub sat : Option ℕ
  pub has_vehicle : Bool
  pub last_db : Option ℕ

abbrev has_too_few : ℕ → Option ℕ → Bool
has_too_few minimum none = false
has_too_few minimum (some n) = ltb 0 n && ltb n minimum

-- Tested before the device's lock is taken.
abbrev pub is_rejected : ℕ → TraccarFix → Bool
is_rejected min_satellites f =
    not f.has_coordinates || not f.valid || has_too_few min_satellites f.sat || not f.has_vehicle

-- The quarantine of the vehicle after the message, and whether the fix goes on to savePosition.
unfoldable pub handle_position : ℕ → Option Quarantine → TraccarFix → Option Quarantine × Bool
unfolding evaluate_wake_fix
handle_position min_satellites q f =
    if is_rejected min_satellites f
    then (q, false)
    else let wake =
        evaluate_wake_fix
          (record { sat = f.sat; previous = f.last_db; quarantine = q; fix_time = f.time }) in
      (wake.quarantine, not wake.held)

-- The messages of one device are handled one after the other. The instants of the fixes that go on
-- to savePosition.
unfoldable pub handle_all : ℕ → Option Quarantine → List TraccarFix → List ℕ
unfolding handle_position
handle_all min_satellites q [] = []
handle_all min_satellites q (f ∷ fs) =
    let (q', saves) = handle_position min_satellites q f in
    let rest = handle_all min_satellites q' fs in if saves then f.time ∷ rest else rest
