-- ===== src/Edge/Lockout.antt =====
-- The lockout of a station after wrong pins: packages/edge/src/iam/lockout-manager.ts over the table
-- `station_lockout_state` of packages/edge/src/db/iam-persistence.ts. Times are seconds.
pub mod History
mod Tests
use tridentpos.Prelude.{
  ℕ, ◌+◌, ◌-◌, Bool, true, false, Option, none, some, List, ltb, leb, ◌==◌, if◌then◌else◌,
}
use tridentpos.Pos.Table.{find_row, put_row}

pub record StationLockoutState : Type 0 where
  pub station_id : ℕ
  pub consecutive_failures : ℕ
  pub locked_until : Option ℕ
  pub last_failed_at : Option ℕ
  pub updated_at : ℕ

abbrev pub LockoutDb : Type 0
LockoutDb = List StationLockoutState

abbrev pub station_key : StationLockoutState → ℕ
station_key s = s.station_id

unfoldable pub get_lockout_state : ℕ → LockoutDb → Option StationLockoutState
get_lockout_state station db = find_row station_key station db

abbrev pub failures_of : Option StationLockoutState → ℕ
failures_of none = 0
failures_of (some s) = s.consecutive_failures

abbrev pub lock_of : Option StationLockoutState → Option ℕ
lock_of none = none
lock_of (some s) = s.locked_until

-- `lockedUntil !== null ? lockedUntil : (existing?.lockedUntil ?? null)`
abbrev pub or_lock : Option ℕ → Option ℕ → Option ℕ
or_lock none old = old
or_lock (some l) old = some l

abbrev pub failed_state : ℕ → ℕ → Option ℕ → Option StationLockoutState → StationLockoutState
failed_state station now locked_until existing = record {
  station_id = station;
  consecutive_failures = failures_of existing + 1;
  locked_until = or_lock locked_until (lock_of existing);
  last_failed_at = some now;
  updated_at = now;
}

unfoldable pub record_failed_attempt :
    ℕ → ℕ → Option ℕ → LockoutDb → StationLockoutState × LockoutDb
record_failed_attempt station now locked_until db =
    let row = failed_state station now locked_until (get_lockout_state station db) in
    (row, put_row station_key row db)

abbrev pub last_failed_of : Option StationLockoutState → Option ℕ
last_failed_of none = none
last_failed_of (some s) = s.last_failed_at

-- An update leaves `last_failed_at` as it was.
abbrev pub cleared_state : ℕ → ℕ → Option StationLockoutState → StationLockoutState
cleared_state station now existing = record {
  station_id = station;
  consecutive_failures = 0;
  locked_until = none;
  last_failed_at = last_failed_of existing;
  updated_at = now;
}

unfoldable pub reset_lockout_state : ℕ → ℕ → LockoutDb → LockoutDb
reset_lockout_state station now db =
    put_row station_key (cleared_state station now (get_lockout_state station db)) db

abbrev pub failure_threshold : ℕ
failure_threshold = 5

abbrev pub lockout_duration_seconds : ℕ
lockout_duration_seconds = 300

pub record Lockout : Type 0 where
  pub is_locked : Bool
  pub remaining_seconds : ℕ

unfoldable pub lockout_at : Option ℕ → ℕ → Lockout
lockout_at none now = record { is_locked = false; remaining_seconds = 0 }
lockout_at (some until) now =
    if ltb now until
    then record { is_locked = true; remaining_seconds = until - now }
    else record { is_locked = false; remaining_seconds = 0 }

unfoldable pub check_lockout : ℕ → ℕ → LockoutDb → Lockout
check_lockout station now db = lockout_at (lock_of (get_lockout_state station db)) now

pub record FailureEvaluation : Type 0 where
  pub consecutive_failures : ℕ
  pub is_locked : Bool
  pub locked_until : Option ℕ
  pub remaining_seconds : ℕ
  pub delay_ms : ℕ
  pub is_new_lockout : Bool

-- `!lockedUntil || lockedUntil <= currentEffectiveTime`
abbrev pub lock_is_over : Option ℕ → ℕ → Bool
lock_is_over none now = true
lock_is_over (some until) now = if until == 0 then true else leb until now

unfoldable pub delay_of : ℕ → ℕ
delay_of n = if n == 3 then 2000 else if leb 4 n then 5000 else 0

unfoldable pub starts_lockout : ℕ → Option ℕ → ℕ → Bool
starts_lockout n lock now = if leb failure_threshold n then lock_is_over lock now else false

-- The lock after one more failure.
unfoldable pub failure_lock : Option StationLockoutState → ℕ → Option ℕ
unfolding starts_lockout
failure_lock current now =
    if starts_lockout (failures_of current + 1) (lock_of current) now
    then some (now + lockout_duration_seconds)
    else lock_of current

abbrev pub evaluation_of :
    Option StationLockoutState → StationLockoutState → Lockout → ℕ → FailureEvaluation
evaluation_of current updated lockout now = record {
  consecutive_failures = updated.consecutive_failures;
  is_locked = lockout.is_locked;
  locked_until = updated.locked_until;
  remaining_seconds = lockout.remaining_seconds;
  delay_ms = delay_of (failures_of current + 1);
  is_new_lockout = starts_lockout (failures_of current + 1) (lock_of current) now;
}

unfoldable pub record_failure : ℕ → ℕ → LockoutDb → FailureEvaluation × LockoutDb
unfolding record_failed_attempt
record_failure station now db =
    let current = get_lockout_state station db in
    let (updated, db') = record_failed_attempt station now (failure_lock current now) db in
    (evaluation_of current updated (lockout_at updated.locked_until now) now, db')

unfoldable pub record_success : ℕ → ℕ → LockoutDb → LockoutDb
record_success station now db = reset_lockout_state station now db

-- The override of a supervisor.
unfoldable pub unlock : ℕ → ℕ → LockoutDb → LockoutDb
unlock station now db = reset_lockout_state station now db
