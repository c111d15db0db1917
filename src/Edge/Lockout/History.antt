-- ===== src/Edge/Lockout/History.antt =====
-- What the lockout of packages/edge/src/iam/lockout-manager.ts makes of a history of attempts.
use tridentpos.Prelude.{
  ℕ, ◌+◌, ◌≤◌, ◌<◌, ◌≡◌, refl, arith, true, Option, none, some, List, [], ◌∷◌, ltb, leb, ◌==◌,
  if◌then◌else◌, Bool-cases, inl, inr,
}
use tridentpos.Pos.Table.{put_row, find_row-put_row}
use tridentpos.Edge.Lockout.{
  LockoutDb, StationLockoutState, station_key, get_lockout_state, failures_of, lock_of,
  record_failure, failed_state, cleared_state, failure_lock, evaluation_of, record_success, unlock,
  reset_lockout_state, FailureEvaluation, starts_lockout, delay_of, lockout_at, check_lockout,
}

-- What happens at a station, each at a time.
pub data Attempt : Type 0 where
  wrong_pin right_pin supervisor_unlock : ℕ → ℕ → Attempt

unfoldable pub attempt : Attempt → LockoutDb → LockoutDb
attempt (wrong_pin station now) db = (record_failure station now db).1
attempt (right_pin station now) db = record_success station now db
attempt (supervisor_unlock station now) db = unlock station now db

unfoldable pub attempts : List Attempt → LockoutDb → LockoutDb
attempts [] db = db
attempts (a ∷ as') db = attempts as' (attempt a db)

-- The wrong pins at a station since its last right pin or unlock, after `n` before.
unfoldable pub wrong_since : ℕ → ℕ → List Attempt → ℕ
wrong_since station n [] = n
wrong_since station n (wrong_pin s now ∷ as') =
    wrong_since station (if s == station then n + 1 else n) as'
wrong_since station n (right_pin s now ∷ as') =
    wrong_since station (if s == station then 0 else n) as'
wrong_since station n (supervisor_unlock s now ∷ as') =
    wrong_since station (if s == station then 0 else n) as'

-- The attempts are in the order of time, up to this time.
abbrev pub InOrder : ℕ → List Attempt → ℕ → Type 0
InOrder from [] to = from ≤ to
InOrder from (wrong_pin s now ∷ as') to = (from ≤ now) × InOrder now as' to
InOrder from (right_pin s now ∷ as') to = (from ≤ now) × InOrder now as' to
InOrder from (supervisor_unlock s now ∷ as') to = (from ≤ now) × InOrder now as' to

-- A lock is set from the fifth wrong pin on, and not for longer than its duration.
abbrev pub LockFits : ℕ → ℕ → Option ℕ → Type 0
LockFits n now none = n < 5
LockFits n now (some until) = (5 ≤ n) × (until ≤ now + 300)

abbrev pub Fits : ℕ → ℕ → Option StationLockoutState → Type 0
Fits n now row = (failures_of row ≡ n) × LockFits n now (lock_of row)

Fits-later : (n t t' : ℕ) (row : Option StationLockoutState) → t ≤ t' → Fits n t row → Fits n t' row
Fits-later n t t' none le h = h
Fits-later n t t' (some row) le h = ground arith

-- The row after a wrong pin, from the one before.
abbrev failed_row : ℕ → ℕ → Option StationLockoutState → StationLockoutState
failed_row station now row = failed_state station now (failure_lock row now) row

failed_row-Fits :
    (n station t now : ℕ) (row : Option StationLockoutState)
    → t ≤ now
    → Fits n t row
    → Fits (n + 1) now (some (failed_row station now row))
unfolding failure_lock starts_lockout
failed_row-Fits n station t now none le h = ground arith
failed_row-Fits n station t now (some row) le h = ground arith

get_lockout_state-put_row :
    (station : ℕ) (row : StationLockoutState) (db : LockoutDb)
    → get_lockout_state station (put_row station_key row db)
      ≡ (if row.station_id == station then some row else get_lockout_state station db)
unfolding get_lockout_state
get_lockout_state-put_row station row db = find_row-put_row station_key station row db

abbrev FitsAt : ℕ → ℕ → ℕ → LockoutDb → Type 0
FitsAt station n t db = Fits n t (get_lockout_state station db)

wrong_pin-FitsAt :
    (station s n t now : ℕ) (db : LockoutDb)
    → t ≤ now
    → FitsAt station n t db
    → FitsAt station (if s == station then n + 1 else n) now (attempt (wrong_pin s now) db)
unfolding attempt record_failure
wrong_pin-FitsAt station s n t now db le h =
    rw (get_lockout_state-put_row station (failed_row s now (get_lockout_state s db)) db)
      (elim (Bool-cases (s == station)) [
        | inl same ↦
            let e : s ≡ station = ground (arith, same) in
            rw same (rw e (failed_row-Fits n station t now (get_lockout_state station db) le h))
        | inr other ↦ rw other (Fits-later n t now (get_lockout_state station db) le h)
      ])

cleared-FitsAt :
    (station s n t now : ℕ) (db : LockoutDb)
    → t ≤ now
    → FitsAt station n t db
    → FitsAt station (if s == station then 0 else n) now (reset_lockout_state s now db)
unfolding reset_lockout_state
cleared-FitsAt station s n t now db le h =
    rw (get_lockout_state-put_row station (cleared_state s now (get_lockout_state s db)) db)
      (elim (Bool-cases (s == station)) [
        | inl same ↦ rw same (refl, omega arith)
        | inr other ↦ rw other (Fits-later n t now (get_lockout_state station db) le h)
      ])

attempts-FitsAt :
    (station n t now : ℕ) (as' : List Attempt) (db : LockoutDb)
    → InOrder t as' now
    → FitsAt station n t db
    → FitsAt station (wrong_since station n as') now (attempts as' db)
unfolding attempts attempt wrong_since record_success unlock
attempts-FitsAt station n t now [] db order h =
    Fits-later n t now (get_lockout_state station db) order h
attempts-FitsAt station n t now (wrong_pin s at ∷ as') db order h =
    attempts-FitsAt station (if s == station then n + 1 else n) at now as' _ order.1
      (wrong_pin-FitsAt station s n t at db order.0 h)
attempts-FitsAt station n t now (right_pin s at ∷ as') db order h =
    attempts-FitsAt station (if s == station then 0 else n) at now as' _ order.1
      (cleared-FitsAt station s n t at db order.0 h)
attempts-FitsAt station n t now (supervisor_unlock s at ∷ as') db order h =
    attempts-FitsAt station (if s == station then 0 else n) at now as' _ order.1
      (cleared-FitsAt station s n t at db order.0 h)

no_rows : (station : ℕ) → FitsAt station 0 0 []
unfolding get_lockout_state tridentpos.Pos.Table.find_row
no_rows station = ground arith

evaluate :
    (n station t now : ℕ) (row : Option StationLockoutState) {e : FailureEvaluation}
    → t ≤ now
    → Fits n t row
    → e
      ≡ evaluation_of row
          (failed_row station now row)
          (lockout_at (failed_row station now row).locked_until now)
          now
    → (e.consecutive_failures ≡ n + 1)
      × (e.is_locked ≡ leb 5 (n + 1))
      × (ltb 0 e.delay_ms ≡ leb 3 (n + 1))
      × (e.remaining_seconds ≤ 300)
unfolding failure_lock starts_lockout lockout_at delay_of
evaluate n station t now none le h e = ground arith
evaluate n station t now (some row) le h e = ground arith

-- A wrong pin, after any history of attempts in the order of time, is counted from the last right pin
-- or unlock of its station; it finds the station locked exactly from the fifth on, is delayed from the
-- third on, and never has more than 300 seconds to wait.
pub record_failure-wrong_since :
    (station now : ℕ) (as' : List Attempt)
    → InOrder 0 as' now
    → let e = (record_failure station now (attempts as' [])).0 in
      let n = wrong_since station 0 as' + 1 in
      (e.consecutive_failures ≡ n)
      × (e.is_locked ≡ leb 5 n)
      × (ltb 0 e.delay_ms ≡ leb 3 n)
      × (e.remaining_seconds ≤ 300)
unfolding record_failure
record_failure-wrong_since station now as' order =
    evaluate (wrong_since station 0 as') station now now
      (get_lockout_state station (attempts as' [])) (omega arith)
      (attempts-FitsAt station 0 0 now as' [] order (no_rows station)) refl

-- A station that has had a lock is free again 300 seconds after the last attempt at the latest, and it
-- is never locked with fewer than five wrong pins since the last right pin or unlock.
pub check_lockout-wrong_since :
    (station now later : ℕ) (as' : List Attempt)
    → InOrder 0 as' now
    → (check_lockout station later (attempts as' [])).is_locked ≡ true
    → (later < now + 300) × (5 ≤ wrong_since station 0 as')
unfolding check_lockout lockout_at
check_lockout-wrong_since station now later as' order locked =
    lock_fits (wrong_since station 0 as') (get_lockout_state station (attempts as' []))
      (attempts-FitsAt station 0 0 now as' [] order (no_rows station)) locked
  where
    lock_fits :
        (n : ℕ) (row : Option StationLockoutState)
        → Fits n now row
        → (lockout_at (lock_of row) later).is_locked ≡ true
        → (later < now + 300) × (5 ≤ n)
    lock_fits n none h l = ground arith
    lock_fits n (some row) h l = ground arith
