-- ===== src/Edge/Lockout/Tests.antt =====
-- Runs of packages/edge/src/iam/lockout-manager.ts.
use tridentpos.Prelude.{◌+◌, ◌≤◌, ◌<◌, ◌≡◌, refl, arith, true, List, [], ◌∷◌, ltb}
use tridentpos.Edge.Lockout.{record_failure, check_lockout}
use tridentpos.Edge.Lockout.History.{
  Attempt, wrong_pin, right_pin, supervisor_unlock, attempts, wrong_since,
  record_failure-wrong_since, check_lockout-wrong_since,
}

-- Station 7 fails once, succeeds, and fails four times; station 8 fails between.
abbrev shift : List Attempt
shift =
    wrong_pin 7 10
    ∷ right_pin 7 20
    ∷ wrong_pin 7 30
    ∷ wrong_pin 8 31
    ∷ wrong_pin 7 32
    ∷ wrong_pin 7 33
    ∷ wrong_pin 7 34
    ∷ []

-- After the lock is over a single wrong pin locks again, since its count is not reset.
locks_again :
    (record_failure 7 400 (attempts (wrong_pin 7 35 ∷ []) (attempts shift []))).0.is_new_lockout
    ≡ true
unfolding attempts record_failure tridentpos.Edge.Lockout.starts_lockout
    tridentpos.Edge.Lockout.get_lockout_state tridentpos.Pos.Table.find_row
    tridentpos.Edge.Lockout.History.attempt tridentpos.Pos.Table.put_row
    tridentpos.Edge.Lockout.record_success tridentpos.Edge.Lockout.reset_lockout_state
    tridentpos.Edge.Lockout.failure_lock
locks_again = refl

abbrev shift_of_four : List Attempt
shift_of_four = wrong_pin 7 30 ∷ wrong_pin 7 32 ∷ wrong_pin 7 33 ∷ []

record_failure-wrong_since_example :
    let e = (record_failure 7 40 (attempts shift [])).0 in
    (e.consecutive_failures ≡ 5)
    × (e.is_locked ≡ true)
    × (ltb 0 e.delay_ms ≡ true)
    × (e.remaining_seconds ≤ 300)
unfolding wrong_since
record_failure-wrong_since_example = record_failure-wrong_since 7 40 shift (omega arith)

check_lockout-wrong_since_example :
    (45 < 40 + 300) × (5 ≤ wrong_since 7 0 (wrong_pin 7 1 ∷ wrong_pin 7 2 ∷ shift_of_four))
unfolding attempts check_lockout tridentpos.Edge.Lockout.lockout_at
    tridentpos.Edge.Lockout.get_lockout_state tridentpos.Pos.Table.find_row
    tridentpos.Edge.Lockout.History.attempt record_failure tridentpos.Pos.Table.put_row
    tridentpos.Edge.Lockout.failure_lock
check_lockout-wrong_since_example =
    check_lockout-wrong_since 7 40 45 (wrong_pin 7 1 ∷ wrong_pin 7 2 ∷ shift_of_four) (omega arith)
      refl
