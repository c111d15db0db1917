-- ===== src/Pos/Shift/Strategy.antt =====
-- `SharedShiftAssignmentStrategy` of packages/pos/src/cash-shift-strategy.ts.
use tridentpos.Prelude.{ℕ, Bool, true, false, not, ◌||◌, ◌==◌, contains, if◌then◌else◌}
use tridentpos.Pos.Shift.{TurnoCaja, TurnoCajaStatus, abierto}

abbrev pub is_abierto : TurnoCajaStatus → Bool
is_abierto abierto = true
is_abierto _ = false

-- Which identifiers are empty or white space.
module _ (blank : ℕ → Bool) where
  unfoldable pub can_operate : TurnoCaja → ℕ → Bool
  can_operate shift operator =
      if blank operator
      then false
      else if operator == shift.responsible_user_id || operator == shift.opened_by_user_id
      then true
      else contains operator shift.participating_operators

  unfoldable pub can_add_operator : TurnoCaja → ℕ → ℕ → Bool
  can_add_operator shift operator requesting =
      if blank operator
      then false
      else if not (is_abierto shift.status)
      then false
      else requesting == shift.responsible_user_id
        || contains requesting shift.participating_operators

  unfoldable pub can_close : TurnoCaja → ℕ → Bool
  can_close shift requesting =
      if blank requesting
      then false
      else requesting == shift.responsible_user_id
        || requesting == shift.opened_by_user_id
        || contains requesting shift.participating_operators
