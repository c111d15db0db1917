-- ===== src/Pos/Dining/Session.antt =====
-- The operations on a stored account of packages/pos/src/dining-service.ts as one type of commands,
-- for what holds of all of them.
use tridentpos.Prelude.{ℕ, Bool, true, false}
use tridentpos.Pos.Errors.{pure, ◌>>=◌}
use tridentpos.Pos.Types.{Cuenta}
use tridentpos.Pos.Repository.{Dining}
use tridentpos.Pos.Dining.{Validator}
use tridentpos.Pos.Dining.Lines.{AddItemInput, CancelItemInput, add_item_to_cuenta, cancel_item}
use tridentpos.Pos.Dining.Closing.{
  ClosedStatus, CancelCuentaInput, SplitCuentaInput, close_cuenta, cancel_cuenta, split_cuenta,
}
use tridentpos.Pos.Dining.Transfer.{TransferCuentaInput, transfer_cuenta}
use tridentpos.Pos.Dining.Commands.{
  ReassignWaiterInput, ChangeGuestCountInput, RequestCheckInput, reassign_waiter,
  change_guest_count, request_check,
}

pub data Command : Type 0 where
  add_item : ℕ → ℕ → AddItemInput → Command
  cancel_line : CancelItemInput → Command
  close : ℕ → ℕ → ClosedStatus → Command
  cancel : CancelCuentaInput → Command
  split : SplitCuentaInput → Command
  transfer : TransferCuentaInput → Command
  reassign : ReassignWaiterInput → Command
  change_guests : ChangeGuestCountInput → Command
  ask_check : RequestCheckInput → Command

-- The account that a command names, and the version that it expects.
abbrev pub target : Command → ℕ
target (add_item id v input) = id
target (cancel_line i) = i.cuenta_id
target (close id v status) = id
target (cancel i) = i.cuenta_id
target (split i) = i.cuenta_id
target (transfer i) = i.cuenta_id
target (reassign i) = i.cuenta_id
target (change_guests i) = i.cuenta_id
target (ask_check i) = i.cuenta_id

abbrev pub expected : Command → ℕ
expected (add_item id v input) = v
expected (cancel_line i) = i.expected_version
expected (close id v status) = v
expected (cancel i) = i.expected_version
expected (split i) = i.expected_version
expected (transfer i) = i.expected_version
expected (reassign i) = i.expected_version
expected (change_guests i) = i.expected_version
expected (ask_check i) = i.expected_version

abbrev pub cancels_line : Command → Bool
cancels_line (cancel_line i) = true
cancels_line _ = false

-- Runs the operation and returns the account as it was saved.
unfoldable pub execute : Validator → Command → ℕ → Dining Cuenta
execute validate_pin (add_item id v input) now = add_item_to_cuenta id v input now
execute validate_pin (cancel_line i) now = do r ← cancel_item validate_pin i now; pure r.0
execute validate_pin (close id v status) now = do r ← close_cuenta id v status now; pure r.0
execute validate_pin (cancel i) now = do r ← cancel_cuenta validate_pin i now; pure r.0
execute validate_pin (split i) now = do r ← split_cuenta validate_pin i now; pure r.0
execute validate_pin (transfer i) now = do r ← transfer_cuenta validate_pin i now; pure r.0
execute validate_pin (reassign i) now = reassign_waiter validate_pin i now
execute validate_pin (change_guests i) now = change_guest_count validate_pin i now
execute validate_pin (ask_check i) now = do r ← request_check validate_pin i now; pure r.0
