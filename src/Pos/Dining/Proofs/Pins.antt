-- ===== src/Pos/Dining/Proofs/Pins.antt =====
-- What the pins protect in packages/pos/src/dining-service.ts.
use tridentpos.Prelude.{ℕ, ◌≡◌, refl, arith, Bool, true, false, Option, none, some, Text}
use tridentpos.Pos.Repository.{DiningDb}
use tridentpos.Pos.Dining.{Validator, promise, now_known, given_text}
use tridentpos.Pos.Dining.Lines.{cancel_item, supervisor_authorization}
use tridentpos.Pos.Dining.Closing.{cancel_cuenta, check_printed, check_manager, split_cuenta}
use tridentpos.Pos.Dining.Transfer.{transfer_cuenta, write_transfer}
use tridentpos.Pos.Dining.Commands.{
  reassign_waiter, change_guest_count, request_check, check_optional_pin,
}
use tridentpos.Pos.Dining.Session.{
  Command, add_item, cancel_line, close, cancel, split, transfer, reassign, change_guests,
  ask_check, execute,
}
use tridentpos.Pos.Dining.Proofs.Versions.{Refused}

-- The user and the pin that a command has to be authorised by. The pins of the last two are optional.
abbrev pub authorisation : Command → Option (ℕ × Text)
authorisation (cancel_line i) = some (i.operator_user_id, i.operator_pin)
authorisation (cancel i) = some (i.requested_by_user_id, i.requested_by_pin)
authorisation (split i) = some (i.performed_by_user_id, i.operator_pin)
authorisation (transfer i) = some (i.target_waiter_user_id, i.target_waiter_pin)
authorisation (reassign i) = some (i.requesting_user_id, i.requesting_pin)
authorisation (change_guests i) = elim (given_text i.operator_pin) [
  | none ↦ none
  | some pin ↦ some (i.performed_by_user_id, pin)
]
authorisation (ask_check i) = elim (given_text i.operator_pin) [
  | none ↦ none
  | some pin ↦ some (i.requested_by_user_id, pin)
]
authorisation _ = none

-- A command whose pin the validator refuses at once, with `false` and not with a promise of it, is
-- refused, and nothing is written.
execute_wrong_pin :
    (validate_pin : Validator) (k : Command) (now : ℕ) (db : DiningDb) {user : ℕ} {pin : Text}
    → authorisation k ≡ some (user, pin)
    → validate_pin user pin ≡ now_known false
    → Refused db (execute validate_pin k now db)
unfolding execute cancel_item cancel_cuenta split_cuenta transfer_cuenta reassign_waiter
    change_guest_count request_check check_optional_pin
execute_wrong_pin validate_pin (add_item id v i) now db asked wrong = absurd (ground arith)
execute_wrong_pin validate_pin (cancel_line i) now db asked wrong = ground arith
execute_wrong_pin validate_pin (close id v status) now db asked wrong = absurd (ground arith)
execute_wrong_pin validate_pin (cancel i) now db asked wrong = ground arith
execute_wrong_pin validate_pin (split i) now db asked wrong = ground arith
execute_wrong_pin validate_pin (transfer i) now db asked wrong = ground arith
execute_wrong_pin validate_pin (reassign i) now db asked wrong = ground arith
execute_wrong_pin validate_pin (change_guests i) now db asked wrong = ground arith
execute_wrong_pin validate_pin (ask_check i) now db asked wrong = ground arith

-- A validator that answers with promises, and one that says yes at once.
abbrev pub deferred : (ℕ → Text → Bool) → Validator
deferred check user pin = promise (check user pin)

abbrev pub always : Validator
always user pin = now_known true

-- With a validator that answers with promises, as an `async` function does, every command does what
-- it does when every pin is right, whatever the promises resolve to.
pub execute-deferred :
    (check : ℕ → Text → Bool) (k : Command) (now : ℕ) (db : DiningDb)
    → execute (deferred check) k now db ≡ execute always k now db
unfolding execute cancel_item cancel_cuenta split_cuenta transfer_cuenta reassign_waiter
    change_guest_count request_check check_optional_pin supervisor_authorization check_printed
    check_manager write_transfer
execute-deferred check (add_item id v i) now db = refl
execute-deferred check (cancel_line i) now db = ground arith
execute-deferred check (close id v status) now db = refl
execute-deferred check (cancel i) now db = ground arith
execute-deferred check (split i) now db = refl
execute-deferred check (transfer i) now db = refl
execute-deferred check (reassign i) now db = refl
execute-deferred check (change_guests i) now db = ground arith
execute-deferred check (ask_check i) now db = ground arith
