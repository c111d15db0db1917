-- ===== src/Pos/Dining/Proofs/Versions.antt =====
-- Optimistic concurrency and the states of an account in packages/pos/src/dining-service.ts.
use tridentpos.Prelude.{ℕ, ◌+◌, ◌≡◌, ◌≢◌, refl, arith, Bool, true, false, Option, none, some, Text}
use tridentpos.Pos.Types.{
  Cuenta, CuentaItem, CuentaStatus, abierta, impresa, pagada, anulada, is_active,
}
use tridentpos.Pos.Errors.{Result, ok, err}
use tridentpos.Pos.Repository.{DiningDb, get_cuenta, save_cuenta, save_mesa}
use tridentpos.Pos.Policies.{validate_transfer}
use tridentpos.Pos.Dining.{Validator}
use tridentpos.Pos.Dining.Lines.{
  CancelItemInput, add_item_to_cuenta, cancel_item, finish_cancellation, with_items,
}
use tridentpos.Pos.Dining.Closing.{close_cuenta, cancel_cuenta, split_cuenta}
use tridentpos.Pos.Types.{Mesa}
use tridentpos.Pos.Dining.Transfer.{TransferCuentaInput, transfer_cuenta, write_transfer}
use tridentpos.Pos.Dining.Commands.{
  RequestCheckInput, printed_cuenta, check_optional_pin, reassign_waiter, change_guest_count,
  request_check,
}
use tridentpos.Pos.Dining.Session.{
  Command, add_item, cancel_line, close, cancel, split, transfer, reassign, change_guests,
  ask_check, target, expected, cancels_line, execute,
}

-- The operation raised, and the tables are as they were.
abbrev pub Refused : {A : Type 0} → DiningDb → Result A × DiningDb → Type 0
Refused db (ok a, db') = ⊥
Refused db (err e, db') = db' ≡ db

-- A command that expects another version than the stored one is refused, and nothing is written:
-- whatever another station has saved in the meantime is not lost.
pub execute_stale :
    (validate_pin : Validator) (k : Command) (now : ℕ) (db : DiningDb) {c : Cuenta}
    → get_cuenta (target k) db ≡ some c
    → c.version ≢ expected k
    → Refused db (execute validate_pin k now db)
unfolding execute add_item_to_cuenta cancel_item close_cuenta cancel_cuenta split_cuenta
    transfer_cuenta reassign_waiter change_guest_count request_check
execute_stale validate_pin (add_item id v i) now db found stale = ground arith
execute_stale validate_pin (cancel_line i) now db found stale = ground arith
execute_stale validate_pin (close id v status) now db found stale = ground arith
execute_stale validate_pin (cancel i) now db found stale = ground arith
execute_stale validate_pin (split i) now db found stale = ground arith
execute_stale validate_pin (transfer i) now db found stale = ground arith
execute_stale validate_pin (reassign i) now db found stale = ground arith
execute_stale validate_pin (change_guests i) now db found stale = ground arith
execute_stale validate_pin (ask_check i) now db found stale = ground arith

-- An account that is paid or annulled is final: every command but the cancellation of a line is
-- refused, and nothing is written.
pub execute_closed :
    (validate_pin : Validator) (k : Command) (now : ℕ) (db : DiningDb) {c : Cuenta}
    → get_cuenta (target k) db ≡ some c
    → is_active c.status ≡ false
    → cancels_line k ≡ false
    → Refused db (execute validate_pin k now db)
unfolding execute add_item_to_cuenta close_cuenta cancel_cuenta split_cuenta transfer_cuenta
    reassign_waiter change_guest_count request_check validate_transfer
execute_closed validate_pin (add_item id v i) now db found done other = ground arith
execute_closed validate_pin (cancel_line i) now db found done other = absurd (cc)
execute_closed validate_pin (close id v status) now db found done other = ground arith
execute_closed validate_pin (cancel i) now db found done other = ground arith
execute_closed validate_pin (split i) now db found done other = ground arith
execute_closed validate_pin (transfer i) now db found done other = ground arith
execute_closed validate_pin (reassign i) now db found done other = ground arith
execute_closed validate_pin (change_guests i) now db found done other = ground arith
execute_closed validate_pin (ask_check i) now db found done other = ground arith

-- What a command may make of the state of an account.
pub data StatusStep : CuentaStatus → CuentaStatus → Type 0 where
  keeps : {s : CuentaStatus} → StatusStep s s
  prints : StatusStep abierta impresa
  pays : {s : CuentaStatus} → is_active s ≡ true → StatusStep s pagada
  annuls : {s : CuentaStatus} → is_active s ≡ true → StatusStep s anulada

ruleset steps = (keeps, prints, pays, annuls)

finish_cancellation_saved :
    (input : CancelItemInput) (now : ℕ) (c : Cuenta) (item : CuentaItem) (authorized : Bool)
    (db : DiningDb) {r : Cuenta × CuentaItem × Bool}
    → (finish_cancellation input now c item authorized db).0 ≡ ok r
    → (r.0.version ≡ c.version + 1) × (r.0.id ≡ c.id) × (r.0.status ≡ c.status)
unfolding finish_cancellation with_items save_cuenta
finish_cancellation_saved input now c item authorized db done = ground arith

check_optional_pin_keeps :
    (validate_pin : Validator) (user : ℕ) (pin : Option Text) (db : DiningDb)
    → (check_optional_pin validate_pin user pin db).1 ≡ db
unfolding check_optional_pin
check_optional_pin_keeps validate_pin user none db = refl
check_optional_pin_keeps validate_pin user (some pin) db = refl

printed_step : (s : CuentaStatus) → is_active s ≡ true → StatusStep s impresa
printed_step abierta active = prints
printed_step impresa active = keeps
printed_step pagada active = absurd (ground arith)
printed_step anulada active = absurd (ground arith)

printed_cuenta_step :
    (c : Cuenta) (folio : Option ℕ) (now : ℕ) (saved : Cuenta)
    → is_active c.status ≡ true
    → saved ≡ printed_cuenta c folio now
    → (saved.version ≡ c.version + 1) × (saved.id ≡ c.id) × StatusStep c.status saved.status
unfolding printed_cuenta
printed_cuenta_step c folio now saved active e = rw e (refl, refl, printed_step c.status active)

execute_ask_check_saved :
    (validate_pin : Validator) (i : RequestCheckInput) (now : ℕ) (db : DiningDb) {c saved : Cuenta}
    → get_cuenta i.cuenta_id db ≡ some c
    → (execute validate_pin (ask_check i) now db).0 ≡ ok saved
    → (is_active c.status ≡ true) × (saved ≡ printed_cuenta c i.next_folio_number now)
unfolding execute request_check save_cuenta
execute_ask_check_saved validate_pin i now db found done = grind (arith, check_optional_pin_keeps)

write_transfer_saved :
    (input : TransferCuentaInput) (now : ℕ) (c : Cuenta) (source free : Mesa)
    (validate_pin : Validator) (db : DiningDb) {r : Cuenta × Mesa × Mesa}
    → (write_transfer validate_pin input now c source free db).0 ≡ ok r
    → (r.0.version ≡ c.version + 1) × (r.0.id ≡ c.id) × (r.0.status ≡ c.status)
unfolding write_transfer save_mesa save_cuenta
write_transfer_saved input now c source free validate_pin db done = ground arith

-- The account that a command returns is the one that it names one version further, with its state
-- changed only from open to printed, or from either to paid or annulled.
pub execute_saved :
    (validate_pin : Validator) (k : Command) (now : ℕ) (db : DiningDb) {c saved : Cuenta}
    → get_cuenta (target k) db ≡ some c
    → (execute validate_pin k now db).0 ≡ ok saved
    → (saved.version ≡ c.version + 1) × (saved.id ≡ c.id) × StatusStep c.status saved.status
unfolding execute add_item_to_cuenta cancel_item close_cuenta cancel_cuenta split_cuenta
    transfer_cuenta reassign_waiter change_guest_count request_check save_cuenta with_items
execute_saved validate_pin (add_item id v i) now db found done = grind (arith, steps)
execute_saved validate_pin (cancel_line i) now db found done =
    grind (arith, steps, finish_cancellation_saved)
execute_saved validate_pin (close id v status) now db found done = grind (arith, steps)
execute_saved validate_pin (cancel i) now db found done = grind (arith, steps)
execute_saved validate_pin (split i) now db found done = grind (arith, steps)
execute_saved validate_pin (transfer i) now db found done =
    grind (arith, steps, write_transfer_saved)
execute_saved validate_pin (reassign i) now db found done = grind (arith, steps)
execute_saved validate_pin (change_guests i) now db found done = grind (arith, steps)
execute_saved validate_pin (ask_check i) now db {c} {saved} found done =
    let (active, e) = execute_ask_check_saved validate_pin i now db found done in
    printed_cuenta_step c i.next_folio_number now saved active e
