-- ===== src/Pos/Dining/Proofs/Stored.antt =====
-- What the operations of packages/pos/src/dining-service.ts leave stored of the account they name.
use tridentpos.Prelude.{ℕ, ◌≡◌, ◌∙◌, ap, arith, Bool, none, some, Option, List}
use tridentpos.Pos.Types.{Mesa, Cuenta, CuentaItem, CuentaRow, CuentaStatus}
use tridentpos.Pos.Errors.{ok}
use tridentpos.Pos.Table.{find_row}
use tridentpos.Pos.Repository.{DiningDb, cuenta_id, get_row, put_cuenta, save_cuenta, stored_row}
use tridentpos.Pos.Repository.Laws.{save_mesa_cuentas, get_row-put_cuenta}
use tridentpos.Pos.Dining.{Validator, free_table}
use tridentpos.Pos.Dining.Lines.{
  CancelItemInput, add_item_to_cuenta, cancel_item, finish_cancellation,
}
use tridentpos.Pos.Dining.Closing.{close_cuenta, cancel_cuenta, split_cuenta, link_table}
use tridentpos.Pos.Dining.Transfer.{TransferCuentaInput, transfer_cuenta, write_transfer}
use tridentpos.Pos.Dining.Commands.{reassign_waiter, change_guest_count, request_check, check_table}
use tridentpos.Pos.Dining.Session.{
  Command, add_item, cancel_line, close, cancel, split, transfer, reassign, change_guests,
  ask_check, execute,
}

unfoldable pub summary_of : Option CuentaRow → Option (ℕ × CuentaStatus)
summary_of none = none
summary_of (some row) = some (row.version, row.status)

-- The version and the state of an account, as its row has them.
unfoldable pub summary : ℕ → List CuentaRow → Option (ℕ × CuentaStatus)
summary id rows = summary_of (find_row cuenta_id id rows)

put_cuenta_stored :
    (c : Cuenta) (old : Option CuentaRow) (db : DiningDb)
    → summary c.id (put_cuenta c old db).cuentas ≡ some (c.version, c.status)
unfolding summary summary_of get_row stored_row
put_cuenta_stored c none db =
    let e : get_row c.id (put_cuenta c none db) ≡ some (stored_row c.row none) =
      get_row-put_cuenta c.id c none db ∙ ground arith in
    ap summary_of e
put_cuenta_stored c (some old) db =
    let e : get_row c.id (put_cuenta c (some old) db) ≡ some (stored_row c.row (some old)) =
      get_row-put_cuenta c.id c (some old) db ∙ ground arith in
    ap summary_of e

pub save_cuenta_stored :
    (c : Cuenta) (v : ℕ) (db : DiningDb) {s : Cuenta}
    → (save_cuenta c v db).0 ≡ ok s
    → (s ≡ c) × (summary s.id (save_cuenta c v db).1.cuentas ≡ some (s.version, s.status))
unfolding save_cuenta
save_cuenta_stored c v db done = grind (arith, put_cuenta_stored)

free_table_keeps :
    (c : Cuenta) (account now : ℕ) (db : DiningDb)
    → (free_table c account now db).1.cuentas ≡ db.cuentas
unfolding free_table
free_table_keeps c account now db = grind (arith, save_mesa_cuentas)

pub link_table_keeps :
    (subs : List Cuenta) (now : ℕ) (table : Option ℕ) (db : DiningDb)
    → (link_table subs now table db).1.cuentas ≡ db.cuentas
unfolding link_table
link_table_keeps subs now table db = grind (arith, save_mesa_cuentas)

check_table_keeps :
    (now : ℕ) (table : Option ℕ) (db : DiningDb) → (check_table now table db).1.cuentas ≡ db.cuentas
unfolding check_table
check_table_keeps now table db = grind (arith, save_mesa_cuentas)

write_transfer_stored :
    (validate_pin : Validator) (input : TransferCuentaInput) (now : ℕ) (c : Cuenta)
    (source free : Mesa) (db : DiningDb) {r : Cuenta × Mesa × Mesa}
    → (write_transfer validate_pin input now c source free db).0 ≡ ok r
    → summary r.0.id (write_transfer validate_pin input now c source free db).1.cuentas
      ≡ some (r.0.version, r.0.status)
unfolding write_transfer
write_transfer_stored validate_pin input now c source free db done =
    grind (arith, save_cuenta_stored)

finish_cancellation_stored :
    (input : CancelItemInput) (now : ℕ) (c : Cuenta) (item : CuentaItem) (authorized : Bool)
    (db : DiningDb) {r : Cuenta × CuentaItem × Bool}
    → (finish_cancellation input now c item authorized db).0 ≡ ok r
    → summary r.0.id (finish_cancellation input now c item authorized db).1.cuentas
      ≡ some (r.0.version, r.0.status)
unfolding finish_cancellation
finish_cancellation_stored input now c item authorized db done = grind (arith, save_cuenta_stored)

-- What a command that succeeds returns is what is then stored, with its version and its state.
pub execute_stored :
    (validate_pin : Validator) (k : Command) (now : ℕ) (db : DiningDb) {saved : Cuenta}
    → (execute validate_pin k now db).0 ≡ ok saved
    → summary saved.id (execute validate_pin k now db).1.cuentas
      ≡ some (saved.version, saved.status)
unfolding execute add_item_to_cuenta cancel_item close_cuenta cancel_cuenta split_cuenta
    transfer_cuenta reassign_waiter change_guest_count request_check
execute_stored validate_pin (add_item id v i) now db done = grind (arith, save_cuenta_stored)
execute_stored validate_pin (cancel_line i) now db done = grind (arith, finish_cancellation_stored)
execute_stored validate_pin (close id v status) now db done =
    grind (arith, save_cuenta_stored, free_table_keeps)
execute_stored validate_pin (cancel i) now db done =
    grind (arith, save_cuenta_stored, free_table_keeps)
execute_stored validate_pin (split i) now db done =
    grind (arith, save_cuenta_stored, link_table_keeps)
execute_stored validate_pin (transfer i) now db done = grind (arith, write_transfer_stored)
execute_stored validate_pin (reassign i) now db done = grind (arith, save_cuenta_stored)
execute_stored validate_pin (change_guests i) now db done = grind (arith, save_cuenta_stored)
execute_stored validate_pin (ask_check i) now db done =
    grind (arith, save_cuenta_stored, check_table_keeps)
