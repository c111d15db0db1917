-- ===== src/Pos/Dining/Tests.antt =====
-- Runs of packages/pos/src/dining-service.ts, and the theorems on it at concrete tables.
use tridentpos.Prelude.{
  ℤ, pos, ℕ, ◌+◌, ◌-ℤ◌, ◌≡◌, refl, arith, Option, none, some, List, [], ◌∷◌, Text, Bool, true,
  false, codes,
}
use tridentpos.Pos.Types.{
  Mesa, Cuenta, CuentaItem, CuentaRow, comedor, abierta, pagada, anulada, cancelado, disponible,
  ocupada, is_active, is_cancelado,
}
use tridentpos.Pos.Errors.{Result, ok, err, occ_conflict}
use tridentpos.Pos.Repository.{DiningDb, get_mesa, get_row, get_cuenta}
use tridentpos.Pos.Totals.Sums.{sum_of, AllPriced}
use tridentpos.Pos.Split.{SplitPartitionPlan, prorate_split}
use tridentpos.Pos.Dining.{Validator, freed_mesa, now_known}
use tridentpos.Pos.Dining.Mesas.{OpenCuentaInput, LiberarMesaInput}
use tridentpos.Pos.Dining.Lines.{
  AddItemInput, CancelItemInput, add_item_to_cuenta, cancel_item, find_item, replace_item,
}
use tridentpos.Pos.Dining.Closing.{
  as_pagada, CancelCuentaInput, SplitCuentaInput, close_cuenta, split_cuenta, closed_cuenta,
}
use tridentpos.Pos.Dining.Transfer.{TransferCuentaInput, transfer_cuenta}
use tridentpos.Pos.Dining.Session.{Command, add_item, cancel_line, close, execute}
use tridentpos.Pos.Dining.Proofs.Versions.{Refused, StatusStep}
use tridentpos.Pos.Dining.Proofs.Stations.{execute-StatusStep, execute_once, execute_final}
use tridentpos.Pos.Dining.Proofs.Totals.{IsBalanced, cancel_item-IsBalanced}
use tridentpos.Pos.Dining.Proofs.Transfers.{transfer_cuenta_moves, transfer_cuenta_same_table}
use tridentpos.Pos.Dining.Proofs.Splits.{total_of, AllAdded, split_cuenta_conserves}
use tridentpos.Pos.Dining.Proofs.Pins.{deferred, always, execute-deferred}
use tridentpos.Pos.Samples.{soup, line, account, taken, empty, tables, accept}

abbrev coffee : AddItemInput
coffee = record {
  id = 70;
  product_id = 40;
  product_name_snapshot = 41;
  unit_price_applied = pos 350_000;
  quantity = pos 20_000;
  tax_rate_applied = pos 1_600;
  discount_amount_applied = none;
  modifiers = [];
}

abbrev pay : Command
pay = close 5 3 as_pagada

abbrev paid : Cuenta
paid = closed_cuenta (account abierta) pagada 300

abbrev no_soup : CancelItemInput
no_soup = record {
  cuenta_id = 5;
  item_id = 61;
  expected_version = 3;
  operator_user_id = 11;
  operator_pin = codes "1234";
  supervisor_pin = none;
  kitchen_status = none;
  reason = codes "changed their mind";
}

execute-StatusStep_example :
    (c' : Cuenta) × (get_cuenta 5 (execute accept pay 300 (tables abierta)).1 ≡ some c')
    × (c'.version ≡ 4)
    × StatusStep abierta c'.status
unfolding get_cuenta get_row tridentpos.Pos.Table.find_row tridentpos.Pos.Table.order_rows execute
    close_cuenta tridentpos.Pos.Repository.save_cuenta tridentpos.Pos.Dining.free_table get_mesa
    tridentpos.Pos.Repository.put_cuenta tridentpos.Pos.Repository.save_mesa
execute-StatusStep_example =
    execute-StatusStep accept pay 300 (tables abierta) {c = account abierta} {saved = paid} refl
      refl

execute_once_example :
    let after = (execute accept pay 300 (tables abierta)).1 in
    Refused after (execute accept (add_item 5 3 coffee) 310 after)
unfolding get_cuenta get_row tridentpos.Pos.Table.find_row tridentpos.Pos.Table.order_rows execute
    close_cuenta tridentpos.Pos.Repository.save_cuenta tridentpos.Pos.Dining.free_table get_mesa
    tridentpos.Pos.Repository.put_cuenta tridentpos.Pos.Repository.save_mesa
execute_once_example =
    execute_once accept pay (add_item 5 3 coffee) 300 310 (tables abierta) {c = account abierta}
      {saved = paid} refl refl refl refl

execute_final_example :
    let after = (execute accept pay 300 (tables abierta)).1 in
    Refused after (execute accept (add_item 5 4 coffee) 310 after)
unfolding get_cuenta get_row tridentpos.Pos.Table.find_row tridentpos.Pos.Table.order_rows execute
    close_cuenta tridentpos.Pos.Repository.save_cuenta tridentpos.Pos.Dining.free_table get_mesa
    tridentpos.Pos.Repository.put_cuenta tridentpos.Pos.Repository.save_mesa
execute_final_example =
    execute_final accept pay (add_item 5 4 coffee) 300 310 (tables abierta) {c = account abierta}
      {saved = paid} refl refl refl refl refl

abbrev saved_of : Result Cuenta → Cuenta
saved_of (ok c) = c
saved_of (err e) = account abierta

abbrev with_coffee : Cuenta
with_coffee = saved_of (add_item_to_cuenta 5 3 coffee 300 (tables abierta)).0

abbrev cancellation_of : Result (Cuenta × CuentaItem × Bool) → Cuenta × CuentaItem × Bool
cancellation_of (ok r) = r
cancellation_of (err e) = (account abierta, line soup, false)

abbrev without_soup : Cuenta × CuentaItem × Bool
without_soup = cancellation_of (cancel_item accept no_soup 300 (tables abierta)).0

cancel_item-IsBalanced_example :
    (item : CuentaItem) × (find_item 61 (account abierta).items ≡ some item)
    × (is_cancelado item.status ≡ false)
    × (without_soup.1.status ≡ cancelado)
    × (without_soup.1.cancellation_reason ≡ some (codes "changed their mind"))
    × (without_soup.1.cancelled_by_user_id ≡ some 11)
    × (find_item 62 without_soup.0.items ≡ find_item 62 (account abierta).items)
    × (sum_of (λ i. i.total) without_soup.0.items
        ≡ sum_of (λ i. i.total) (account abierta).items -ℤ item.total)
    × AllPriced without_soup.0.items
    × IsBalanced without_soup.0
unfolding get_cuenta get_row tridentpos.Pos.Table.find_row tridentpos.Pos.Table.order_rows
    tridentpos.Prelude.◌+ℤ◌ ◌-ℤ◌ cancel_item tridentpos.Prelude.is_blank find_item
    tridentpos.Pos.Dining.Lines.supervisor_authorization
    tridentpos.Pos.Dining.Lines.finish_cancellation tridentpos.Pos.Policies.can_cancel_item
    tridentpos.Pos.Policies.is_unstarted tridentpos.Prelude.text_eq tridentpos.Prelude.to_upper
    tridentpos.Pos.Repository.save_cuenta tridentpos.Pos.Dining.Lines.with_items replace_item
    tridentpos.Pos.Dining.check_version tridentpos.Pos.Dining.require_cuenta
    tridentpos.Pos.Policies.is_in_progress_or_delivered tridentpos.Pos.Repository.load_cuenta
    tridentpos.Pos.Repository.load_items tridentpos.Pos.Repository.put_cuenta
    tridentpos.Pos.Repository.stored_guests tridentpos.Pos.Repository.stored_row
    tridentpos.Pos.Table.insert_ordered tridentpos.Pos.Table.order_rows_onto
    tridentpos.Pos.Table.put_row tridentpos.Pos.Totals.recalculate_cuenta_totals
    tridentpos.Prelude.is_white tridentpos.Prelude.trim tridentpos.Prelude.trim_start
    tridentpos.Prelude.upper_unit
cancel_item-IsBalanced_example =
    cancel_item-IsBalanced accept no_soup 300 62 (tables abierta) {c = account abierta}
      {r = without_soup} refl (refl, (refl, tt)) refl

-- Not one pin is right.
abbrev none_right : ℕ → Text → Bool
none_right user pin = false

execute-deferred_example :
    execute (deferred none_right) (cancel_line no_soup) 300 (tables abierta)
    ≡ execute always (cancel_line no_soup) 300 (tables abierta)
execute-deferred_example = execute-deferred none_right (cancel_line no_soup) 300 (tables abierta)

abbrev release : LiberarMesaInput
release = record { mesa_id = 7; expected_version = 2; force = false }

abbrev new_guests : OpenCuentaInput
new_guests = record {
  id = 6;
  mesa_id = some 8;
  epoch_id = 1;
  account_type = comedor;
  opened_by_user_id = 11;
  current_waiter_user_id = none;
  guest_count = some (pos 4);
}

abbrev move_to : ℕ → TransferCuentaInput
move_to table = record {
  cuenta_id = 5;
  expected_version = 3;
  source_mesa_id = 7;
  target_mesa_id = table;
  source_waiter_user_id = 11;
  target_waiter_user_id = 12;
  target_waiter_pin = codes "5678";
}

transfer_cuenta_moves_example :
    let (result, after) = transfer_cuenta accept (move_to 8) 300 (tables abierta) in
    (moved : Cuenta) × (s : Mesa) × (t : Mesa) × (result ≡ ok (moved, s, t))
    × (moved.mesa_id ≡ some 8)
    × (moved.version ≡ 4)
    × (get_mesa 7 after ≡ some s)
    × (s.status ≡ disponible)
    × (s.current_account_id ≡ none)
    × (s.version ≡ 3)
    × (get_mesa 8 after ≡ some t)
    × (t.status ≡ ocupada)
    × (t.current_account_id ≡ some 5)
    × (t.version ≡ empty.version + 1)
    × ((row : CuentaRow) × (get_row 5 after ≡ some row)
        × (row.mesa_id ≡ some 8)
        × (row.current_waiter_user_id ≡ some 12)
        × (row.version ≡ 4))
unfolding get_cuenta get_row tridentpos.Pos.Table.find_row tridentpos.Pos.Table.order_rows get_mesa
transfer_cuenta_moves_example =
    transfer_cuenta_moves accept (move_to 8) 300 (tables abierta) {c = account abierta}
      {source = taken} {free = empty} refl refl refl refl refl refl refl (λ e. ground arith)
      ((λ e. ground arith), (λ e. ground arith), (λ e. ground arith))

transfer_cuenta_same_table_example :
    let (result, after) = transfer_cuenta accept (move_to 7) 300 (tables abierta) in
    (result ≡ err (occ_conflict 7 2 3))
    × (get_mesa 7 after ≡ some (freed_mesa taken 300))
    × (get_cuenta 5 after ≡ some (account abierta))
unfolding get_cuenta get_row tridentpos.Pos.Table.find_row tridentpos.Pos.Table.order_rows get_mesa
transfer_cuenta_same_table_example =
    transfer_cuenta_same_table accept (move_to 7) 300 (tables abierta) {c = account abierta}
      {source = taken} refl refl refl refl refl refl refl (λ e. ground arith)

abbrev halves : SplitCuentaInput
halves = record {
  cuenta_id = 5;
  expected_version = 3;
  partitions =
      record { partition_id = 81; item_ids = some (61 ∷ []); ratio_scale4 = none }
      ∷ record { partition_id = 82; item_ids = some (62 ∷ []); ratio_scale4 = none }
      ∷ [];
  performed_by_user_id = 11;
  operator_pin = codes "1234";
}

abbrev parts_of : Result (List Cuenta) → List Cuenta
parts_of (ok subs) = subs
parts_of (err e) = []

abbrev parts : List Cuenta
parts = parts_of (prorate_split (account abierta) halves.partitions 300)

abbrev annulled : Cuenta
annulled = closed_cuenta (account abierta) anulada 300

abbrev relinked : Mesa
relinked = record taken { current_account_id = some 81; version = 3; updated_at = 300 }

split_cuenta_conserves_example :
    let after = (split_cuenta accept halves 300 (tables abierta)).1 in
    (is_active abierta ≡ true)
    × (prorate_split (account abierta) halves.partitions 300 ≡ ok parts)
    × (total_of parts ≡ pos 3_000_000)
    × AllAdded (tables abierta) after parts
    × ((c' : Cuenta) × (get_cuenta 5 after ≡ some c') × (c'.status ≡ anulada) × (c'.version ≡ 4))
unfolding get_cuenta get_row tridentpos.Pos.Table.find_row tridentpos.Pos.Table.order_rows
    split_cuenta prorate_split tridentpos.Pos.Dining.Closing.sum_total_amounts
    tridentpos.Prelude.◌+ℤ◌ ◌-ℤ◌ tridentpos.Prelude.◌/ℤ◌ tridentpos.Prelude.signed
    tridentpos.Prelude.xor tridentpos.Prelude.◌*ℤ◌ tridentpos.Pos.Dining.Closing.save_sub_cuentas
    tridentpos.Pos.Repository.save_cuenta tridentpos.Pos.Repository.put_cuenta
    tridentpos.Pos.Table.put_row tridentpos.Pos.Dining.Closing.link_table
    tridentpos.Pos.Dining.check_version tridentpos.Pos.Dining.require_cuenta get_mesa
    tridentpos.Pos.Repository.load_cuenta tridentpos.Pos.Repository.load_items
    tridentpos.Pos.Repository.put_mesa tridentpos.Pos.Repository.save_mesa
    tridentpos.Pos.Repository.stored_guests tridentpos.Pos.Repository.stored_row
    tridentpos.Pos.Split.assign_ids tridentpos.Pos.Split.assign_partitions
    tridentpos.Pos.Split.item_in_map tridentpos.Pos.Split.item_part tridentpos.Pos.Split.item_parts
    tridentpos.Pos.Split.part_items tridentpos.Pos.Split.prorated_tips
    tridentpos.Pos.Split.ratio_parts tridentpos.Pos.Split.scale_amounts
    tridentpos.Pos.Split.split_by_items tridentpos.Pos.Split.split_by_ratio
    tridentpos.Pos.Split.sub_cuenta tridentpos.Pos.Split.sum_items tridentpos.Pos.Split.sum_ratios
    tridentpos.Pos.Split.sum_subtotals tridentpos.Pos.Table.insert_ordered
    tridentpos.Pos.Table.order_rows_onto
split_cuenta_conserves_example =
    split_cuenta_conserves accept halves 300 (tables abierta) {c = account abierta}
      {saved = annulled} {subs = parts} {mesa = some relinked} refl refl
