-- ===== src/Pos/Dining/Mesas.antt =====
-- The operations on tables of packages/pos/src/dining-service.ts: creating one, opening an account at
-- one, releasing one, and the hook for merging.
use tridentpos.Prelude.{
  is_some, ℤ, pos, ℕ, ◌+◌, ◌==◌, not, Bool, false, Option, none, some, [], if◌then◌else◌,
}
use tridentpos.Pos.Types.{
  Mesa, Cuenta, AccountType, disponible, ocupada, abierta, is_disponible, is_active,
}
use tridentpos.Pos.Errors.{
  pure, raise, gets, raise_if, ◌>>=◌, ◌>>◌, duplicate_mesa, duplicate_cuenta, mesa_not_found,
  mesa_not_available, occ_conflict, table_has_active_account, table_merge_not_specified,
}
use tridentpos.Pos.Repository.{Dining, get_cuenta, get_mesa, save_cuenta, save_mesa}
use tridentpos.Pos.Dining.{given_id, require_mesa, freed_mesa, save_some}

pub record CreateMesaInput : Type 0 where
  pub id : ℕ
  pub room_name : ℕ
  pub table_number : ℕ
  pub pos_x : Option ℤ
  pub pos_y : Option ℤ
  pub capacity : Option ℤ

unfoldable pub create_mesa : CreateMesaInput → ℕ → Dining Mesa
create_mesa input now = do
  raise_if (is_some (← gets (get_mesa input.id))) duplicate_mesa
  save_mesa
      (record {
        id = input.id;
        room_name = input.room_name;
        table_number = input.table_number;
        status = disponible;
        current_account_id = none;
        pos_x = input.pos_x;
        pos_y = input.pos_y;
        capacity = input.capacity;
        version = 1;
        updated_at = now;
      })
      0

pub record OpenCuentaInput : Type 0 where
  pub id : ℕ
  pub mesa_id : Option ℕ
  pub epoch_id : ℕ
  pub account_type : AccountType
  pub opened_by_user_id : ℕ
  pub current_waiter_user_id : Option ℕ
  pub guest_count : Option ℤ

unfoldable pub new_cuenta : OpenCuentaInput → ℕ → Cuenta
new_cuenta input now = record {
  row = record {
    id = input.id;
    folio_number = none;
    epoch_id = input.epoch_id;
    mesa_id = input.mesa_id;
    account_type = input.account_type;
    status = abierta;
    subtotal = pos 0;
    tax_total = pos 0;
    discounts_total = pos 0;
    tips_total = pos 0;
    total_amount = pos 0;
    opened_by_user_id = input.opened_by_user_id;
    current_waiter_user_id = elim input.current_waiter_user_id [
      | none ↦ some input.opened_by_user_id
      | some w ↦ some w
    ];
    guest_count = elim input.guest_count [ none ↦ some (pos 1) | some n ↦ some n ];
    opened_at = now;
    printed_at = none;
    closed_at = none;
    parent_cuenta_id = none;
    split_sequence = none;
    version = 1;
    updated_at = now;
  };
  items = [];
}

abbrev pub occupied_mesa : Mesa → ℕ → ℕ → Mesa
occupied_mesa mesa account now = record mesa {
  status = ocupada;
  current_account_id = some account;
  version = mesa.version + 1;
  updated_at = now;
}

-- The table, if one is asked for, has to be available.
unfoldable pub occupy_table : Option ℕ → ℕ → ℕ → Dining (Option Mesa)
unfolding require_mesa
occupy_table none account now = pure none
occupy_table (some mesa_id) account now = do
  mesa ← require_mesa mesa_id mesa_not_found
  raise_if (not (is_disponible mesa.status)) mesa_not_available
  save_some (occupied_mesa mesa account now) mesa.version

unfoldable pub open_cuenta : OpenCuentaInput → ℕ → Dining (Cuenta × Option Mesa)
unfolding occupy_table
open_cuenta input now = do
  raise_if (is_some (← gets (get_cuenta input.id))) duplicate_cuenta
  mesa ← occupy_table (given_id input.mesa_id) input.id now
  cuenta ← save_cuenta (new_cuenta input now) 0
  pure (cuenta, mesa)

pub record LiberarMesaInput : Type 0 where
  pub mesa_id : ℕ
  pub expected_version : ℕ
  pub force : Bool

-- `cuenta && cuenta.status !== 'PAGADA' && cuenta.status !== 'ANULADA'`
abbrev blocks_release : Option Cuenta → Bool
blocks_release none = false
blocks_release (some cuenta) = is_active cuenta.status

check_release : LiberarMesaInput → Option ℕ → Dining (Unit {0})
check_release input none = pure tt
check_release input (some account) =
    if not input.force
    then (do raise_if (blocks_release (← gets (get_cuenta account))) table_has_active_account)
    else pure tt

unfoldable pub liberar_mesa : LiberarMesaInput → ℕ → Dining Mesa
unfolding require_mesa check_release
liberar_mesa input now = do
  mesa ← require_mesa input.mesa_id mesa_not_found
  raise_if (not (mesa.version == input.expected_version))
      (occ_conflict input.mesa_id input.expected_version mesa.version)
  if is_disponible mesa.status then pure mesa else (do
    check_release input (given_id mesa.current_account_id)
    save_mesa (freed_mesa mesa now) input.expected_version)

-- `mergeTablesHook` refuses every merge, whatever the pin.
unfoldable pub merge_tables_hook : Dining (Unit {0})
merge_tables_hook = raise table_merge_not_specified
