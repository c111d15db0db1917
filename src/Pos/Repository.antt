-- ===== src/Pos/Repository.antt =====
-- packages/pos-edge-runtime/src/dining-sqlite-repository.ts over the tables of schema.ts. The
-- asynchronous methods call the synchronous ones. `UPDATE … WHERE id = ? AND version = ?` changes one
-- row or none, since the identifier is the primary key.
pub mod Laws
use tridentpos.Prelude.{
  ℤ, pos, ℕ, ◌==◌, Bool, Option, none, some, List, [], ◌∷◌, map, keep_if, if◌then◌else◌,
}
use tridentpos.Pos.Types.{
  Mesa, Cuenta, CuentaRow, CuentaItem, CuentaItemRow, CuentaItemModificador, is_active,
}
use tridentpos.Pos.Errors.{
  Action, Result, ok, err, raise, PosError, duplicate_mesa, duplicate_cuenta, occ_conflict,
}
use tridentpos.Pos.Table.{find_row, put_row, order_rows}

pub record DiningDb : Type 0 where
  pub mesas : List Mesa
  pub cuentas : List CuentaRow
  pub cuenta_items : List CuentaItemRow
  pub modificadores : List CuentaItemModificador

abbrev pub Dining : Type 0 → Type 0
Dining = Action DiningDb

abbrev pub mesa_id : Mesa → ℕ
mesa_id m = m.id

abbrev pub cuenta_id : CuentaRow → ℕ
cuenta_id c = c.id

abbrev pub item_id : CuentaItemRow → ℕ
item_id i = i.id

abbrev pub modificador_id : CuentaItemModificador → ℕ
modificador_id m = m.id

unfoldable pub get_mesa : ℕ → DiningDb → Option Mesa
get_mesa id db = find_row mesa_id id db.mesas

unfoldable pub put_mesa : Mesa → DiningDb → DiningDb
put_mesa mesa db = record db { mesas = put_row mesa_id mesa db.mesas }

write_mesa : Mesa → ℕ → Option Mesa → Dining Mesa
write_mesa mesa expected none db =
    if expected == 0
    then (ok mesa, put_mesa mesa db)
    else (err (occ_conflict mesa.id expected 0), db)
write_mesa mesa expected (some current) db =
    if expected == 0
    then (err duplicate_mesa, db)
    else if current.version == expected
    then (ok mesa, put_mesa mesa db)
    else (err (occ_conflict mesa.id expected current.version), db)

-- Version 0 inserts; any other is compared with the stored version, and swapped if it is the same.
unfoldable pub save_mesa : Mesa → ℕ → Dining Mesa
unfolding write_mesa
save_mesa mesa expected db = write_mesa mesa expected (get_mesa mesa.id db) db

unfoldable pub list_mesas : DiningDb → List Mesa
list_mesas db = order_rows (λ m. m.table_number) db.mesas

-- `guest_count` is never stored empty.
unfoldable pub stored_guests : Option ℤ → Option ℤ
stored_guests none = some (pos 1)
stored_guests (some n) = some n

load_item : DiningDb → CuentaItemRow → CuentaItem
load_item db row = record {
  row = row;
  modifiers = keep_if (λ m. m.cuenta_item_id == row.id) db.modificadores;
}

unfoldable pub load_items : ℕ → DiningDb → List CuentaItem
unfolding load_item
load_items id db =
    map (load_item db)
      (order_rows (λ i. i.created_at) (keep_if (λ i. i.cuenta_id == id) db.cuenta_items))

unfoldable pub load_cuenta : DiningDb → CuentaRow → Cuenta
unfolding load_items stored_guests
load_cuenta db row = record {
  row = record row { guest_count = stored_guests row.guest_count };
  items = load_items row.id db;
}

-- The row alone.
unfoldable pub get_row : ℕ → DiningDb → Option CuentaRow
get_row id db = find_row cuenta_id id db.cuentas

unfoldable pub get_cuenta : ℕ → DiningDb → Option Cuenta
unfolding load_cuenta
get_cuenta id db = elim (get_row id db) [ none ↦ none | some row ↦ some (load_cuenta db row) ]

-- INSERT … ON CONFLICT(id) DO UPDATE: the columns that a conflict leaves as they are.
pub merge_item : CuentaItemRow → Option CuentaItemRow → CuentaItemRow
merge_item row none = row
merge_item row (some old) = record row {
  cuenta_id = old.cuenta_id;
  product_id = old.product_id;
  product_name_snapshot = old.product_name_snapshot;
  created_at = old.created_at;
}

merge_modificador : CuentaItemModificador → Option CuentaItemModificador → CuentaItemModificador
merge_modificador m none = m
merge_modificador m (some old) = record m {
  cuenta_item_id = old.cuenta_item_id;
  modifier_id = old.modifier_id;
}

pub persist_modifiers : List CuentaItemModificador → DiningDb → DiningDb
unfolding merge_modificador
persist_modifiers [] db = db
persist_modifiers (m ∷ ms) db =
    let merged = merge_modificador m (find_row modificador_id m.id db.modificadores) in
    persist_modifiers ms
      (record db { modificadores = put_row modificador_id merged db.modificadores })

pub persist_item : CuentaItem → DiningDb → DiningDb
unfolding persist_modifiers merge_item
persist_item i db =
    let merged = merge_item i.row (find_row item_id i.id db.cuenta_items) in
    persist_modifiers i.modifiers
      (record db { cuenta_items = put_row item_id merged db.cuenta_items })

pub persist_items : List CuentaItem → DiningDb → DiningDb
unfolding persist_item
persist_items [] db = db
persist_items (i ∷ is) db = persist_items is (persist_item i db)

-- The row that an insertion stores, and the one that an update leaves: who opened the account, and
-- when, is never changed.
unfoldable pub stored_row : CuentaRow → Option CuentaRow → CuentaRow
unfolding stored_guests
stored_row row none = record row { guest_count = stored_guests row.guest_count }
stored_row row (some old) = record row {
  guest_count = stored_guests row.guest_count;
  opened_by_user_id = old.opened_by_user_id;
  opened_at = old.opened_at;
}

unfoldable pub put_cuenta : Cuenta → Option CuentaRow → DiningDb → DiningDb
unfolding stored_row persist_items
put_cuenta cuenta old db =
    persist_items cuenta.items
      (record db { cuentas = put_row cuenta_id (stored_row cuenta.row old) db.cuentas })

write_cuenta : Cuenta → ℕ → Option CuentaRow → Dining Cuenta
write_cuenta cuenta expected none db =
    if expected == 0
    then (ok cuenta, put_cuenta cuenta none db)
    else (err (occ_conflict cuenta.id expected 0), db)
write_cuenta cuenta expected (some current) db =
    if expected == 0
    then (err duplicate_cuenta, db)
    else if current.version == expected
    then (ok cuenta, put_cuenta cuenta (some current) db)
    else (err (occ_conflict cuenta.id expected current.version), db)

unfoldable pub save_cuenta : Cuenta → ℕ → Dining Cuenta
unfolding write_cuenta get_row
save_cuenta cuenta expected db = write_cuenta cuenta expected (get_row cuenta.id db) db

unfoldable pub list_open_cuentas : DiningDb → List Cuenta
unfolding load_cuenta
list_open_cuentas db =
    map (load_cuenta db)
      (order_rows (λ c. c.opened_at) (keep_if (λ c. is_active c.status) db.cuentas))
