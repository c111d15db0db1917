-- ===== src/Pos/Dining/Proofs/Tables.antt =====
-- Tables and the accounts that hold them, as packages/pos/src/dining-service.ts opens and closes
-- accounts and releases tables.
use tridentpos.Prelude.{ℕ, ◌+◌, ◌≡◌, ◌≢◌, ◌∙◌, refl, ap, arith, true, false, none, some}
use tridentpos.Pos.Types.{Mesa, Cuenta, CuentaRow, is_active, is_disponible, abierta}
use tridentpos.Pos.Errors.{ok}
use tridentpos.Pos.Table.{find_row_key}
use tridentpos.Pos.Repository.{
  DiningDb, mesa_id, get_mesa, put_mesa, get_row, get_cuenta, put_cuenta, save_mesa, save_cuenta,
  stored_row,
}
use tridentpos.Pos.Repository.Laws.{
  get_mesa-put_mesa, get_row-put_mesa, get_mesa-put_cuenta, get_row-put_cuenta, get_cuenta_row,
  save_mesa_ok, save_cuenta_ok, save_cuenta_new,
}
use tridentpos.Pos.Dining.{freed_mesa, given_id, free_table}
use tridentpos.Pos.Dining.Mesas.{
  OpenCuentaInput, LiberarMesaInput, new_cuenta, occupied_mesa, occupy_table, open_cuenta,
  liberar_mesa,
}
use tridentpos.Pos.Dining.Closing.{ClosedStatus, status_of, closed_cuenta, close_cuenta}
use tridentpos.Pos.Dining.Proofs.Versions.{Refused}

-- A table that holds an account which is neither paid nor annulled is not released without force:
-- the operation is refused, and nothing is written.
liberar_mesa_active :
    (input : LiberarMesaInput) (now : ℕ) (db : DiningDb) {mesa : Mesa} {account : ℕ} {c : Cuenta}
    → get_mesa input.mesa_id db ≡ some mesa
    → is_disponible mesa.status ≡ false
    → mesa.current_account_id ≡ some account
    → account ≢ 0
    → get_cuenta account db ≡ some c
    → is_active c.status ≡ true
    → input.force ≡ false
    → Refused db (liberar_mesa input now db)
unfolding liberar_mesa
liberar_mesa_active input now db found taken holds ne stored active unforced = ground arith

find_mesa_id : (k : ℕ) (db : DiningDb) {m : Mesa} → get_mesa k db ≡ some m → m.id ≡ k
unfolding get_mesa
find_mesa_id k db found = find_row_key mesa_id k db.mesas found

-- A release with the stored version that succeeds leaves the table stored as it is returned, and it is
-- available.
liberar_mesa_frees :
    (input : LiberarMesaInput) (now : ℕ) (db : DiningDb) {mesa released : Mesa}
    → get_mesa input.mesa_id db ≡ some mesa
    → mesa.version ≢ 0
    → (liberar_mesa input now db).0 ≡ ok released
    → (get_mesa input.mesa_id (liberar_mesa input now db).1 ≡ some released)
      × (is_disponible released.status ≡ true)
unfolding liberar_mesa save_mesa
liberar_mesa_frees input now db {mesa} found counted done =
    let id = find_mesa_id input.mesa_id db found in
    ground (arith, id, get_mesa-put_mesa input.mesa_id (freed_mesa mesa now) db)

module _ (account now : ℕ) (db : DiningDb) {mesa : Mesa} (table : ℕ) where
  occupy_table_ok :
      get_mesa table db ≡ some mesa
      → is_disponible mesa.status ≡ true
      → table ≢ 0
      → mesa.version ≢ 0
      → occupy_table (given_id (some table)) account now db
        ≡ (ok (some (occupied_mesa mesa account now)), put_mesa (occupied_mesa mesa account now) db)
  unfolding occupy_table
  occupy_table_ok found available ne nv =
      let id = find_mesa_id table db found in
      ground (
        arith,
        save_mesa_ok (occupied_mesa mesa account now) mesa.version db
            (ap (λ k. get_mesa k db) id ∙ found) refl nv,
      )

-- Opening an account at an available table, under an identifier that is new, stores both: the table
-- is occupied by the account, and the account is open at the table, at its first version.
open_cuenta_occupies :
    (input : OpenCuentaInput) (now : ℕ) (db : DiningDb) {mesa : Mesa} (table : ℕ)
    → input.mesa_id ≡ some table
    → get_row input.id db ≡ none
    → get_mesa table db ≡ some mesa
    → is_disponible mesa.status ≡ true
    → (table ≢ 0) × (mesa.version ≢ 0)
    → let (result, after) = open_cuenta input now db in
      (result ≡ ok (new_cuenta input now, some (occupied_mesa mesa input.id now)))
      × (get_mesa table after ≡ some (occupied_mesa mesa input.id now))
      × ((row : CuentaRow) × (get_row input.id after ≡ some row)
          × (row.status ≡ abierta)
          × (row.mesa_id ≡ some table)
          × (row.version ≡ 1))
unfolding open_cuenta get_cuenta new_cuenta stored_row
open_cuenta_occupies input now db {mesa} table at fresh found available (ne, nv) =
    let id = find_mesa_id table db found in
    let c = new_cuenta input now in
    let m = occupied_mesa mesa input.id now in
    let db1 = put_mesa m db in
    let occupied : occupy_table (given_id input.mesa_id) input.id now db ≡ (ok (some m), db1) =
      rw at (occupy_table_ok input.id now db table found available ne nv) in
    let saved : save_cuenta c 0 db1 ≡ (ok c, put_cuenta c none db1) =
      save_cuenta_new c db1 (get_row-put_mesa input.id m db ∙ fresh) in
    let opened : open_cuenta input now db ≡ (ok (c, some m), put_cuenta c none db1) =
      ground (arith, fresh, occupied, saved) in
    let table_after : get_mesa table (put_cuenta c none db1) ≡ some m =
      get_mesa-put_cuenta table c none db1 ∙ get_mesa-put_mesa table m db ∙ ground (arith, id) in
    let row_after = get_row-put_cuenta input.id c none db1 ∙ ground arith in
    rw opened (refl, table_after, (stored_row c.row none, row_after, refl, at, refl))

free_table_ok :
    (saved : Cuenta) (account now : ℕ) (db : DiningDb) {mesa : Mesa} (table : ℕ)
    → saved.mesa_id ≡ some table
    → get_mesa table db ≡ some mesa
    → mesa.current_account_id ≡ some account
    → (table ≢ 0) × (mesa.version ≢ 0)
    → free_table saved account now db
      ≡ (ok (some (freed_mesa mesa now)), put_mesa (freed_mesa mesa now) db)
unfolding free_table
free_table_ok saved account now db {mesa} table at found holds (ne, nv) =
    let id = find_mesa_id table db found in
    ground (
      arith,
      save_mesa_ok (freed_mesa mesa now) mesa.version db (ap (λ k. get_mesa k db) id ∙ found) refl
          nv,
    )

-- Closing an active account, by its stored version, at the table that it holds: the account is stored
-- as paid or annulled, whichever is asked for, one version further, and the table is free again.
pub close_cuenta_frees :
    (id version : ℕ) (status : ClosedStatus) (now : ℕ) (db : DiningDb) {c : Cuenta} {mesa : Mesa}
    (table : ℕ)
    → get_cuenta id db ≡ some c
    → c.version ≡ version
    → is_active c.status ≡ true
    → c.mesa_id ≡ some table
    → get_mesa table db ≡ some mesa
    → mesa.current_account_id ≡ some id
    → (version ≢ 0) × (table ≢ 0) × (mesa.version ≢ 0)
    → let (result, after) = close_cuenta id version status now db in
      (result ≡ ok (closed_cuenta c (status_of status) now, some (freed_mesa mesa now)))
      × (get_mesa table after ≡ some (freed_mesa mesa now))
      × ((row : CuentaRow) × (get_row id after ≡ some row)
          × (row.status ≡ status_of status)
          × (row.closed_at ≡ some now)
          × (row.version ≡ c.version + 1))
unfolding close_cuenta stored_row
close_cuenta_frees id version status now db {c} {mesa} table account same active at found holds
      (nv, ne, nm) =
    let (old, stored, cid, current, _) = get_cuenta_row id db account in
    let mid = find_mesa_id table db found in
    let closed = closed_cuenta c (status_of status) now in
    let db1 = put_cuenta closed (some old) db in
    let m = freed_mesa mesa now in
    let saved : save_cuenta closed version db ≡ (ok closed, db1) =
      save_cuenta_ok closed version db (ap (λ k. get_row k db) cid ∙ stored) (current ∙ same) nv in
    let freed : free_table closed id now db1 ≡ (ok (some m), put_mesa m db1) =
      free_table_ok closed id now db1 table at
        (get_mesa-put_cuenta table closed (some old) db ∙ found) holds (ne, nm) in
    let done : close_cuenta id version status now db ≡ (ok (closed, some m), put_mesa m db1) =
      ground (arith, account, saved, freed) in
    let table_after : get_mesa table (put_mesa m db1) ≡ some m =
      get_mesa-put_mesa table m db1 ∙ ground (arith, mid) in
    let row_after : get_row id (put_mesa m db1) ≡ some (stored_row closed.row (some old)) =
      get_row-put_mesa id m db1
      ∙ get_row-put_cuenta id closed (some old) db
      ∙ ground (arith, cid) in
    rw done (refl, table_after, (stored_row closed.row (some old), row_after, refl, refl, refl))
