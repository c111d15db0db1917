-- ===== src/Pos/Repository/Laws.antt =====
-- What the domain may rely on in the dining repository: what a save stores, when it is refused, and
-- what it leaves alone.
use tridentpos.Prelude.{
  ℕ, ◌≡◌, ◌≢◌, refl, ap, ◌∙◌, Option, none, some, List, [], ◌∷◌, arith, Option-cases, inl, inr,
  ◌==◌, if◌then◌else◌,
}
use tridentpos.Pos.Types.{Mesa, Cuenta, CuentaItem, CuentaRow, CuentaItemModificador}
use tridentpos.Pos.Errors.{ok, err, occ_conflict}
use tridentpos.Pos.Table.{find_row, find_row-put_row, find_row_key}
use tridentpos.Pos.Repository.{
  DiningDb, mesa_id, cuenta_id, get_mesa, save_mesa, put_mesa, get_row, get_cuenta, save_cuenta,
  persist_item, persist_items, persist_modifiers, put_cuenta, stored_row, load_cuenta,
}

pub get_mesa-put_mesa :
    (k : ℕ) (mesa : Mesa) (db : DiningDb)
    → get_mesa k (put_mesa mesa db) ≡ (if mesa.id == k then some mesa else get_mesa k db)
unfolding get_mesa put_mesa
get_mesa-put_mesa k mesa db = find_row-put_row mesa_id k mesa db.mesas

-- Tables and accounts are kept apart.
pub get_cuenta-put_mesa :
    (k : ℕ) (mesa : Mesa) (db : DiningDb) → get_cuenta k (put_mesa mesa db) ≡ get_cuenta k db
unfolding get_cuenta put_mesa get_row
get_cuenta-put_mesa k mesa db = refl

pub get_row-put_mesa :
    (k : ℕ) (mesa : Mesa) (db : DiningDb) → get_row k (put_mesa mesa db) ≡ get_row k db
unfolding get_row put_mesa
get_row-put_mesa k mesa db = refl

persist_modifiers_keep :
    (ms : List CuentaItemModificador) (db : DiningDb)
    → ((persist_modifiers ms db).mesas ≡ db.mesas)
      × ((persist_modifiers ms db).cuentas ≡ db.cuentas)
unfolding persist_modifiers
persist_modifiers_keep [] db = (refl, refl)
persist_modifiers_keep (m ∷ ms) db = persist_modifiers_keep ms _

persist_item_keep :
    (i : CuentaItem) (db : DiningDb)
    → ((persist_item i db).mesas ≡ db.mesas) × ((persist_item i db).cuentas ≡ db.cuentas)
unfolding persist_item
persist_item_keep i db = persist_modifiers_keep i.modifiers _

persist_items_keep :
    (is : List CuentaItem) (db : DiningDb)
    → ((persist_items is db).mesas ≡ db.mesas) × ((persist_items is db).cuentas ≡ db.cuentas)
unfolding persist_items
persist_items_keep [] db = (refl, refl)
persist_items_keep (i ∷ is) db =
    let (mesas, cuentas) = persist_items_keep is (persist_item i db) in
    let (mesas', cuentas') = persist_item_keep i db in (mesas ∙ mesas', cuentas ∙ cuentas')

pub get_mesa-put_cuenta :
    (k : ℕ) (c : Cuenta) (old : Option CuentaRow) (db : DiningDb)
    → get_mesa k (put_cuenta c old db) ≡ get_mesa k db
unfolding get_mesa put_cuenta
get_mesa-put_cuenta k c old db = ap (find_row mesa_id k) (persist_items_keep c.items _).0

stored_row_id : (row : CuentaRow) (old : Option CuentaRow) → (stored_row row old).id ≡ row.id
unfolding stored_row
stored_row_id row none = refl
stored_row_id row (some old) = refl

pub get_row-put_cuenta :
    (k : ℕ) (c : Cuenta) (old : Option CuentaRow) (db : DiningDb)
    → get_row k (put_cuenta c old db)
      ≡ (if c.id == k then some (stored_row c.row old) else get_row k db)
unfolding get_row put_cuenta
get_row-put_cuenta k c old db =
    ap (find_row cuenta_id k) (persist_items_keep c.items _).1
    ∙ find_row-put_row cuenta_id k (stored_row c.row old) db.cuentas
    ∙ ap (λ j. if j == k then some (stored_row c.row old) else find_row cuenta_id k db.cuentas)
        (stored_row_id c.row old)

-- A save with the version that is stored.
pub save_mesa_ok :
    (mesa : Mesa) (v : ℕ) (db : DiningDb) {current : Mesa}
    → get_mesa mesa.id db ≡ some current
    → current.version ≡ v
    → v ≢ 0
    → save_mesa mesa v db ≡ (ok mesa, put_mesa mesa db)
unfolding save_mesa
save_mesa_ok mesa v db e same ne = rw e (ground arith)

-- A save with another version is refused, and changes nothing.
pub save_mesa_stale :
    (mesa : Mesa) (v : ℕ) (db : DiningDb) {current : Mesa}
    → get_mesa mesa.id db ≡ some current
    → current.version ≢ v
    → v ≢ 0
    → save_mesa mesa v db ≡ (err (occ_conflict mesa.id v current.version), db)
unfolding save_mesa
save_mesa_stale mesa v db e other ne = rw e (ground arith)

pub save_cuenta_ok :
    (c : Cuenta) (v : ℕ) (db : DiningDb) {current : CuentaRow}
    → get_row c.id db ≡ some current
    → current.version ≡ v
    → v ≢ 0
    → save_cuenta c v db ≡ (ok c, put_cuenta c (some current) db)
unfolding save_cuenta
save_cuenta_ok c v db e same ne = rw e (ground arith)

pub save_cuenta_new :
    (c : Cuenta) (db : DiningDb)
    → get_row c.id db ≡ none
    → save_cuenta c 0 db ≡ (ok c, put_cuenta c none db)
unfolding save_cuenta
save_cuenta_new c db e = rw e refl

pub get_cuenta-get_row :
    (k : ℕ) (db : DiningDb) {c : Cuenta}
    → get_cuenta k db ≡ some c
    → (row : CuentaRow) × (get_row k db ≡ some row) × (c ≡ load_cuenta db row)
unfolding get_cuenta
get_cuenta-get_row k db {c} e = elim (Option-cases (get_row k db)) [
  | inl missing ↦ absurd (ground (arith, missing))
  | inr (row, found) ↦ (row, found, ground (arith, found))
]

get_row_id : (k : ℕ) (db : DiningDb) {row : CuentaRow} → get_row k db ≡ some row → row.id ≡ k
unfolding get_row
get_row_id k db found = find_row_key cuenta_id k db.cuentas found

load_cuenta_fields :
    (k : ℕ) (db : DiningDb) (row : CuentaRow) (c : Cuenta)
    → c ≡ load_cuenta db row
    → row.id ≡ k
    → (c.id ≡ k) × (row.version ≡ c.version) × (row.mesa_id ≡ c.mesa_id)
unfolding load_cuenta
load_cuenta_fields k db row c e id = rw e (id, refl, refl)

-- The row that a loaded account comes from.
pub get_cuenta_row :
    (k : ℕ) (db : DiningDb) {c : Cuenta}
    → get_cuenta k db ≡ some c
    → (row : CuentaRow) × (get_row k db ≡ some row)
      × (c.id ≡ k)
      × (row.version ≡ c.version)
      × (row.mesa_id ≡ c.mesa_id)
get_cuenta_row k db {c} found =
    let (row, there, e) = get_cuenta-get_row k db found in
    let (id, version, mesa) = load_cuenta_fields k db row c e (get_row_id k db there) in
    (row, there, id, version, mesa)

-- Saving a table leaves the accounts alone.
pub save_mesa_cuentas :
    (m : Mesa) (v : ℕ) (db : DiningDb) → (save_mesa m v db).1.cuentas ≡ db.cuentas
unfolding save_mesa put_mesa
save_mesa_cuentas m v db = ground arith
