-- ===== src/Pos/Dining/Proofs/Transfers.antt =====
-- What `transferCuentaSync` of packages/pos/src/dining-service.ts leaves in the tables.
use tridentpos.Prelude.{ℕ, ◌+◌, ◌≡◌, ◌≢◌, ◌∙◌, refl, ap, sym, arith, true, false, none, some}
use tridentpos.Pos.Types.{Mesa, Cuenta, CuentaRow, is_active, is_disponible, disponible, ocupada}
use tridentpos.Pos.Errors.{ok, err, occ_conflict}
use tridentpos.Pos.Table.{find_row_key}
use tridentpos.Pos.Repository.{
  DiningDb, mesa_id, get_mesa, put_mesa, get_row, get_cuenta, put_cuenta, stored_row,
}
use tridentpos.Pos.Repository.Laws.{
  get_mesa-put_mesa, get_cuenta-put_mesa, get_row-put_mesa, get_mesa-put_cuenta, get_row-put_cuenta,
  get_cuenta_row, save_mesa_ok, save_mesa_stale, save_cuenta_ok,
}
use tridentpos.Pos.Policies.{TransferValidationContext, same_id, validate_transfer}
use tridentpos.Pos.Dining.{Validator, truthy, freed_mesa}
use tridentpos.Pos.Dining.Mesas.{occupied_mesa}
use tridentpos.Pos.Dining.Transfer.{
  TransferCuentaInput, moved_cuenta, transfer_cuenta, write_transfer,
}

after_transfer : TransferCuentaInput → ℕ → Cuenta → CuentaRow → Mesa → Mesa → DiningDb → DiningDb
after_transfer input now c row source free db =
    put_cuenta (moved_cuenta c free.id input.target_waiter_user_id now) (some row)
      (put_mesa (occupied_mesa free c.id now) (put_mesa (freed_mesa source now) db))

module _ (validate_pin : Validator) (input : TransferCuentaInput) (now : ℕ) (db : DiningDb)
    (c : Cuenta) (row : CuentaRow) (source free : Mesa) where
  write_transfer_distinct :
      get_row c.id db ≡ some row
      → row.version ≡ input.expected_version
      → get_mesa source.id db ≡ some source
      → get_mesa free.id db ≡ some free
      → input.expected_version ≢ 0
      → source.version ≢ 0
      → free.version ≢ 0
      → source.id ≢ free.id
      → write_transfer validate_pin input now c source free db ≡ (
        ok (
          moved_cuenta c free.id input.target_waiter_user_id now,
          freed_mesa source now,
          occupied_mesa free c.id now,
        ),
        after_transfer input now c row source free db,
      )
  unfolding write_transfer after_transfer
  write_transfer_distinct r v s f nv ns nf distinct =
      let db1 = put_mesa (freed_mesa source now) db in
      let db2 = put_mesa (occupied_mesa free c.id now) db1 in
      let f1 : get_mesa free.id db1 ≡ some free =
        get_mesa-put_mesa free.id (freed_mesa source now) db ∙ ground (arith, f) in
      let r2 : get_row c.id db2 ≡ some row =
        get_row-put_mesa c.id (occupied_mesa free c.id now) db1
        ∙ get_row-put_mesa c.id (freed_mesa source now) db
        ∙ r in
      ground (
        arith,
        save_mesa_ok (freed_mesa source now) source.version db s refl ns,
        save_mesa_ok (occupied_mesa free c.id now) free.version db1 f1 refl nf,
        save_cuenta_ok (moved_cuenta c free.id input.target_waiter_user_id now)
            input.expected_version db2 r2 v nv,
      )

  after_transfer_source :
      source.id ≢ free.id
      → get_mesa source.id (after_transfer input now c row source free db)
        ≡ some (freed_mesa source now)
  unfolding after_transfer
  after_transfer_source distinct =
      let db1 = put_mesa (freed_mesa source now) db in
      get_mesa-put_cuenta source.id (moved_cuenta c free.id input.target_waiter_user_id now)
        (some row) (put_mesa (occupied_mesa free c.id now) db1)
      ∙ get_mesa-put_mesa source.id (occupied_mesa free c.id now) db1
      ∙ ground (arith, get_mesa-put_mesa source.id (freed_mesa source now) db)

  after_transfer_target :
      get_mesa free.id (after_transfer input now c row source free db)
      ≡ some (occupied_mesa free c.id now)
  unfolding after_transfer
  after_transfer_target =
      let db1 = put_mesa (freed_mesa source now) db in
      get_mesa-put_cuenta free.id (moved_cuenta c free.id input.target_waiter_user_id now)
        (some row) (put_mesa (occupied_mesa free c.id now) db1)
      ∙ get_mesa-put_mesa free.id (occupied_mesa free c.id now) db1
      ∙ ground arith

  after_transfer_row :
      get_row c.id (after_transfer input now c row source free db)
      ≡ some (stored_row (moved_cuenta c free.id input.target_waiter_user_id now).row (some row))
  unfolding after_transfer
  after_transfer_row =
      get_row-put_cuenta c.id (moved_cuenta c free.id input.target_waiter_user_id now) (some row) _
      ∙ ground arith

find_mesa_id : (k : ℕ) (db : DiningDb) {m : Mesa} → get_mesa k db ≡ some m → m.id ≡ k
unfolding get_mesa
find_mesa_id k db found = find_row_key mesa_id k db.mesas found

abbrev given_pin : ℕ → TransferValidationContext
given_pin waiter = record { target_waiter_user_id = some waiter; target_waiter_pin_provided = true }

module _ (validate_pin : Validator) (input : TransferCuentaInput) (now : ℕ) (db : DiningDb)
    {c : Cuenta} {source free : Mesa} where
  -- A transfer that passes every check goes on to write.
  transfer_cuenta_write :
      truthy (validate_pin input.target_waiter_user_id input.target_waiter_pin) ≡ true
      → get_cuenta input.cuenta_id db ≡ some c
      → c.version ≡ input.expected_version
      → get_mesa input.source_mesa_id db ≡ some source
      → get_mesa input.target_mesa_id db ≡ some free
      → validate_transfer source free c (given_pin input.target_waiter_user_id) ≡ true
      → transfer_cuenta validate_pin input now db
        ≡ write_transfer validate_pin input now c source free db
  unfolding transfer_cuenta
  transfer_cuenta_write pin account version from to valid = ground arith

  -- An active account with a valid pin moves from its table to another one that is available: the
  -- operation succeeds, and the tables that it returns are as they are then stored. The source is
  -- stored as available and without an account, the target as occupied by the account, each one
  -- version further; the account is stored with the target, the new waiter and the next version.
  pub transfer_cuenta_moves :
      truthy (validate_pin input.target_waiter_user_id input.target_waiter_pin) ≡ true
      → get_cuenta input.cuenta_id db ≡ some c
      → c.version ≡ input.expected_version
      → get_mesa input.source_mesa_id db ≡ some source
      → get_mesa input.target_mesa_id db ≡ some free
      → is_active c.status ≡ true
      → is_disponible free.status ≡ true
      → input.source_mesa_id ≢ input.target_mesa_id
      → (c.version ≢ 0) × (source.version ≢ 0) × (free.version ≢ 0)
      → let (result, after) = transfer_cuenta validate_pin input now db in
        (moved : Cuenta) × (s : Mesa) × (t : Mesa) × (result ≡ ok (moved, s, t))
        × (moved.mesa_id ≡ some input.target_mesa_id)
        × (moved.version ≡ c.version + 1)
        × (get_mesa input.source_mesa_id after ≡ some s)
        × (s.status ≡ disponible)
        × (s.current_account_id ≡ none)
        × (s.version ≡ source.version + 1)
        × (get_mesa input.target_mesa_id after ≡ some t)
        × (t.status ≡ ocupada)
        × (t.current_account_id ≡ some input.cuenta_id)
        × (t.version ≡ free.version + 1)
        × ((row : CuentaRow) × (get_row input.cuenta_id after ≡ some row)
            × (row.mesa_id ≡ some input.target_mesa_id)
            × (row.current_waiter_user_id ≡ some input.target_waiter_user_id)
            × (row.version ≡ c.version + 1))
  unfolding stored_row validate_transfer after_transfer
  transfer_cuenta_moves pin account version from to active available distinct (nc, ns, nf) =
      let (row, stored, id, same, _) = get_cuenta_row input.cuenta_id db account in
      let sid = find_mesa_id input.source_mesa_id db from in
      let fid = find_mesa_id input.target_mesa_id db to in
      let other : source.id ≢ free.id = ground (arith, sid, fid) in
      let written =
        transfer_cuenta_write pin account version from to (ground (arith, other))
        ∙ write_transfer_distinct validate_pin input now db c row source free
            (ap (λ k. get_row k db) id ∙ stored) (same ∙ version)
            (ap (λ k. get_mesa k db) sid ∙ from) (ap (λ k. get_mesa k db) fid ∙ to)
            (ground (arith, version)) ns nf other in
      rw (written, sym sid, sym fid, sym id)
        (
          moved_cuenta c free.id input.target_waiter_user_id now,
          freed_mesa source now,
          occupied_mesa free c.id now,
          refl,
          refl,
          refl,
          after_transfer_source validate_pin input now db c row source free other,
          refl,
          refl,
          refl,
          after_transfer_target validate_pin input now db c row source free,
          refl,
          refl,
          refl,
          (_, after_transfer_row validate_pin input now db c row source free, refl, refl, refl),
        )

module _ (validate_pin : Validator) (input : TransferCuentaInput) (now : ℕ) (db : DiningDb)
    {c : Cuenta} {source : Mesa} where
  -- A transfer of an active account whose source and target are one table, to another waiter than the
  -- account has and with a valid pin, passes every check, and then fails for a conflict of versions
  -- with its own first write: the table stays stored as available and without an account, and the
  -- account stays stored as it was.
  pub transfer_cuenta_same_table :
      truthy (validate_pin input.target_waiter_user_id input.target_waiter_pin) ≡ true
      → get_cuenta input.cuenta_id db ≡ some c
      → c.version ≡ input.expected_version
      → get_mesa input.source_mesa_id db ≡ some source
      → input.target_mesa_id ≡ input.source_mesa_id
      → is_active c.status ≡ true
      → same_id (some input.target_waiter_user_id) c.current_waiter_user_id ≡ false
      → source.version ≢ 0
      → let (result, after) = transfer_cuenta validate_pin input now db in
        (result ≡ err (occ_conflict source.id source.version (source.version + 1)))
        × (get_mesa source.id after ≡ some (freed_mesa source now))
        × (get_cuenta input.cuenta_id after ≡ some c)
  unfolding validate_transfer write_transfer
  transfer_cuenta_same_table pin account version from same active other ns =
      let sid = find_mesa_id input.source_mesa_id db from in
      let s = ap (λ k. get_mesa k db) sid ∙ from in
      let db1 = put_mesa (freed_mesa source now) db in
      let f1 : get_mesa source.id db1 ≡ some (freed_mesa source now) =
        get_mesa-put_mesa source.id (freed_mesa source now) db ∙ ground arith in
      let written =
        transfer_cuenta_write validate_pin input now db pin account version from
          (ap (λ k. get_mesa k db) same ∙ from) (ground arith) in
      let stopped : write_transfer validate_pin input now c source source db
          ≡ (err (occ_conflict source.id source.version (source.version + 1)), db1) =
        ground (
          arith,
          save_mesa_ok (freed_mesa source now) source.version db s refl ns,
          save_mesa_stale (occupied_mesa source c.id now) source.version db1 f1 (ground arith) ns,
        ) in
      rw (written, stopped)
        (refl, f1, get_cuenta-put_mesa input.cuenta_id (freed_mesa source now) db ∙ account)
