-- ===== src/Pos/Dining/Proofs/Splits.antt =====
-- What `splitCuentaSync` of packages/pos/src/dining-service.ts stores.
use tridentpos.Prelude.{
  ℤ, pos, pos_zero-+ℤ, ℕ, ◌+◌, ◌+ℤ◌, ◌≡◌, ◌≢◌, ◌∙◌, ap, sym, subst, arith, int_laws, ℕ_discrete,
  refl, true, none, some, Option, List, [], ◌∷◌, map, eq_ℤ,
}
use tridentpos.Pos.Types.{Mesa, Cuenta, CuentaRow, anulada, is_active}
use tridentpos.Pos.Errors.{ok}
use tridentpos.Pos.Totals.Sums.{sum}
use tridentpos.Pos.Table.{find_row}
use tridentpos.Pos.Repository.{
  DiningDb, cuenta_id, get_cuenta, get_row, save_cuenta, put_cuenta, stored_row,
}
use tridentpos.Pos.Repository.Laws.{get_row-put_cuenta, get_cuenta_row}
use tridentpos.Pos.Split.{prorate_split}
use tridentpos.Pos.Dining.{Validator}
use tridentpos.Pos.Dining.Closing.{
  SplitCuentaInput, split_cuenta, sum_total_amounts, save_sub_cuentas, closed_cuenta,
}
use tridentpos.Pos.Dining.Session.{split, execute}
use tridentpos.Pos.Dining.Proofs.Stored.{link_table_keeps, save_cuenta_stored}
use tridentpos.Pos.Dining.Proofs.Stations.{after_success}

eq_ℤ_equal : (a b : ℤ) → eq_ℤ a b ≡ true → a ≡ b
eq_ℤ_equal a b same = ground arith

-- The plain sum of the totals of accounts.
abbrev pub total_of : List Cuenta → ℤ
total_of subs = sum (map (λ s. s.total_amount) subs)

sum_total_amounts-sum :
    (acc : ℤ) (subs : List Cuenta) → sum_total_amounts acc subs ≡ acc +ℤ total_of subs
unfolding sum_total_amounts
sum_total_amounts-sum acc [] = omega int_laws
sum_total_amounts-sum acc (s ∷ subs) =
    sum_total_amounts-sum (acc +ℤ s.total_amount) subs ∙ omega int_laws

-- Accounts that are stored now, with their totals, and were not before.
pub AllAdded : DiningDb → DiningDb → List Cuenta → Type 0
AllAdded before after [] = Unit
AllAdded before after (s ∷ subs) =
    (get_row s.id before ≡ none)
    × ((row : CuentaRow) × (get_row s.id after ≡ some row) × (row.total_amount ≡ s.total_amount))
    × AllAdded before after subs

save_new :
    (c : Cuenta) (db : DiningDb) {saved : Cuenta}
    → (save_cuenta c 0 db).0 ≡ ok saved
    → (get_row c.id db ≡ none) × ((save_cuenta c 0 db).1 ≡ put_cuenta c none db)
unfolding save_cuenta
save_new c db done = ground arith

split_steps :
    (validate_pin : Validator) (input : SplitCuentaInput) (now : ℕ) (db : DiningDb) {c : Cuenta}
    {saved : Cuenta} {subs : List Cuenta} {mesa : Option Mesa}
    → get_cuenta input.cuenta_id db ≡ some c
    → (split_cuenta validate_pin input now db).0 ≡ ok (saved, subs, mesa)
    → let parts = save_sub_cuentas subs db in
      let close = save_cuenta (closed_cuenta c anulada now) input.expected_version parts.1 in
      (is_active c.status ≡ true)
      × (prorate_split c input.partitions now ≡ ok subs)
      × (sum_total_amounts (pos 0) subs ≡ c.total_amount)
      × (parts.0 ≡ ok tt)
      × (close.0 ≡ ok saved)
      × ((split_cuenta validate_pin input now db).1.cuentas ≡ close.1.cuentas)
unfolding split_cuenta
split_steps validate_pin input now db found done = grind (arith, eq_ℤ_equal, link_table_keeps)

split_run :
    (validate_pin : Validator) (input : SplitCuentaInput) (now : ℕ) (db : DiningDb) {saved : Cuenta}
    {subs : List Cuenta} {mesa : Option Mesa}
    → (split_cuenta validate_pin input now db).0 ≡ ok (saved, subs, mesa)
    → ((execute validate_pin (split input) now db).0 ≡ ok saved)
      × ((execute validate_pin (split input) now db).1 ≡ (split_cuenta validate_pin input now db).1)
unfolding execute
split_run validate_pin input now db done = ground arith

save_subs_cons :
    (s : Cuenta) (subs : List Cuenta) (db : DiningDb)
    → (save_sub_cuentas (s ∷ subs) db).0 ≡ ok tt
    → (get_row s.id db ≡ none)
      × ((save_sub_cuentas subs (put_cuenta s none db)).0 ≡ ok tt)
      × ((save_sub_cuentas (s ∷ subs) db).1 ≡ (save_sub_cuentas subs (put_cuenta s none db)).1)
unfolding save_sub_cuentas save_cuenta
save_subs_cons s subs db done = ground arith

put_new_keeps :
    (s : Cuenta) (db : DiningDb) (k : ℕ) {row : CuentaRow}
    → get_row s.id db ≡ none
    → get_row k db ≡ some row
    → get_row k (put_cuenta s none db) ≡ some row
put_new_keeps s db k new there = elim (ℕ_discrete s.id k) [
  | yes same ↦ let e = ap (λ i. get_row i db) same in absurd (ground (arith, e, new, there))
  | no other ↦ get_row-put_cuenta k s none db ∙ ground (arith, other, there)
]

put_new_before :
    (s : Cuenta) (db : DiningDb) (k : ℕ)
    → get_row k (put_cuenta s none db) ≡ none
    → get_row k db ≡ none
put_new_before s db k missing =
    let e = sym (get_row-put_cuenta k s none db) ∙ missing in ground (arith, e)

save_subs_keep :
    (subs : List Cuenta) (db : DiningDb) (k : ℕ) {row : CuentaRow}
    → (save_sub_cuentas subs db).0 ≡ ok tt
    → get_row k db ≡ some row
    → get_row k (save_sub_cuentas subs db).1 ≡ some row
unfolding save_sub_cuentas
save_subs_keep [] db k done there = there
save_subs_keep (s ∷ subs) db k done there =
    let (new, rest, after) = save_subs_cons s subs db done in
    ap (get_row k) after
    ∙ save_subs_keep subs (put_cuenta s none db) k rest (put_new_keeps s db k new there)

AllAdded-put :
    (s : Cuenta) (before after : DiningDb) (subs : List Cuenta)
    → AllAdded (put_cuenta s none before) after subs
    → AllAdded before after subs
unfolding AllAdded
AllAdded-put s before after [] h = tt
AllAdded-put s before after (t ∷ subs) (new, stored, h) =
    (put_new_before s before t.id new, stored, AllAdded-put s before after subs h)

save_subs_added :
    (subs : List Cuenta) (db : DiningDb)
    → (save_sub_cuentas subs db).0 ≡ ok tt
    → AllAdded db (save_sub_cuentas subs db).1 subs
unfolding AllAdded stored_row
save_subs_added [] db done = tt
save_subs_added (s ∷ subs) db done =
    let (new, rest, after) = save_subs_cons s subs db done in
    let db1 = put_cuenta s none db in
    let here : get_row s.id db1 ≡ some (stored_row s.row none) =
      get_row-put_cuenta s.id s none db ∙ ground arith in
    let tail =
      AllAdded-put s db (save_sub_cuentas subs db1).1 subs (save_subs_added subs db1 rest) in
    (
      new,
      (
        stored_row s.row none,
        ap (get_row s.id) after ∙ save_subs_keep subs db1 s.id rest here,
        refl,
      ),
      subst (λ d. AllAdded db d subs) (sym after) tail,
    )

save_keeps_others :
    (c : Cuenta) (v : ℕ) (db : DiningDb) (k : ℕ)
    → k ≢ c.id
    → get_row k (save_cuenta c v db).1 ≡ get_row k db
unfolding save_cuenta
save_keeps_others c v db k other = grind (arith, get_row-put_cuenta)

AllAdded-close :
    (id : ℕ) (before mid after : DiningDb) (subs : List Cuenta) {row : CuentaRow}
    → get_row id before ≡ some row
    → ((k : ℕ) → k ≢ id → get_row k after ≡ get_row k mid)
    → AllAdded before mid subs
    → AllAdded before after subs
unfolding AllAdded
AllAdded-close id before mid after [] there same h = tt
AllAdded-close id before mid after (s ∷ subs) there same (new, (row, stored, total), h) =
    let other : s.id ≢ id =
      λ e. absurd (ground (arith, ap (λ i. get_row i before) e, new, there)) in
    (
      new,
      (row, same s.id other ∙ stored, total),
      AllAdded-close id before mid after subs there same h,
    )

get_row-cuentas : (k : ℕ) (a b : DiningDb) → a.cuentas ≡ b.cuentas → get_row k a ≡ get_row k b
unfolding get_row
get_row-cuentas k a b same = ap (find_row cuenta_id k) same

annulled_status :
    (c saved : Cuenta) (now v : ℕ) (db : DiningDb)
    → (save_cuenta (closed_cuenta c anulada now) v db).0 ≡ ok saved
    → saved.status ≡ anulada
annulled_status c saved now v db done =
    let (e, _) = save_cuenta_stored (closed_cuenta c anulada now) v db done in rw e refl

-- A split that succeeds is one of an active account. The parts are those of the strategy, their totals
-- add up to the total of the account, and each is stored as a new account with its total; the account
-- itself is left stored as annulled, one version further.
pub split_cuenta_conserves :
    (validate_pin : Validator) (input : SplitCuentaInput) (now : ℕ) (db : DiningDb) {c : Cuenta}
    {saved : Cuenta} {subs : List Cuenta} {mesa : Option Mesa}
    → get_cuenta input.cuenta_id db ≡ some c
    → (split_cuenta validate_pin input now db).0 ≡ ok (saved, subs, mesa)
    → let after = (split_cuenta validate_pin input now db).1 in
      (is_active c.status ≡ true)
      × (prorate_split c input.partitions now ≡ ok subs)
      × (total_of subs ≡ c.total_amount)
      × AllAdded db after subs
      × ((c' : Cuenta) × (get_cuenta input.cuenta_id after ≡ some c')
          × (c'.status ≡ anulada)
          × (c'.version ≡ c.version + 1))
split_cuenta_conserves validate_pin input now db {c} {saved} {subs} found done =
    let (active, parts, total, added, closed, rows) =
      split_steps validate_pin input now db found done in
    let (run, same) = split_run validate_pin input now db done in
    let (c', there, version, status) = after_success validate_pin (split input) now db found run in
    let (row, stored, id, _, _) = get_cuenta_row input.cuenta_id db found in
    let mid = (save_sub_cuentas subs db).1 in
    (
      active,
      parts,
      sym (pos_zero-+ℤ _) ∙ sym (sum_total_amounts-sum (pos 0) subs) ∙ total,
      AllAdded-close c.id db mid _ subs (ap (λ i. get_row i db) id ∙ stored)
          (λ k other.
            get_row-cuentas k _ _ rows
            ∙ save_keeps_others (closed_cuenta c anulada now) input.expected_version mid k other)
          (save_subs_added subs db added),
      (
        c',
        ap (get_cuenta input.cuenta_id) (sym same) ∙ there,
        status ∙ annulled_status c saved now input.expected_version mid closed,
        version,
      ),
    )
