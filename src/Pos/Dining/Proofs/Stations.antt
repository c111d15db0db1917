-- ===== src/Pos/Dining/Proofs/Stations.antt =====
-- What the commands of packages/pos/src/dining-service.ts leave to be read of their account, and two
-- stations that work on one account through them.
use tridentpos.Prelude.{
  ℕ, ◌+◌, ◌≡◌, ◌∙◌, sym, ap, subst, arith, false, some, Option-cases, inl, inr, ℕ_discrete,
}
use tridentpos.Pos.Types.{Cuenta, CuentaStatus, is_active}
use tridentpos.Pos.Errors.{Result, ok, err}
use tridentpos.Pos.Table.{find_row}
use tridentpos.Pos.Repository.{DiningDb, cuenta_id, get_row, get_cuenta, load_cuenta}
use tridentpos.Pos.Repository.Laws.{get_cuenta_row}
use tridentpos.Pos.Dining.{Validator}
use tridentpos.Pos.Dining.Session.{Command, target, expected, cancels_line, execute}
use tridentpos.Pos.Dining.Proofs.Versions.{
  Refused, StatusStep, execute_stale, execute_closed, execute_saved,
}
use tridentpos.Pos.Dining.Proofs.Stored.{summary, summary_of, execute_stored}

pub loaded :
    (id : ℕ) (db : DiningDb) {version : ℕ} {status : CuentaStatus}
    → summary id db.cuentas ≡ some (version, status)
    → (c : Cuenta) × (get_cuenta id db ≡ some c) × (c.version ≡ version) × (c.status ≡ status)
unfolding summary summary_of get_cuenta get_row load_cuenta
loaded id db e = elim (Option-cases (find_row cuenta_id id db.cuentas)) [
  | inl missing ↦ absurd (ground (arith, missing))
  | inr (row, found) ↦
      (load_cuenta db row, ground (arith, found), ground (arith, found), ground (arith, found))
]

found_id :
    (k : Command) (db : DiningDb) {c : Cuenta} → get_cuenta (target k) db ≡ some c → c.id ≡ target k
found_id k db found = let (row, there, id, version, mesa) = get_cuenta_row (target k) db found in id

Refused-fails :
    (db : DiningDb) {saved : Cuenta} (r : Result Cuenta × DiningDb)
    → Refused db r
    → r.0 ≡ ok saved
    → ⊥
Refused-fails db (ok a, db') refused done = refused
Refused-fails db (err e, db') refused done = ground arith

-- A command that succeeds expects the stored version.
success_expects :
    (validate_pin : Validator) (k : Command) (now : ℕ) (db : DiningDb) {c saved : Cuenta}
    → get_cuenta (target k) db ≡ some c
    → (execute validate_pin k now db).0 ≡ ok saved
    → c.version ≡ expected k
success_expects validate_pin k now db {c} found done = elim (ℕ_discrete c.version (expected k)) [
  | yes same ↦ same
  | no other ↦ absurd (
      Refused-fails db (execute validate_pin k now db)
        (execute_stale validate_pin k now db found other) done)
]

module _ (validate_pin : Validator) (k : Command) (now : ℕ) (db : DiningDb) {c saved : Cuenta} where
  -- What a command that succeeds leaves to be read of its account.
  pub after_success :
      get_cuenta (target k) db ≡ some c
      → (execute validate_pin k now db).0 ≡ ok saved
      → (c' : Cuenta) × (get_cuenta (target k) (execute validate_pin k now db).1 ≡ some c')
        × (c'.version ≡ c.version + 1)
        × (c'.status ≡ saved.status)
  after_success found done =
      let (version, id, step) = execute_saved validate_pin k now db found done in
      let stored : summary (target k) (execute validate_pin k now db).1.cuentas
          ≡ some (saved.version, saved.status) =
        ap (λ i. summary i (execute validate_pin k now db).1.cuentas)
          (sym (id ∙ found_id k db found))
        ∙ execute_stored validate_pin k now db done in
      let (c', there, version', status') =
        loaded (target k) (execute validate_pin k now db).1 stored in
      (c', there, version' ∙ version, status')

  -- A command that succeeds leaves the account that it names stored one version further, and with its
  -- state changed only from open to printed, or from either to paid or annulled.
  pub execute-StatusStep :
      get_cuenta (target k) db ≡ some c
      → (execute validate_pin k now db).0 ≡ ok saved
      → (c' : Cuenta) × (get_cuenta (target k) (execute validate_pin k now db).1 ≡ some c')
        × (c'.version ≡ c.version + 1)
        × StatusStep c.status c'.status
  execute-StatusStep found done =
      let (version, id, step) = execute_saved validate_pin k now db found done in
      let (c', there, next, status) = after_success found done in
      (c', there, next, subst (StatusStep c.status) (sym status) step)

-- Two commands on one account that both expect the same version, each sent before its station has
-- seen the other: when the first succeeds, the second is refused and writes nothing.
pub execute_once :
    (validate_pin : Validator) (first second : Command) (now later : ℕ) (db : DiningDb)
    {c saved : Cuenta}
    → target second ≡ target first
    → expected second ≡ expected first
    → get_cuenta (target first) db ≡ some c
    → (execute validate_pin first now db).0 ≡ ok saved
    → let after = (execute validate_pin first now db).1 in
      Refused after (execute validate_pin second later after)
execute_once validate_pin first second now later db {c} same_account same_version found done =
    let after = (execute validate_pin first now db).1 in
    let (c', there, version, status) = after_success validate_pin first now db found done in
    let fresh = success_expects validate_pin first now db found done in
    execute_stale validate_pin second later after
      (ap (λ i. get_cuenta i after) same_account ∙ there)
      (ground (arith, version, fresh, same_version))

-- After a command has paid or annulled an account, every command on that account but the
-- cancellation of a line is refused, and writes nothing.
pub execute_final :
    (validate_pin : Validator) (first second : Command) (now later : ℕ) (db : DiningDb)
    {c saved : Cuenta}
    → target second ≡ target first
    → cancels_line second ≡ false
    → get_cuenta (target first) db ≡ some c
    → (execute validate_pin first now db).0 ≡ ok saved
    → is_active saved.status ≡ false
    → let after = (execute validate_pin first now db).1 in
      Refused after (execute validate_pin second later after)
execute_final validate_pin first second now later db {c} same_account other found done closed =
    let after = (execute validate_pin first now db).1 in
    let (c', there, version, status) = after_success validate_pin first now db found done in
    execute_closed validate_pin second later after
      (ap (λ i. get_cuenta i after) same_account ∙ there) (ap is_active status ∙ closed) other
