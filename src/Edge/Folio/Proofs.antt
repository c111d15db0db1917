-- ===== src/Edge/Folio/Proofs.antt =====
-- What packages/edge/src/db/folio-persistence.ts guarantees of the leases that it keeps.
pub mod Issued
pub mod Queue
use tridentpos.Prelude.{
  ℕ, zero, suc, ◌+◌, ◌-◌, ◌≤◌, ◌<◌, ◌≡◌, ◌≢◌, refl, ap, sym, ◌∙◌, arith, Bool, true, false, ◌||◌,
  ◌&&◌, Option, none, some, List, [], ◌∷◌, ltb, leb, ◌==◌, if◌then◌else◌, length, Bool-cases,
  Option-cases, inl, inr, ◌⊎◌, ℤ, pos, ◌-ℤ◌, -ℤ_parts,
}
use tridentpos.Prelude.Fallible.{Fallible, ok, err, Fallible-cases}
use tridentpos.Edge.Epoch.{epoch_digits_value, parse_epoch_number, compare_epochs}
use tridentpos.Edge.Folio.{
  FolioType, FolioDb, LocalFolioLease, LocalLeaseStatus, active, exhausted, revoked,
  SetActiveLeaseInput, FolioError, lease_exhausted, same_type, set_active_lease, check_current,
  initial_folio, consume_next_folio, next_folio, revoke_lease, get_local_lease, write_lease,
  granted_lease, consumed_lease,
}

pub data FolioCommand : Type 0 where
  grant : SetActiveLeaseInput → FolioCommand
  consume : FolioType → FolioCommand
  revoke : FolioType → FolioCommand

-- A lease that keeps to its range, with the status that its last folio gives it unless it is revoked.
pub record IsValidLease (l : LocalFolioLease) : Type 0 where
  pub starts : 1 ≤ l.range_start
  pub ordered : l.range_start ≤ l.range_end
  pub from_start : l.range_start ≤ l.current_folio + 1
  pub to_end : l.current_folio ≤ l.range_end
  pub open_lease : l.status ≡ active → l.current_folio < l.range_end
  pub closed_lease : l.status ≡ exhausted → l.current_folio ≡ l.range_end

abbrev pub IsValidSlot : Option LocalFolioLease → Type 0
IsValidSlot none = Unit
IsValidSlot (some l) = IsValidLease l

abbrev pub after_consume : FolioDb → Fallible FolioError (ℕ × FolioDb) → Option ℕ × FolioDb
after_consume db (ok (n, db')) = (some n, db')
after_consume db (err e) = (none, db)

abbrev pub after_grant : FolioDb → Fallible FolioError FolioDb → FolioDb
after_grant db (ok db') = db'
after_grant db (err e) = db

-- What a command hands out, if it does, and the table behind it.
unfoldable pub run_folio : FolioCommand → FolioDb → Option ℕ × FolioDb
run_folio (grant input) db = (none, after_grant db (set_active_lease input db))
run_folio (consume t) db = after_consume db (consume_next_folio t db)
run_folio (revoke t) db = (none, revoke_lease t db)

-- A grant that succeeds passed its checks and writes the lease that it describes.
pub Granted : SetActiveLeaseInput → FolioDb → FolioDb → Type 0
Granted input db db' =
    (1 ≤ input.range_start)
    × (input.range_start ≤ input.range_end)
    × (input.range_start ≤ initial_folio input + 1)
    × (initial_folio input ≤ input.range_end)
    × (check_current input (initial_folio input) (db.leases input.folio_type) ≡ ok tt)
    × (db' ≡ write_lease input.folio_type (granted_lease input (initial_folio input)) db)

pub set_active_lease-Granted :
    (input : SetActiveLeaseInput) (db : FolioDb) {db' : FolioDb}
    → set_active_lease input db ≡ ok db'
    → Granted input db db'
unfolding set_active_lease Granted get_local_lease
set_active_lease-Granted input db done = ground arith

-- A folio that is handed out is the one after the last of a lease that is not revoked nor used up.
pub Consumed : FolioType → FolioDb → ℕ → FolioDb → Type 0
Consumed t db n db' =
    (l : LocalFolioLease) × (db.leases t ≡ some l)
    × (l.status ≡ active)
    × (l.current_folio < l.range_end)
    × (n ≡ next_folio l)
    × (n ≤ l.range_end)
    × (db' ≡ write_lease t (consumed_lease l n) db)

pub consume_next_folio-Consumed :
    (t : FolioType) (db : FolioDb) {n : ℕ} {db' : FolioDb}
    → consume_next_folio t db ≡ ok (n, db')
    → Consumed t db n db'
unfolding consume_next_folio Consumed
consume_next_folio-Consumed t db done = elim (Option-cases (db.leases t)) [
  | inl missing ↦ absurd (ground (arith, missing))
  | inr (l, found) ↦ (
    l,
    found,
    ground (arith, found),
    ground (arith, found),
    ground (arith, found),
    ground (arith, found),
    ground (arith, found),
  )
]

granted_lease-IsValidLease :
    (input : SetActiveLeaseInput) (n : ℕ)
    → 1 ≤ input.range_start
    → input.range_start ≤ input.range_end
    → input.range_start ≤ n + 1
    → n ≤ input.range_end
    → IsValidLease (granted_lease input n)
granted_lease-IsValidLease input n one ordered start end = ground arith

pub consumed_lease-IsValidLease :
    (l : LocalFolioLease)
    → IsValidLease l
    → l.current_folio < l.range_end
    → IsValidLease (consumed_lease l (next_folio l))
unfolding next_folio
consumed_lease-IsValidLease l h more = ground arith

revoked-IsValidLease :
    (l : LocalFolioLease) → IsValidLease l → IsValidLease (record l { status = revoked })
revoked-IsValidLease l h = ground arith

abbrev pub IsValidDb : FolioDb → Type 0
IsValidDb db = (t : FolioType) → IsValidSlot (db.leases t)

write_lease-IsValidDb :
    (u : FolioType) (l : LocalFolioLease) (db : FolioDb)
    → IsValidDb db
    → IsValidLease l
    → IsValidDb (write_lease u l db)
write_lease-IsValidDb u l db h k t = elim (Bool-cases (same_type u t)) [
  | inl same ↦ rw same k
  | inr other ↦ rw other (h t)
]

pub valid_found :
    (t : FolioType) (db : FolioDb) {l : LocalFolioLease}
    → IsValidDb db
    → db.leases t ≡ some l
    → IsValidLease l
valid_found t db h found = rw found at (h t)

-- Every command keeps the leases valid: a lease stays in its range, and is used up exactly when its
-- last folio is handed out.
pub run_folio-IsValidDb :
    (k : FolioCommand) (db : FolioDb) → IsValidDb db → IsValidDb (run_folio k db).1
unfolding run_folio Granted Consumed revoke_lease
run_folio-IsValidDb (grant input) db h = elim (Fallible-cases (set_active_lease input db)) [
  | inl (db', done) ↦
      let (one, ordered, start, end, checked, e) = set_active_lease-Granted input db done in
      rw done (
        rw e (
          write_lease-IsValidDb input.folio_type _ db h
            (granted_lease-IsValidLease input (initial_folio input) one ordered start end)))
  | inr (e, refused) ↦ rw refused h
]
run_folio-IsValidDb (consume t) db h = elim (Fallible-cases (consume_next_folio t db)) [
  | inl ((n, db'), done) ↦
      let (l, found, open_lease, more, next, most, e) = consume_next_folio-Consumed t db done in
      rw done (
        rw (e, next)
          (write_lease-IsValidDb t _ db h
            (consumed_lease-IsValidLease l (valid_found t db h found) more)))
  | inr (e, refused) ↦ rw refused h
]
run_folio-IsValidDb (revoke t) db h = elim (Option-cases (db.leases t)) [
  | inl missing ↦ rw missing h
  | inr (l, found) ↦
      rw found (write_lease-IsValidDb t _ db h (revoked-IsValidLease l (valid_found t db h found)))
]
