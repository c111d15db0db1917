-- ===== src/Edge/Folio.antt =====
-- The folio leases of a host: packages/edge/src/db/folio-persistence.ts. A method is one transaction,
-- so an error leaves the table as it was. The type of a folio is one of four by its data type.
pub mod Proofs
mod Tests
use tridentpos.Prelude.{
  ℕ, ◌+◌, ◌-◌, Bool, true, false, ◌||◌, not, Option, none, some, [], ◌∷◌, Text, text_eq, leb, ltb,
  ◌==◌, if◌then◌else◌, ltb_ℤ, eq_ℤ, ℤ, pos,
}
use tridentpos.Prelude.Fallible.{Fallible, ok, err, ◌>>=◌, ◌>>◌, raise_if, or_raise}
use tridentpos.Edge.Epoch.{EpochError, is_valid_epoch_id, compare_epochs}

pub data FolioType : Type 0 where
  ticket corte_x corte_z factura : FolioType

pub data LocalLeaseStatus : Type 0 where
  active exhausted revoked : LocalLeaseStatus

-- `local_folio_leases` has one row to a type, whose key is not repeated in the row.
pub record LocalFolioLease : Type 0 where
  pub epoch_id : Text
  pub fencing_token : Text
  pub range_start : ℕ
  pub range_end : ℕ
  pub current_folio : ℕ
  pub status : LocalLeaseStatus

pub record SetActiveLeaseInput : Type 0 where
  pub folio_type : FolioType
  pub epoch_id : Text
  pub fencing_token : Text
  pub range_start : ℕ
  pub range_end : ℕ
  pub current_folio : Option ℕ

-- The errors of the class `FolioError` by their messages, and those of its subclasses.
pub data FolioError : Type 0 where
  invalid_range invalid_epoch_id invalid_fencing_token folio_out_of_bounds : FolioError
  stale_epoch conflicting_token conflicting_range folio_regression : FolioError
  lease_unavailable lease_exhausted lease_revoked simulated_failure : FolioError
  epoch_error : EpochError → FolioError

pub record FolioDb : Type 0 where
  pub leases : FolioType → Option LocalFolioLease
  pub simulate_consume_failure : Bool

abbrev pub same_type : FolioType → FolioType → Bool
same_type ticket ticket = true
same_type corte_x corte_x = true
same_type corte_z corte_z = true
same_type factura factura = true
same_type _ _ = false

abbrev pub write_lease : FolioType → LocalFolioLease → FolioDb → FolioDb
write_lease t lease db = record db {
  leases = λ u. if same_type t u then some lease else db.leases u;
}

unfoldable pub get_local_lease : FolioType → FolioDb → Option LocalFolioLease
get_local_lease t db = db.leases t

abbrev pub is_empty : Text → Bool
is_empty [] = true
is_empty (_ ∷ _) = false

-- `input.currentFolio !== undefined ? input.currentFolio : input.rangeStart - 1`
unfoldable pub initial_folio : SetActiveLeaseInput → ℕ
initial_folio input = elim input.current_folio [ none ↦ input.range_start - 1 | some n ↦ n ]

abbrev of_epochs : {A : Type 0} → Fallible EpochError A → Fallible FolioError A
of_epochs (ok a) = ok a
of_epochs (err e) = err (epoch_error e)

-- A grant of the epoch that is stored must agree with the lease and may not go back.
unfoldable pub check_same_epoch :
    SetActiveLeaseInput → ℕ → LocalFolioLease → Fallible FolioError (Unit {0})
check_same_epoch input initial current = do
  raise_if (not (text_eq input.fencing_token current.fencing_token)) conflicting_token
  raise_if
      (not (input.range_start == current.range_start) || not (input.range_end == current.range_end))
      conflicting_range
  raise_if (ltb initial current.current_folio) folio_regression

-- An older epoch is refused, and a newer one may replace the lease.
unfoldable pub check_current :
    SetActiveLeaseInput → ℕ → Option LocalFolioLease → Fallible FolioError (Unit {0})
unfolding check_same_epoch
check_current input initial none = ok tt
check_current input initial (some current) = do
  cmp ← of_epochs (compare_epochs input.epoch_id current.epoch_id)
  raise_if (ltb_ℤ cmp (pos 0)) stale_epoch
  (if eq_ℤ cmp (pos 0) then check_same_epoch input initial current else ok tt)

abbrev pub granted_lease : SetActiveLeaseInput → ℕ → LocalFolioLease
granted_lease input initial = record {
  epoch_id = input.epoch_id;
  fencing_token = input.fencing_token;
  range_start = input.range_start;
  range_end = input.range_end;
  current_folio = initial;
  status = if initial == input.range_end then exhausted else active;
}

unfoldable pub set_active_lease : SetActiveLeaseInput → FolioDb → Fallible FolioError FolioDb
unfolding initial_folio get_local_lease
set_active_lease input db = do
  raise_if (ltb input.range_start 1 || ltb input.range_end input.range_start) invalid_range
  raise_if (is_empty input.epoch_id || not (is_valid_epoch_id input.epoch_id)) invalid_epoch_id
  raise_if (is_empty input.fencing_token) invalid_fencing_token
  let initial = initial_folio input
  raise_if (ltb initial (input.range_start - 1) || ltb input.range_end initial) folio_out_of_bounds
  check_current input initial (get_local_lease input.folio_type db)
  ok (write_lease input.folio_type (granted_lease input initial) db)

abbrev pub is_revoked : LocalLeaseStatus → Bool
is_revoked revoked = true
is_revoked _ = false

abbrev pub is_exhausted : LocalLeaseStatus → Bool
is_exhausted exhausted = true
is_exhausted _ = false

unfoldable pub next_folio : LocalFolioLease → ℕ
next_folio lease =
    if ltb lease.current_folio lease.range_start then lease.range_start else lease.current_folio + 1

abbrev pub consumed_lease : LocalFolioLease → ℕ → LocalFolioLease
consumed_lease lease next = record lease {
  current_folio = next;
  status = if next == lease.range_end then exhausted else active;
}

-- Where the next folio is beyond the range, the transaction marks the lease and then throws, which
-- takes the mark back.
unfoldable pub consume_next_folio : FolioType → FolioDb → Fallible FolioError (ℕ × FolioDb)
unfolding next_folio
consume_next_folio t db = do
  lease ← or_raise (db.leases t) lease_unavailable
  raise_if (is_revoked lease.status) lease_revoked
  raise_if (is_exhausted lease.status || leb lease.range_end lease.current_folio) lease_exhausted
  raise_if db.simulate_consume_failure simulated_failure
  let next = next_folio lease
  raise_if (ltb lease.range_end next) lease_exhausted
  ok (next, write_lease t (consumed_lease lease next) db)

abbrev revoke_found : FolioType → Option LocalFolioLease → FolioDb → FolioDb
revoke_found t none db = db
revoke_found t (some lease) db = write_lease t (record lease { status = revoked }) db

unfoldable pub revoke_lease : FolioType → FolioDb → FolioDb
revoke_lease t db = revoke_found t (db.leases t) db
