-- ===== src/Edge/Folio/Tests.antt =====
-- Runs of packages/edge/src/db/folio-persistence.ts, and its theorems at one table.
use tridentpos.Prelude.{
  ℕ, ◌≡◌, ◌≢◌, refl, arith, Bool, false, true, Option, none, some, List, [], ◌∷◌, codes, length,
  pos, ◌∙◌,
}
use tridentpos.Prelude.Fallible.{ok}
use tridentpos.Edge.Epoch.{
  compare_epochs, next_epoch_id, parse_epoch_number, compare_epochs-next_epoch_id,
}
use tridentpos.Edge.Folio.{
  FolioType, FolioDb, LocalFolioLease, SetActiveLeaseInput, ticket, factura, active, same_type,
  set_active_lease, consume_next_folio, revoke_lease, stale_epoch, lease_exhausted,
}
use tridentpos.Edge.Folio.Proofs.{
  FolioCommand, grant, consume, revoke, IsValidDb, run_folio, run_folio-IsValidDb,
}
use tridentpos.Edge.Folio.Proofs.Issued.{IncreasingFrom, issued, issued-IncreasingFrom}
use tridentpos.Edge.Folio.Proofs.Queue.{
  folios_left, observe, drain, grant_of, consume_next_folio-pop, drain-folios_left,
  set_active_lease-revoke_lease,
}

-- Folios 8 and 9 of the range 5 to 9 are left.
abbrev lease : LocalFolioLease
lease = record {
  epoch_id = codes "ep_3";
  fencing_token = codes "f3";
  range_start = 5;
  range_end = 9;
  current_folio = 7;
  status = active;
}

abbrev one_lease : FolioDb
one_lease = record {
  leases = λ t. elim t [ ticket ↦ some lease | _ ↦ none ];
  simulate_consume_failure = false;
}

one_lease-IsValidDb : IsValidDb one_lease
one_lease-IsValidDb t = ground arith

abbrev next_lease : SetActiveLeaseInput
next_lease = record (grant_of ticket lease) {
  epoch_id = codes "ep_10";
  range_start = 20;
  range_end = 21;
  current_folio = none;
}

abbrev day : List FolioCommand
day =
    consume ticket
    ∷ consume factura
    ∷ consume ticket
    ∷ consume ticket
    ∷ grant next_lease
    ∷ consume ticket
    ∷ grant (grant_of ticket lease)
    ∷ revoke factura
    ∷ consume ticket
    ∷ []

-- A folio is never from an older epoch, and the tenth is newer than the third.
issues : issued ticket day one_lease ≡ (3, 8) ∷ (3, 9) ∷ (10, 20) ∷ (10, 21) ∷ []
unfolding issued run_folio consume_next_folio tridentpos.Edge.Epoch.epoch_digits_value
    set_active_lease tridentpos.Edge.Epoch.is_valid_epoch_id tridentpos.Edge.Folio.check_current
    compare_epochs tridentpos.Prelude.◌-ℤ◌ revoke_lease
issues = refl

run_folio-IsValidDb_example : IsValidDb (run_folio (consume ticket) one_lease).1
run_folio-IsValidDb_example = run_folio-IsValidDb (consume ticket) one_lease one_lease-IsValidDb

issued-IncreasingFrom_example : IncreasingFrom (3, 7) (issued ticket day one_lease)
unfolding tridentpos.Edge.Epoch.epoch_digits_value
issued-IncreasingFrom_example = issued-IncreasingFrom ticket day one_lease

consume_next_folio-pop_example :
    observe ticket (consume_next_folio ticket one_lease) ≡ some (8, 9 ∷ [])
unfolding folios_left
consume_next_folio-pop_example = consume_next_folio-pop ticket one_lease refl one_lease-IsValidDb

drain-folios_left_example :
    ((drain 5 ticket one_lease).0 ≡ 8 ∷ 9 ∷ [])
    × (folios_left ticket (drain 5 ticket one_lease).1 ≡ [])
unfolding folios_left
drain-folios_left_example =
    drain-folios_left 5 ticket one_lease refl one_lease-IsValidDb (omega arith)

set_active_lease-revoke_lease_example :
    (folios_left ticket (revoke_lease ticket one_lease) ≡ [])
    × (db' : FolioDb) × (set_active_lease (grant_of ticket lease) (revoke_lease ticket one_lease)
        ≡ ok db')
    × (folios_left ticket db' ≡ folios_left ticket one_lease)
unfolding parse_epoch_number
set_active_lease-revoke_lease_example =
    set_active_lease-revoke_lease ticket one_lease {l = lease} {e = 3} one_lease-IsValidDb refl refl
      refl (λ e. absurd (cc))
