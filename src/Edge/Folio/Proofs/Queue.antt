-- ===== src/Edge/Folio/Proofs/Queue.antt =====
-- The folios of a lease as a queue: what `consumeNextFolio` of packages/edge/src/db/
-- folio-persistence.ts promises, without the ranges and the states that it keeps.
use tridentpos.Prelude.{
  ℕ, zero, suc, ◌+◌, ◌-◌, ◌≤◌, ◌<◌, ◌≡◌, ◌≢◌, refl, arith, true, false, Option, none, some, List,
  [], ◌∷◌, length, Bool-cases, inl, inr, ◌⊎◌, pos, ◌-ℤ◌, Text, text_eq, int_laws, ◌==◌, ap, sym,
  ◌∙◌,
}
use tridentpos.Prelude.Fallible.{Fallible, ok, err, Fallible-cases}
use tridentpos.Edge.Epoch.{parse_epoch_number, compare_epochs}
use tridentpos.Edge.Folio.{
  FolioType, FolioDb, FolioError, LocalFolioLease, LocalLeaseStatus, active, exhausted, revoked,
  consume_next_folio, next_folio, revoke_lease, write_lease, consumed_lease, set_active_lease,
  SetActiveLeaseInput, granted_lease, check_current, check_same_epoch,
}
use tridentpos.Edge.Folio.Proofs.{
  run_folio, consume, run_folio-IsValidDb, Consumed, consume_next_folio-Consumed, IsValidLease,
  IsValidDb, IsValidSlot, valid_found,
}

-- `count` numbers from `first`.
abbrev pub range_from : ℕ → ℕ → List ℕ
range_from first zero = []
range_from first (suc count) = first ∷ range_from (first + 1) count

abbrev pub left_of : LocalFolioLease → List ℕ
left_of lease = elim lease.status [
  | active ↦ range_from (lease.current_folio + 1) (lease.range_end - lease.current_folio)
  | exhausted ↦ []
  | revoked ↦ []
]

abbrev pub left_in : Option LocalFolioLease → List ℕ
left_in none = []
left_in (some lease) = left_of lease

-- The folios that a host may still hand out.
unfoldable pub folios_left : FolioType → FolioDb → List ℕ
folios_left t db = left_in (db.leases t)

-- The specification: the first element, and the others.
abbrev pub pop : List ℕ → Option (ℕ × List ℕ)
pop [] = none
pop (n ∷ ns) = some (n, ns)

abbrev pub observe : FolioType → Fallible FolioError (ℕ × FolioDb) → Option (ℕ × List ℕ)
observe t (ok (n, db)) = some (n, folios_left t db)
observe t (err e) = none

next_of_valid : (l : LocalFolioLease) → IsValidLease l → next_folio l ≡ l.current_folio + 1
unfolding next_folio
next_of_valid l h = ground arith

range_step :
    (c e : ℕ) → c < e → range_from (c + 1) (e - c) ≡ (c + 1) ∷ range_from (c + 1 + 1) (e - (c + 1))
range_step c e h = let k : e - c ≡ suc (e - (c + 1)) = omega arith in rw k refl

left_of-consumed :
    (l : LocalFolioLease)
    → l.current_folio < l.range_end
    → left_of (consumed_lease l (l.current_folio + 1))
      ≡ range_from (l.current_folio + 1 + 1) (l.range_end - (l.current_folio + 1))
left_of-consumed l h = elim (Bool-cases (l.current_folio + 1 == l.range_end)) [
  | inl last ↦
      let k : l.range_end - (l.current_folio + 1) ≡ 0 = ground (arith, last) in rw (last, k) refl
  | inr more ↦ rw more refl
]

consume_active :
    (t : FolioType) (db : FolioDb) (l : LocalFolioLease)
    → db.simulate_consume_failure ≡ false
    → db.leases t ≡ some l
    → IsValidLease l
    → l.status ≡ active
    → consume_next_folio t db
      ≡ ok (l.current_folio + 1, write_lease t (consumed_lease l (l.current_folio + 1)) db)
unfolding consume_next_folio
consume_active t db l works found h open_lease = ground (arith, next_of_valid l h)

write_lease_self :
    (t : FolioType) (l : LocalFolioLease) (db : FolioDb) → (write_lease t l db).leases t ≡ some l
write_lease_self t l db = ground arith

refines_at :
    (t : FolioType) (db : FolioDb) (lease : Option LocalFolioLease)
    → db.simulate_consume_failure ≡ false
    → db.leases t ≡ lease
    → IsValidSlot lease
    → observe t (consume_next_folio t db) ≡ pop (left_in lease)
unfolding consume_next_folio folios_left
refines_at t db none works found h = ground arith
refines_at t db (some l) works found h = elim (status_cases l.status) [
  | inl open_lease ↦
      let less = h.open_lease open_lease in
      let left : folios_left t (write_lease t (consumed_lease l (l.current_folio + 1)) db)
          ≡ range_from (l.current_folio + 1 + 1) (l.range_end - (l.current_folio + 1)) =
        ap left_in (write_lease_self t (consumed_lease l (l.current_folio + 1)) db)
        ∙ left_of-consumed l less in
      ap (observe t) (consume_active t db l works found h open_lease)
      ∙ ap (λ ns. some (l.current_folio + 1, ns)) left
      ∙ rw (open_lease, range_step l.current_folio l.range_end less) refl
  | inr (inl full) ↦ ground (arith, full)
  | inr (inr gone) ↦ ground (arith, gone)
]
  where
    status_cases : (s : LocalLeaseStatus) → (s ≡ active) ⊎ ((s ≡ exhausted) ⊎ (s ≡ revoked))
    status_cases active = inl refl
    status_cases exhausted = inr (inl refl)
    status_cases revoked = inr (inr refl)

-- On valid leases `consumeNextFolio` takes the next element of the queue of folios left: it hands out
-- the first and leaves the others, and it fails exactly when none is left.
pub consume_next_folio-pop :
    (t : FolioType) (db : FolioDb)
    → db.simulate_consume_failure ≡ false
    → IsValidDb db
    → observe t (consume_next_folio t db) ≡ pop (folios_left t db)
unfolding folios_left
consume_next_folio-pop t db works h = refines_at t db (db.leases t) works refl (h t)

-- Folios are asked for until one is refused, at most as often as the first argument says.
unfoldable pub drain : ℕ → FolioType → FolioDb → List ℕ × FolioDb
drain zero t db = ([], db)
drain (suc f) t db = elim (consume_next_folio t db) [
  | ok (n, db') ↦ (n ∷ (drain f t db').0, (drain f t db').1)
  | err e ↦ ([], db)
]

-- A folio that is handed out leaves a valid table with the others of the queue.
consume_next_folio_step :
    (t : FolioType) (db : FolioDb) {n : ℕ} {db' : FolioDb}
    → db.simulate_consume_failure ≡ false
    → IsValidDb db
    → consume_next_folio t db ≡ ok (n, db')
    → (db'.simulate_consume_failure ≡ false)
      × IsValidDb db'
      × (folios_left t db ≡ n ∷ folios_left t db')
unfolding run_folio Consumed
consume_next_folio_step t db {n} {db'} works h done =
    let popped : pop (folios_left t db) ≡ some (n, folios_left t db') =
      sym (consume_next_folio-pop t db works h) ∙ ap (observe t) done in
    let (l, found, open_lease, more, next, most, e) = consume_next_folio-Consumed t db done in
    (
      rw e works,
      rw done at (run_folio-IsValidDb (consume t) db h),
      popped_cons (folios_left t db) popped,
    )
  where
    popped_cons : {n : ℕ} {ns : List ℕ} (xs : List ℕ) → pop xs ≡ some (n, ns) → xs ≡ n ∷ ns
    popped_cons [] p = absurd (cc)
    popped_cons (x ∷ xs) p = ground arith

none_left :
    (t : FolioType) (db : FolioDb) {e : FolioError}
    → db.simulate_consume_failure ≡ false
    → IsValidDb db
    → consume_next_folio t db ≡ err e
    → folios_left t db ≡ []
none_left t db works h refused =
    nothing_popped (folios_left t db)
      (sym (consume_next_folio-pop t db works h) ∙ ap (observe t) refused)
  where
    nothing_popped : (xs : List ℕ) → pop xs ≡ none → xs ≡ []
    nothing_popped [] p = refl
    nothing_popped (x ∷ xs) p = absurd (cc)

-- Asked at least as often as folios are left, the host hands out every one of them, in order and
-- without a gap, and then has none left.
pub drain-folios_left :
    (f : ℕ) (t : FolioType) (db : FolioDb)
    → db.simulate_consume_failure ≡ false
    → IsValidDb db
    → length (folios_left t db) ≤ f
    → ((drain f t db).0 ≡ folios_left t db) × (folios_left t (drain f t db).1 ≡ [])
unfolding drain
drain-folios_left zero t db works h enough = nothing (folios_left t db) enough
  where
    nothing : (xs : List ℕ) → length xs ≤ 0 → ([] ≡ xs) × (xs ≡ [])
    nothing [] p = (refl, refl)
    nothing (x ∷ xs) p = absurd (omega arith)
drain-folios_left (suc f) t db works h enough = elim (Fallible-cases (consume_next_folio t db)) [
  | inl ((n, db'), done) ↦
      let (works', h', left) = consume_next_folio_step t db works h done in
      let (all, none_after) = drain-folios_left f t db' works' h' (omega (arith, ap length left)) in
      rw (done, drain) (ap (◌∷◌ n) all ∙ sym left, none_after)
  | inr (e, refused) ↦
      let left = none_left t db works h refused in rw (refused, drain) (sym left, left)
]

text_eq_refl : (s : Text) → text_eq s s ≡ true
unfolding text_eq
text_eq_refl [] = refl
text_eq_refl (c ∷ s) = ground (arith, text_eq_refl s)

abbrev pub grant_of : FolioType → LocalFolioLease → SetActiveLeaseInput
grant_of t l = record {
  folio_type = t;
  epoch_id = l.epoch_id;
  fencing_token = l.fencing_token;
  range_start = l.range_start;
  range_end = l.range_end;
  current_folio = some l.current_folio;
}

check_again :
    (t : FolioType) (l : LocalFolioLease) (s : LocalLeaseStatus) {e : ℕ}
    → parse_epoch_number l.epoch_id ≡ ok e
    → check_current (grant_of t l) l.current_folio (some (record l { status = s })) ≡ ok tt
unfolding check_current check_same_epoch compare_epochs
check_again t l s {e} parsed = ground (arith, parsed, text_eq_refl l.fencing_token, zero_diff e)
  where
    zero_diff : (e : ℕ) → pos e -ℤ pos e ≡ pos 0
    zero_diff e = omega int_laws

grant_again :
    (t : FolioType) (db : FolioDb) (l : LocalFolioLease) {e : ℕ}
    → db.leases t ≡ some (record l { status = revoked })
    → IsValidLease l
    → parse_epoch_number l.epoch_id ≡ ok e
    → l.fencing_token ≢ []
    → set_active_lease (grant_of t l) db
      ≡ ok (write_lease t (granted_lease (grant_of t l) l.current_folio) db)
unfolding set_active_lease parse_epoch_number
grant_again t db l found h parsed token =
    ground (arith, found, h, parsed, check_again t l revoked parsed)

granted_left :
    (t : FolioType) (l : LocalFolioLease)
    → l.status ≡ active
    → l.current_folio < l.range_end
    → left_of (granted_lease (grant_of t l) l.current_folio) ≡ left_of l
granted_left t l open_lease more = ground arith

-- A revocation is undone by the grant that was revoked: after `revokeLease` no folio of the type is
-- left, but `setActiveLease` accepts the same lease again, of the same epoch and token, and then every
-- folio that was left before is left again.
pub set_active_lease-revoke_lease :
    (t : FolioType) (db : FolioDb) {l : LocalFolioLease} {e : ℕ}
    → IsValidDb db
    → db.leases t ≡ some l
    → l.status ≡ active
    → parse_epoch_number l.epoch_id ≡ ok e
    → l.fencing_token ≢ []
    → (folios_left t (revoke_lease t db) ≡ [])
      × (db' : FolioDb) × (set_active_lease (grant_of t l) (revoke_lease t db) ≡ ok db')
      × (folios_left t db' ≡ folios_left t db)
unfolding folios_left revoke_lease
set_active_lease-revoke_lease t db {l} h found open_lease parsed token =
    let gone = record l { status = revoked } in
    let dbr = write_lease t gone db in
    let after : revoke_lease t db ≡ dbr = rw found refl in
    let granted = granted_lease (grant_of t l) l.current_folio in
    let there : dbr.leases t ≡ some gone = write_lease_self t gone db in
    let again : set_active_lease (grant_of t l) dbr ≡ ok (write_lease t granted dbr) =
      grant_again t dbr l there (valid_found t db h found) parsed token in
    let more = (valid_found t db h found).open_lease open_lease in
    (
      ap (folios_left t) after ∙ ap left_in there,
      write_lease t granted dbr,
      ap (set_active_lease (grant_of t l)) after ∙ again,
      ap left_in (write_lease_self t granted dbr)
          ∙ granted_left t l open_lease more
          ∙ sym (ap left_in found),
    )
