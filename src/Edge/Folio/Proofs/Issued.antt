-- ===== src/Edge/Folio/Proofs/Issued.antt =====
-- The folios that packages/edge/src/db/folio-persistence.ts hands out over any sequence of commands.
use tridentpos.Prelude.{
  ℕ, ◌≡◌, refl, arith, Bool, true, false, ◌||◌, ◌&&◌, Option, none, some, List, [], ◌∷◌, ltb, leb,
  ◌==◌, if◌then◌else◌, Bool-cases, Option-cases, inl, inr, pos, -ℤ_parts, ◌∙◌, ap, sym,
}
use tridentpos.Prelude.Fallible.{ok, Fallible-cases}
use tridentpos.Edge.Epoch.{epoch_digits_value, parse_epoch_number, compare_epochs}
use tridentpos.Edge.Folio.{
  FolioType, FolioDb, LocalFolioLease, SetActiveLeaseInput, same_type, set_active_lease,
  check_current, check_same_epoch, initial_folio, consume_next_folio, next_folio, revoke_lease,
}
use tridentpos.Edge.Folio.Proofs.{
  FolioCommand, grant, consume, revoke, run_folio, Granted, set_active_lease-Granted, Consumed,
  consume_next_folio-Consumed, after_grant, after_consume,
}

-- Pairs of an epoch and a folio, by the epoch first.
abbrev pub lex_lt : ℕ × ℕ → ℕ × ℕ → Bool
lex_lt (e, n) (e', n') = ltb e e' || (e == e' && ltb n n')

abbrev pub lex_le : ℕ × ℕ → ℕ × ℕ → Bool
lex_le (e, n) (e', n') = ltb e e' || (e == e' && leb n n')

-- The number of the epoch of a lease, and its last folio.
abbrev pub mark : Option LocalFolioLease → ℕ × ℕ
mark none = (0, 0)
mark (some l) = (epoch_digits_value l.epoch_id, l.current_folio)

abbrev pub issued_by : Option LocalFolioLease → Option ℕ → List (ℕ × ℕ) → List (ℕ × ℕ)
issued_by lease none rest = rest
issued_by lease (some n) rest = ((mark lease).0, n) ∷ rest

abbrev pub issue_of : FolioType → FolioCommand → FolioDb → Option ℕ
issue_of t (consume u) db = if same_type u t then (run_folio (consume u) db).0 else none
issue_of t (grant input) db = none
issue_of t (revoke u) db = none

-- The folios of a type that the commands hand out, each with the epoch of the lease it is from.
unfoldable pub issued : FolioType → List FolioCommand → FolioDb → List (ℕ × ℕ)
issued t [] db = []
issued t (k ∷ ks) db = issued_by (db.leases t) (issue_of t k db) (issued t ks (run_folio k db).1)

abbrev pub IncreasingFrom : ℕ × ℕ → List (ℕ × ℕ) → Type 0
IncreasingFrom m [] = Unit
IncreasingFrom m (p ∷ ps) = (lex_lt m p ≡ true) × IncreasingFrom p ps

IncreasingFrom-lex_le :
    (m m' : ℕ × ℕ) (ps : List (ℕ × ℕ))
    → lex_le m m' ≡ true
    → IncreasingFrom m' ps
    → IncreasingFrom m ps
IncreasingFrom-lex_le m m' [] le h = tt
IncreasingFrom-lex_le m m' (p ∷ ps) le h = (ground arith, h.1)

same_type→eq : (t u : FolioType) → same_type t u ≡ true → t ≡ u
same_type→eq t u h = ground arith

parsed_value : (s : List ℕ) (n : ℕ) → parse_epoch_number s ≡ ok n → n ≡ epoch_digits_value s
unfolding parse_epoch_number
parsed_value s n h = ground arith

check_current_advances :
    (input : SetActiveLeaseInput) (n : ℕ) (lease : Option LocalFolioLease)
    → check_current input n lease ≡ ok tt
    → lex_le (mark lease) (epoch_digits_value input.epoch_id, n) ≡ true
unfolding check_current check_same_epoch compare_epochs
check_current_advances input n none h = ground arith
check_current_advances input n (some l) h =
    elim (Fallible-cases (parse_epoch_number input.epoch_id)) [
      | inr (e, bad) ↦ absurd (ground (arith, bad))
      | inl (a, new) ↦ elim (Fallible-cases (parse_epoch_number l.epoch_id)) [
        | inr (e, bad) ↦ absurd (ground (arith, new, bad))
        | inl (b, old) ↦ ground (
          arith,
          new,
          old,
          parsed_value input.epoch_id a new,
          parsed_value l.epoch_id b old,
          -ℤ_parts (pos a) (pos b),
        )
      ]
    ]

-- A lease before and after a command that hands out this folio, or none.
abbrev Advances : Option LocalFolioLease → Option ℕ → Option LocalFolioLease → Type 0
Advances lease none lease' = lex_le (mark lease) (mark lease') ≡ true
Advances lease (some n) lease' =
    (lex_lt (mark lease) ((mark lease).0, n) ≡ true) × (mark lease' ≡ ((mark lease).0, n))

lex_le_refl : (m : ℕ × ℕ) → lex_le m m ≡ true
lex_le_refl m = ground arith

grant-Advances :
    (t : FolioType) (input : SetActiveLeaseInput) (db : FolioDb)
    → Advances (db.leases t) none ((after_grant db (set_active_lease input db)).leases t)
unfolding Granted
grant-Advances t input db = elim (Fallible-cases (set_active_lease input db)) [
  | inr (e, refused) ↦ rw refused (lex_le_refl (mark (db.leases t)))
  | inl (db', done) ↦
      let (one, ordered, start, end, checked, e) = set_active_lease-Granted input db done in
      rw (done, e)
        (elim (Bool-cases (same_type input.folio_type t)) [
          | inr other ↦ rw other (lex_le_refl (mark (db.leases t)))
          | inl same ↦ rw same (
              check_current_advances input (initial_folio input) (db.leases t) (
                ap (λ u. check_current input (initial_folio input) (db.leases u))
                  (sym (same_type→eq input.folio_type t same))
                ∙ checked))
        ])
]

next_folio_advances :
    (l : LocalFolioLease) → lex_lt (mark (some l)) ((mark (some l)).0, next_folio l) ≡ true
unfolding next_folio
next_folio_advances l = ground arith

consume-Advances :
    (t : FolioType) (db : FolioDb)
    → Advances
        (db.leases t)
        (after_consume db (consume_next_folio t db)).0
        ((after_consume db (consume_next_folio t db)).1.leases t)
unfolding Consumed
consume-Advances t db = elim (Fallible-cases (consume_next_folio t db)) [
  | inr (e, refused) ↦ rw refused (lex_le_refl (mark (db.leases t)))
  | inl ((n, db'), done) ↦
      let (l, found, open_lease, more, next, most, e) = consume_next_folio-Consumed t db done in
      rw (done, e, found) (rw next (next_folio_advances l), rw (same_type_refl t) refl)
]
  where
    same_type_refl : (t : FolioType) → same_type t t ≡ true
    same_type_refl t = ground arith

consume_other :
    (t u : FolioType) (db : FolioDb)
    → same_type u t ≡ false
    → (after_consume db (consume_next_folio u db)).1.leases t ≡ db.leases t
unfolding Consumed
consume_other t u db other = elim (Fallible-cases (consume_next_folio u db)) [
  | inr (e, refused) ↦ rw refused refl
  | inl ((n, db'), done) ↦
      let (l, found, open_lease, more, next, most, e) = consume_next_folio-Consumed u db done in
      rw (done, e, other) refl
]

revoke_advances :
    (t u : FolioType) (db : FolioDb) → mark ((revoke_lease u db).leases t) ≡ mark (db.leases t)
unfolding revoke_lease
revoke_advances t u db = elim (Option-cases (db.leases u)) [
  | inl missing ↦ rw missing refl
  | inr (l, found) ↦ elim (Bool-cases (same_type u t)) [
    | inl same ↦ rw (found, same) (rw (← same_type→eq u t same) (rw found refl))
    | inr other ↦ rw (found, other) refl
  ]
]

run_folio-Advances :
    (t : FolioType) (k : FolioCommand) (db : FolioDb)
    → Advances (db.leases t) (issue_of t k db) ((run_folio k db).1.leases t)
unfolding run_folio
run_folio-Advances t (grant input) db = grant-Advances t input db
run_folio-Advances t (consume u) db = elim (Bool-cases (same_type u t)) [
  | inl same ↦ rw same (rw (same_type→eq u t same) (consume-Advances t db))
  | inr other ↦ rw other (rw (consume_other t u db other) (lex_le_refl (mark (db.leases t))))
]
run_folio-Advances t (revoke u) db = rw (revoke_advances t u db) (lex_le_refl (mark (db.leases t)))

issued_by-IncreasingFrom :
    (lease lease' : Option LocalFolioLease) (o : Option ℕ) (rest : List (ℕ × ℕ))
    → Advances lease o lease'
    → IncreasingFrom (mark lease') rest
    → IncreasingFrom (mark lease) (issued_by lease o rest)
issued_by-IncreasingFrom lease lease' none rest le h =
    IncreasingFrom-lex_le (mark lease) (mark lease') rest le h
issued_by-IncreasingFrom lease lease' (some n) rest (lt, e) h = (lt, rw e at h)

-- Whatever leases are granted, consumed and revoked, the folios of a type that a host hands out
-- increase strictly, by the epoch first, and all are above what its lease had used up: no folio of an
-- epoch is handed out twice.
pub issued-IncreasingFrom :
    (t : FolioType) (ks : List FolioCommand) (db : FolioDb)
    → IncreasingFrom (mark (db.leases t)) (issued t ks db)
unfolding issued
issued-IncreasingFrom t [] db = tt
issued-IncreasingFrom t (k ∷ ks) db =
    issued_by-IncreasingFrom (db.leases t) ((run_folio k db).1.leases t) (issue_of t k db)
      (issued t ks (run_folio k db).1) (run_folio-Advances t k db)
      (issued-IncreasingFrom t ks (run_folio k db).1)
