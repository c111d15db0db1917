-- ===== src/Kds/Service/Proofs/Sequence.antt =====
-- The numbers that packages/pos/src/kds-service.ts gives to the tickets of a station.
use tridentpos.Prelude.{
  ℕ, ◌+◌, ◌-◌, ◌≤◌, ◌<◌, ◌≡◌, refl, ap, sym, subst, ◌∙◌, arith, Bool, true, false, none, some, List,
  [], ◌∷◌, map, ltb, ◌==◌, if◌then◌else◌, keep_if, Bool-cases, inl, inr,
}
use tridentpos.Prelude.Fallible.{ok}
use tridentpos.Pos.Table.{find_row, put_row, insert_ordered, order_rows, order_rows_onto}
use tridentpos.Kds.{KdsTicket, KdsTicketRow, KdsTicketStatus, is_entregado}
use tridentpos.Kds.Repository.{
  KdsDb, ticket_id, get_row, map_ticket, save_ticket, stored_ticket_row, is_active_at,
  list_active_tickets_by_estacion,
}
use tridentpos.Kds.Service.{Kds, emit, max_sequence, new_ticket}
use tridentpos.Kds.Service.Proofs.{
  KdsCommand, enviar, iniciar, confirmar, run_kds, Saved, Became, iniciar-Became, confirmar-Became,
  Sent, enviar-Sent, get_ticket_by_id_row,
}

-- A later row of the same station has a greater number.
abbrev pub below : KdsTicketRow → KdsTicketRow → Bool
below r q =
    if q.kds_estacion_id == r.kds_estacion_id
    then ltb r.aggregate_sequence_number q.aggregate_sequence_number
    else true

abbrev pub BelowAll : KdsTicketRow → List KdsTicketRow → Type 0
BelowAll r [] = Unit
BelowAll r (q ∷ rows) = (below r q ≡ true) × BelowAll r rows

-- No ticket is delivered, and at every station the numbers increase in the order of the table, which is
-- the order of sending.
abbrev pub IsNumbered : List KdsTicketRow → Type 0
IsNumbered [] = Unit
IsNumbered (r ∷ rows) = (is_entregado r.status ≡ false) × BelowAll r rows × IsNumbered rows

abbrev later_of : ℕ → ℕ → ℕ
later_of m n = if ltb m n then n else m

module _ (db : KdsDb) where
  abbrev seq : KdsTicketRow → ℕ
  seq t = t.aggregate_sequence_number

  abbrev top : ℕ → List KdsTicketRow → ℕ
  top m rows = max_sequence m (map (map_ticket db) rows)

  top-insert_ordered :
      (m : ℕ) (r : KdsTicketRow) (rows : List KdsTicketRow)
      → top m (insert_ordered seq r rows) ≡ top (later_of m r.aggregate_sequence_number) rows
  unfolding insert_ordered max_sequence map_ticket
  top-insert_ordered m r [] = refl
  top-insert_ordered m r (q ∷ rows) =
      elim (Bool-cases (ltb r.aggregate_sequence_number q.aggregate_sequence_number)) [
        | inl first ↦ rw first refl
        | inr later ↦ rw later (
            top-insert_ordered (later_of m q.aggregate_sequence_number) r rows
            ∙ ap (λ k. top k rows) (ground arith))
      ]

  top-later_of :
      (m n : ℕ) (rows : List KdsTicketRow) → top (later_of m n) rows ≡ later_of (top m rows) n
  unfolding max_sequence map_ticket
  top-later_of m n [] = refl
  top-later_of m n (q ∷ rows) =
      let k = q.aggregate_sequence_number in
      let swap : later_of (later_of m n) k ≡ later_of (later_of m k) n = ground arith in
      ap (λ j. top j rows) swap ∙ top-later_of (later_of m k) n rows

  top-order_rows_onto :
      (m : ℕ) (done rows : List KdsTicketRow)
      → top m (order_rows_onto seq done rows) ≡ top (top m done) rows
  unfolding order_rows_onto max_sequence map_ticket
  top-order_rows_onto m done [] = refl
  top-order_rows_onto m done (r ∷ rows) =
      top-order_rows_onto m (insert_ordered seq r done) rows
      ∙ ap (λ k. top k rows)
          (top-insert_ordered m r done ∙ top-later_of m r.aggregate_sequence_number done)

  top-ge : (m : ℕ) (rows : List KdsTicketRow) → m ≤ top m rows
  unfolding max_sequence map_ticket
  top-ge m [] = omega arith
  top-ge m (r ∷ rows) = ground (arith, top-ge (later_of m r.aggregate_sequence_number) rows)

-- A row of this station has a number up to n.
abbrev capped : ℕ → ℕ → KdsTicketRow → Bool
capped estacion n r =
    if r.kds_estacion_id == estacion then ltb r.aggregate_sequence_number (n + 1) else true

abbrev AllCapped : ℕ → ℕ → List KdsTicketRow → Type 0
AllCapped estacion n [] = Unit
AllCapped estacion n (r ∷ rows) = (capped estacion n r ≡ true) × AllCapped estacion n rows

IsNumbered-AllCapped :
    (db : KdsDb) (estacion m : ℕ) (rows : List KdsTicketRow)
    → IsNumbered rows
    → AllCapped estacion
        (max_sequence m (map (map_ticket db) (keep_if (is_active_at estacion) rows)))
        rows
unfolding max_sequence map_ticket
IsNumbered-AllCapped db estacion m [] h = tt
IsNumbered-AllCapped db estacion m (r ∷ rows) h =
    elim (Bool-cases (r.kds_estacion_id == estacion)) [
      | inr other ↦
          let left_out : keep_if (is_active_at estacion) (r ∷ rows)
              ≡ keep_if (is_active_at estacion) rows =
            rw other refl in
          subst (λ ks. AllCapped estacion (max_sequence m (map (map_ticket db) ks)) (r ∷ rows))
            (sym left_out) (ground (arith, other), IsNumbered-AllCapped db estacion m rows h.2)
      | inl here ↦
          let n = later_of m r.aggregate_sequence_number in
          let kept = keep_if (is_active_at estacion) rows in
          let taken : keep_if (is_active_at estacion) (r ∷ rows) ≡ r ∷ kept = rw (here, h.0) refl in
          subst (λ ks. AllCapped estacion (max_sequence m (map (map_ticket db) ks)) (r ∷ rows))
            (sym taken)
            (ground (arith, here, top-ge db n kept), IsNumbered-AllCapped db estacion n rows h.2)
    ]

-- The number of a new ticket is above those of all tickets of its station.
next_sequence :
    (db : KdsDb) (estacion : ℕ)
    → IsNumbered db.tickets
    → AllCapped estacion (max_sequence 0 (list_active_tickets_by_estacion estacion db)) db.tickets
unfolding list_active_tickets_by_estacion order_rows max_sequence
next_sequence db estacion h =
    let kept = keep_if (is_active_at estacion) db.tickets in
    rw (top-order_rows_onto db 0 [] kept) (IsNumbered-AllCapped db estacion 0 db.tickets h)

BelowAll-put_row :
    (r t : KdsTicketRow) (rows : List KdsTicketRow)
    → BelowAll r rows
    → below r t ≡ true
    → BelowAll r (put_row ticket_id t rows)
unfolding put_row
BelowAll-put_row r t [] h new = (new, tt)
BelowAll-put_row r t (q ∷ rows) h new = elim (Bool-cases (q.id == t.id)) [
  | inl same ↦ rw same (new, h.1)
  | inr other ↦ rw other (h.0, BelowAll-put_row r t rows h.1 new)
]

-- A new row at the end.
IsNumbered-append :
    (t : KdsTicketRow) (rows : List KdsTicketRow)
    → find_row ticket_id t.id rows ≡ none
    → is_entregado t.status ≡ false
    → AllCapped t.kds_estacion_id (t.aggregate_sequence_number - 1) rows
    → 0 < t.aggregate_sequence_number
    → IsNumbered rows
    → IsNumbered (put_row ticket_id t rows)
unfolding put_row find_row
IsNumbered-append t [] new active cap positive h = (active, tt, tt)
IsNumbered-append t (r ∷ rows) new active cap positive h = elim (Bool-cases (r.id == t.id)) [
  | inl same ↦ absurd (ground (arith, same))
  | inr other ↦ rw other (
    h.0,
    BelowAll-put_row r t rows h.1 (ground (arith, cap.0)),
    IsNumbered-append t rows (ground (arith, other)) active cap.1 positive h.2,
  )
]

below_same :
    (t old : KdsTicketRow) (rows : List KdsTicketRow)
    → t.kds_estacion_id ≡ old.kds_estacion_id
    → t.aggregate_sequence_number ≡ old.aggregate_sequence_number
    → BelowAll old rows
    → BelowAll t rows
below_same t old [] station number h = tt
below_same t old (q ∷ rows) station number h =
    (ground (arith, h.0), below_same t old rows station number h.1)

below_found :
    (r t : KdsTicketRow) (rows : List KdsTicketRow) {old : KdsTicketRow}
    → find_row ticket_id t.id rows ≡ some old
    → t.kds_estacion_id ≡ old.kds_estacion_id
    → t.aggregate_sequence_number ≡ old.aggregate_sequence_number
    → BelowAll r rows
    → below r t ≡ true
unfolding find_row
below_found r t [] found station number h = absurd (cc)
below_found r t (q ∷ rows) {old} found station number h = elim (Bool-cases (q.id == t.id)) [
  | inl same ↦ ground (arith, same, h.0)
  | inr other ↦ below_found r t rows {old = old} (ground (arith, other)) station number h.1
]

-- A row in the place of the one with its identifier, of the same station and number.
IsNumbered-replace :
    (t : KdsTicketRow) (rows : List KdsTicketRow) {old : KdsTicketRow}
    → find_row ticket_id t.id rows ≡ some old
    → is_entregado t.status ≡ false
    → t.kds_estacion_id ≡ old.kds_estacion_id
    → t.aggregate_sequence_number ≡ old.aggregate_sequence_number
    → IsNumbered rows
    → IsNumbered (put_row ticket_id t rows)
unfolding put_row find_row
IsNumbered-replace t [] found active station number h = absurd (cc)
IsNumbered-replace t (r ∷ rows) {old} found active station number h =
    elim (Bool-cases (r.id == t.id)) [
      | inl same ↦
          let e : r ≡ old = ground (arith, same) in
          rw same (active, below_same t old rows station number (rw e at h.1), h.2)
      | inr other ↦
          let later : find_row ticket_id t.id rows ≡ some old = ground (arith, other) in
          rw other (
            h.0,
            BelowAll-put_row r t rows h.1 (below_found r t rows later station number h.1),
            IsNumbered-replace t rows later active station number h.2,
          )
    ]

stored_numbers :
    (row : KdsTicketRow) (old : KdsTicketRow)
    → ((stored_ticket_row row (some old)).kds_estacion_id ≡ old.kds_estacion_id)
      × ((stored_ticket_row row (some old)).aggregate_sequence_number
          ≡ old.aggregate_sequence_number)
      × ((stored_ticket_row row (some old)).status ≡ row.status)
      × ((stored_ticket_row row (some old)).id ≡ row.id)
unfolding stored_ticket_row
stored_numbers row old = (refl, refl, refl, refl)

emit_tickets :
    (event : tridentpos.Kds.KdsDomainEvent) (db : KdsDb) → (emit event db).tickets ≡ db.tickets
unfolding emit
emit_tickets event db = ground arith

tickets_after_save :
    (t : KdsTicket) (db db' : KdsDb)
    → Saved db t db'
    → db'.tickets ≡ put_row ticket_id (stored_ticket_row t.row (get_row t.id db)) db.tickets
unfolding Saved save_ticket
tickets_after_save t db db' (event, e) =
    ap (λ d. d.tickets) e ∙ emit_tickets event (save_ticket t db)

Became-IsNumbered :
    {from to : KdsTicketStatus} (id : ℕ) (db : KdsDb) {t : KdsTicket} {db' : KdsDb}
    → is_entregado to ≡ false
    → Became from to id db t db'
    → IsNumbered db.tickets
    → IsNumbered db'.tickets
unfolding get_row
Became-IsNumbered id db {t} {db'} active b h =
    let (row, same_id) = get_ticket_by_id_row id db b.there in
    let found : find_row ticket_id t.id db.tickets ≡ some b.old.row =
      ap (λ k. find_row ticket_id k db.tickets) (b.same ∙ same_id) ∙ row in
    let e : db'.tickets ≡ put_row ticket_id (stored_ticket_row t.row (some b.old.row)) db.tickets =
      tickets_after_save t db db' b.saved
      ∙ ap (λ o. put_row ticket_id (stored_ticket_row t.row o) db.tickets) found in
    let (station, number, status, same) = stored_numbers t.row b.old.row in
    rw e (
      IsNumbered-replace (stored_ticket_row t.row (some b.old.row)) db.tickets
        (ap (λ k. find_row ticket_id k db.tickets) same ∙ found)
        (ap is_entregado (status ∙ b.is) ∙ active) station number h)

Sent-IsNumbered :
    (input : tridentpos.Kds.Service.EnviarComandaInput) (now : ℕ) (db : KdsDb) {t : KdsTicket}
    {db' : KdsDb}
    → Sent input now db t db'
    → IsNumbered db.tickets
    → IsNumbered db'.tickets
unfolding get_row stored_ticket_row
Sent-IsNumbered input now db {t} {db'} s h =
    let n = max_sequence 0 (list_active_tickets_by_estacion input.kds_estacion_id db) in
    let row = (new_ticket input (n + 1) now s.partidas).row in
    let same : t.row ≡ row = ap (λ u. u.row) s.ticket in
    let fresh : get_row t.id db ≡ none = ap (λ u. get_row u.id db) s.ticket ∙ s.new in
    let e : db'.tickets ≡ put_row ticket_id row db.tickets =
      tickets_after_save t db db' s.saved
      ∙ ap (λ o. put_row ticket_id (stored_ticket_row t.row o) db.tickets) fresh
      ∙ ap (λ r. put_row ticket_id r db.tickets) same in
    let cap : n ≡ n + 1 - 1 = omega arith in
    let capped_rows : AllCapped input.kds_estacion_id (n + 1 - 1) db.tickets =
      subst (λ k. AllCapped input.kds_estacion_id k db.tickets) cap
        (next_sequence db input.kds_estacion_id h) in
    rw e (IsNumbered-append row db.tickets s.new refl capped_rows (omega arith) h)

-- Every command that succeeds keeps the tickets numbered: those of one station have numbers that
-- increase in the order of sending, and no two have the same.
pub run_kds-IsNumbered :
    (k : KdsCommand) (now : ℕ) (db : KdsDb) {t : KdsTicket} {db' : KdsDb}
    → IsNumbered db.tickets
    → run_kds k now db ≡ ok (t, db')
    → IsNumbered db'.tickets
unfolding run_kds
run_kds-IsNumbered (enviar input) now db h done =
    Sent-IsNumbered input now db (enviar-Sent input now db done) h
run_kds-IsNumbered (iniciar t e) now db h done =
    Became-IsNumbered t db refl (iniciar-Became t e now db done) h
run_kds-IsNumbered (confirmar t e m) now db h done =
    Became-IsNumbered t db refl (confirmar-Became t e m now db done) h
