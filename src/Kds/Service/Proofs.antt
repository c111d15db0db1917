-- ===== src/Kds/Service/Proofs.antt =====
-- The life of a kitchen ticket by packages/pos/src/kds-service.ts: its states, its number, its recall.
pub mod Sequence
pub mod Lines
pub mod Recall
use tridentpos.Prelude.{
  ℕ, ◌+◌, ◌-◌, ◌*◌, ◌≤◌, ◌<◌, ◌≡◌, ◌≢◌, refl, ap, sym, ◌∙◌, arith, ℤ, pos, Bool, true, false,
  Option, none, some, List, [], ◌∷◌, ◌++◌, ◌==◌, if◌then◌else◌, is_some, not, Option-cases, inl,
  inr, Bool-cases,
}
use tridentpos.Prelude.Fallible.{Fallible, ok, err, ◌>>=◌, raise_if, or_raise, >>=-eq-ok}
use tridentpos.Pos.Table.{find_row, put_row, find_row-put_row, find_row_key}
use tridentpos.Kds.{
  KdsTicket, KdsTicketRow, KdsTicketStatus, KdsError, KdsDomainEvent, KdsTicketPartida,
  comanda_enviada, orden_iniciada, orden_confirmada, duplicate_kds_ticket, kds_estacion_not_found,
  kds_estacion_inactive, empty_comanda, is_activa,
}
use tridentpos.Kds.Repository.{
  KdsDb, ticket_id, get_row, get_ticket_by_id, map_ticket, save_ticket, stored_ticket_row,
  get_estacion_by_id, list_active_tickets_by_estacion,
}
use tridentpos.Kds.Service.{
  Kds, EnviarComandaInput, enviar_comanda_a_cocina, iniciar_preparacion_orden,
  confirmar_orden_surtida, require_ticket_at_estacion, emit, started_ticket, finished_ticket, to_ℕ,
  new_ticket, new_partidas, max_sequence, is_empty,
}

-- The requests that change a ticket, each with the ticket that it names.
pub data KdsCommand : Type 0 where
  enviar : EnviarComandaInput → KdsCommand
  iniciar : (ticket estacion : ℕ) → KdsCommand
  confirmar : (ticket estacion : ℕ) (tiempo : ℤ) → KdsCommand

abbrev pub ticket_of : KdsCommand → ℕ
ticket_of (enviar input) = input.id
ticket_of (iniciar t e) = t
ticket_of (confirmar t e m) = t

unfoldable pub run_kds : KdsCommand → ℕ → KdsDb → Kds (KdsTicket × KdsDb)
run_kds (enviar input) now db = enviar_comanda_a_cocina input now db
run_kds (iniciar t e) now db = iniciar_preparacion_orden t e now db
run_kds (confirmar t e m) now db = confirmar_orden_surtida t e m now db

-- The state of a ticket, or that there is none.
unfoldable pub status_at : ℕ → KdsDb → Option KdsTicketStatus
status_at id db = elim (get_row id db) [ none ↦ none | some row ↦ some row.status ]

-- What a command may make of the state of its ticket.
pub data TicketStep : Option KdsTicketStatus → Option KdsTicketStatus → Type 0 where
  sent : TicketStep none (some KdsTicketStatus.pendiente)
  started : TicketStep (some KdsTicketStatus.pendiente) (some KdsTicketStatus.en_preparacion)
  finished : TicketStep (some KdsTicketStatus.en_preparacion) (some KdsTicketStatus.listo)

ruleset ticket_steps = (sent, started, finished)

stored_ticket_row_id :
    (row : KdsTicketRow) (old : Option KdsTicketRow) → (stored_ticket_row row old).id ≡ row.id
unfolding stored_ticket_row
stored_ticket_row_id row old = ground arith

get_row-save_ticket :
    (k : ℕ) (t : KdsTicket) (db : KdsDb)
    → get_row k (save_ticket t db)
      ≡ (if t.id == k then some (stored_ticket_row t.row (get_row t.id db)) else get_row k db)
unfolding get_row save_ticket
get_row-save_ticket k t db =
    find_row-put_row ticket_id k (stored_ticket_row t.row (find_row ticket_id t.id db.tickets))
      db.tickets
    ∙ ap
        (λ j.
          if j == k
          then some (stored_ticket_row t.row (find_row ticket_id t.id db.tickets))
          else find_row ticket_id k db.tickets)
        (stored_ticket_row_id t.row (find_row ticket_id t.id db.tickets))

get_row-emitted :
    (k : ℕ) (event : KdsDomainEvent) (db : KdsDb) → get_row k (emit event db) ≡ get_row k db
unfolding get_row emit
get_row-emitted k event db = elim (Bool-cases db.has_publisher) [
  | inl one ↦ rw one refl
  | inr none_given ↦ rw none_given refl
]

-- The row of a ticket after the save and the event of a command.
pub get_row-emit :
    (k : ℕ) (t : KdsTicket) (event : KdsDomainEvent) (db : KdsDb)
    → get_row k (emit event (save_ticket t db))
      ≡ (if t.id == k then some (stored_ticket_row t.row (get_row t.id db)) else get_row k db)
get_row-emit k t event db = get_row-emitted k event (save_ticket t db) ∙ get_row-save_ticket k t db

pub get_ticket_by_id_row :
    (k : ℕ) (db : KdsDb) {t : KdsTicket}
    → get_ticket_by_id k db ≡ some t
    → (get_row k db ≡ some t.row) × (t.id ≡ k)
unfolding get_ticket_by_id get_row map_ticket
get_ticket_by_id_row k db {t} found = elim (Option-cases (find_row ticket_id k db.tickets)) [
  | inl missing ↦ absurd (ground (arith, missing))
  | inr (row, there) ↦
      let id = find_row_key ticket_id k db.tickets there in
      (ground (arith, there), ground (arith, there, id))
]

-- A command that succeeds saves the ticket that it returns and publishes an event.
pub Saved : KdsDb → KdsTicket → KdsDb → Type 0
Saved db t db' = (event : KdsDomainEvent) × (db' ≡ emit event (save_ticket t db))

required :
    (id estacion : ℕ) (db : KdsDb) {t : KdsTicket}
    → require_ticket_at_estacion id estacion db ≡ ok t
    → get_ticket_by_id id db ≡ some t
unfolding require_ticket_at_estacion
required id estacion db h = ground arith

-- A command found a ticket in one state and saved it in another.
pub record Became (from to : KdsTicketStatus) (id : ℕ) (db : KdsDb) (t : KdsTicket) (db' : KdsDb)
    : Type 0 where
  pub old : KdsTicket
  pub there : get_ticket_by_id id db ≡ some old
  pub was : old.status ≡ from
  pub same : t.id ≡ old.id
  pub is : t.status ≡ to
  pub saved : Saved db t db'

pub iniciar-Became :
    (id estacion now : ℕ) (db : KdsDb) {t : KdsTicket} {db' : KdsDb}
    → iniciar_preparacion_orden id estacion now db ≡ ok (t, db')
    → Became KdsTicketStatus.pendiente KdsTicketStatus.en_preparacion id db t db'
unfolding iniciar_preparacion_orden Saved
iniciar-Became id estacion now db {t} done =
    let (old, there, rest) = >>=-eq-ok (require_ticket_at_estacion id estacion db) _ done in
    record {
      old = old;
      there = required id estacion db there;
      was = ground (arith, rest);
      same = ground (arith, rest);
      is = ground (arith, rest);
      saved = (orden_iniciada t.kds_estacion_id t now, ground (arith, rest));
    }

pub confirmar-Became :
    (id estacion : ℕ) (tiempo : ℤ) (now : ℕ) (db : KdsDb) {t : KdsTicket} {db' : KdsDb}
    → confirmar_orden_surtida id estacion tiempo now db ≡ ok (t, db')
    → Became KdsTicketStatus.en_preparacion KdsTicketStatus.listo id db t db'
unfolding confirmar_orden_surtida Saved
confirmar-Became id estacion tiempo now db {t} done =
    let (old, there, rest) = >>=-eq-ok (require_ticket_at_estacion id estacion db) _ done in
    record {
      old = old;
      there = required id estacion db there;
      was = ground (arith, rest);
      same = ground (arith, rest);
      is = ground (arith, rest);
      saved =
          (orden_confirmada t.kds_estacion_id t.id now (to_ℕ tiempo) t now, ground (arith, rest));
    }

-- A comanda that is accepted is of a new ticket, numbered above the active ones of its station.
pub record Sent (input : EnviarComandaInput) (now : ℕ) (db : KdsDb) (t : KdsTicket) (db' : KdsDb)
    : Type 0 where
  pub new : get_row input.id db ≡ none
  pub partidas : List KdsTicketPartida
  pub ticket :
      t
      ≡ new_ticket input
          (max_sequence 0 (list_active_tickets_by_estacion input.kds_estacion_id db) + 1)
          now
          partidas
  pub accepted : new_partidas input.id now input.items ≡ ok partidas
  pub saved : Saved db t db'

no_ticket : (id : ℕ) (db : KdsDb) → is_some (get_ticket_by_id id db) ≡ is_some (get_row id db)
unfolding get_ticket_by_id
no_ticket id db = ground arith

pub enviar-Sent :
    (input : EnviarComandaInput) (now : ℕ) (db : KdsDb) {t : KdsTicket} {db' : KdsDb}
    → enviar_comanda_a_cocina input now db ≡ ok (t, db')
    → Sent input now db t db'
unfolding enviar_comanda_a_cocina Saved
enviar-Sent input now db {t} done =
    let (a, fresh, rest1) =
      >>=-eq-ok (raise_if (is_some (get_ticket_by_id input.id db)) duplicate_kds_ticket) _ done in
    let (e, found, rest2) =
      >>=-eq-ok (or_raise (get_estacion_by_id input.kds_estacion_id db) kds_estacion_not_found) _
        rest1 in
    let (b, open_now, rest3) =
      >>=-eq-ok (raise_if (not (is_activa e.status)) kds_estacion_inactive) _ rest2 in
    let (c, some_items, rest4) =
      >>=-eq-ok (raise_if (is_empty input.items) empty_comanda) _ rest3 in
    let (ps, accepted, rest5) = >>=-eq-ok (new_partidas input.id now input.items) _ rest4 in
    record {
      new = ground (arith, fresh, no_ticket input.id db);
      partidas = ps;
      ticket = ground (arith, rest5);
      accepted = accepted;
      saved = (comanda_enviada t.kds_estacion_id t now, ground (arith, rest5));
    }

-- The row of a ticket after a command, and the rows of the others.
pub row_after_save :
    (k : ℕ) (t : KdsTicket) (db db' : KdsDb)
    → Saved db t db'
    → get_row k db'
      ≡ (if t.id == k then some (stored_ticket_row t.row (get_row t.id db)) else get_row k db)
unfolding Saved
row_after_save k t db db' (event, e) = ap (get_row k) e ∙ get_row-emit k t event db

stored_status :
    (row : KdsTicketRow) (old : Option KdsTicketRow)
    → (stored_ticket_row row old).status ≡ row.status
unfolding stored_ticket_row
stored_status row old = ground arith

status_after_save :
    (t : KdsTicket) (db db' : KdsDb) → Saved db t db' → status_at t.id db' ≡ some t.status
unfolding status_at
status_after_save t db db' saved =
    let e = row_after_save t.id t db db' saved in
    ground (arith, e, stored_status t.row (get_row t.id db))

found_status :
    (k : ℕ) (db : KdsDb) {t : KdsTicket}
    → get_ticket_by_id k db ≡ some t
    → status_at k db ≡ some t.status
unfolding status_at
found_status k db found = ground (arith, (get_ticket_by_id_row k db found).0)

became_step :
    {from to : KdsTicketStatus} (id : ℕ) (db : KdsDb) {t : KdsTicket} {db' : KdsDb}
    → Became from to id db t db'
    → TicketStep (some from) (some to)
    → TicketStep (status_at id db) (status_at id db')
became_step id db {t} {db'} b step =
    let id_of = (get_ticket_by_id_row id db b.there).1 in
    let before : status_at id db ≡ some b.old.status = found_status id db b.there in
    let after : status_at id db' ≡ some t.status =
      ap (λ k. status_at k db') (sym (b.same ∙ id_of)) ∙ status_after_save t db db' b.saved in
    rw (before, b.was, after, b.is) step

-- A command that succeeds sends its ticket as pending, starts a pending one, or finishes one that is in
-- preparation: no state is skipped and none is gone back to.
pub run_kds-TicketStep :
    (k : KdsCommand) (now : ℕ) (db : KdsDb) {t : KdsTicket} {db' : KdsDb}
    → run_kds k now db ≡ ok (t, db')
    → TicketStep (status_at (ticket_of k) db) (status_at (ticket_of k) db')
unfolding run_kds status_at
run_kds-TicketStep (enviar input) now db {t} {db'} done =
    let s = enviar-Sent input now db done in
    let id : t.id ≡ input.id = ap (λ u. u.id) s.ticket in
    let status : t.status ≡ KdsTicketStatus.pendiente = ap (λ u. u.status) s.ticket in
    let before : status_at input.id db ≡ none = ground (arith, s.new) in
    let after : status_at input.id db' ≡ some t.status =
      ap (λ k. status_at k db') (sym id) ∙ status_after_save t db db' s.saved in
    rw (before, after, status) sent
run_kds-TicketStep (iniciar t e) now db done =
    became_step t db (iniciar-Became t e now db done) started
run_kds-TicketStep (confirmar t e m) now db done =
    became_step t db (confirmar-Became t e m now db done) finished
