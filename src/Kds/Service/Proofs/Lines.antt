-- ===== src/Kds/Service/Proofs/Lines.antt =====
-- What packages/pos/src/kds-service.ts stores of the lines of a comanda.
use tridentpos.Prelude.{
  ℕ, ◌+◌, ◌≡◌, refl, ap, sym, ◌∙◌, arith, pos, true, false, leb_ℤ, Option-cases, inl, inr,
  ℕ_discrete, ◌==◌, none, some, List, [], ◌∷◌, map, ◌⊎◌,
}
use tridentpos.Prelude.Fallible.{ok}
use tridentpos.Pos.Table.{find_row, put_row, find_row-put_row, find_row_key}
use tridentpos.Kds.{
  KdsEstacion, KdsTicket, KdsTicketPartida, KdsTicketPartidaStatus, KdsDomainEvent, comanda_enviada,
  is_activa,
}
use tridentpos.Kds.Repository.{
  KdsDb, get_ticket_by_id, get_estacion_by_id, list_active_tickets_by_estacion, save_ticket,
  partida_id, persist_partidas, merge_partida,
}
use tridentpos.Kds.Service.{
  EnviarComandaInput, EnviarComandaItemInput, enviar_comanda_a_cocina, max_sequence, new_partida,
  new_partidas, new_ticket, emit, is_empty,
}

-- Every line asks for more than nothing.
abbrev pub AllPositive : List EnviarComandaItemInput → Type 0
AllPositive [] = Unit
AllPositive (i ∷ items) = (leb_ℤ i.quantity (pos 0) ≡ false) × AllPositive items

abbrev pub Within : {A : Type 0} → A → List A → Type 0
Within a [] = ⊥
Within a (b ∷ bs) = (a ≡ b) ⊎ Within a bs

abbrev pub back_to_pending : KdsTicketPartida → KdsTicketPartida
back_to_pending old = record old { status = KdsTicketPartidaStatus.pendiente }

new_partidas_ok :
    (ticket now : ℕ) (items : List EnviarComandaItemInput)
    → AllPositive items
    → new_partidas ticket now items ≡ ok (map (new_partida ticket now) items)
unfolding new_partidas
new_partidas_ok ticket now [] h = refl
new_partidas_ok ticket now (i ∷ items) (positive, h) =
    rw (positive, new_partidas_ok ticket now items h) refl

Within-map :
    {A B : Type 0} (f : A → B) (x : A) (xs : List A) → Within x xs → Within (f x) (map f xs)
Within-map f x [] h = h
Within-map f x (y ∷ ys) (inl same) = inl (ap f same)
Within-map f x (y ∷ ys) (inr h) = inr (Within-map f x ys h)

-- The table of lines once one line of a ticket is saved.
module _ (ticket from now : ℕ) where
  abbrev merged : EnviarComandaItemInput → List KdsTicketPartida → KdsTicketPartida
  merged i table = merge_partida ticket (new_partida from now i) (find_row partida_id i.id table)

  merged_id :
      (i : EnviarComandaItemInput) (table : List KdsTicketPartida) → (merged i table).id ≡ i.id
  unfolding merge_partida
  merged_id i table = elim (Option-cases (find_row partida_id i.id table)) [
    | inl missing ↦ rw missing refl
    | inr (old, found) ↦ rw found (find_row_key partida_id i.id table found)
  ]

  abbrev after_line : EnviarComandaItemInput → List KdsTicketPartida → List KdsTicketPartida
  after_line i table = put_row partida_id (merged i table) table

  line_hit :
      (i : EnviarComandaItemInput) (k : ℕ) (table : List KdsTicketPartida) {old : KdsTicketPartida}
      → i.id ≡ k
      → find_row partida_id k table ≡ some old
      → find_row partida_id k (after_line i table) ≡ some (back_to_pending old)
  unfolding merge_partida
  line_hit i k table {old} same found =
      let named = merged_id i table in
      let there = ap (λ j. find_row partida_id j table) same ∙ found in
      let e : merged i table ≡ back_to_pending old = rw there refl in
      find_row-put_row partida_id k (merged i table) table ∙ ground (arith, named, same) ∙ ap some e

  line_miss :
      (i : EnviarComandaItemInput) (k : ℕ) (table : List KdsTicketPartida) {old : KdsTicketPartida}
      → (i.id == k) ≡ false
      → find_row partida_id k table ≡ some old
      → find_row partida_id k (after_line i table) ≡ some old
  line_miss i k table other found =
      let named = merged_id i table in
      find_row-put_row partida_id k (merged i table) table ∙ ground (arith, named, other, found)

  -- A line that is pending stays as it is.
  lines_keep :
      (items : List EnviarComandaItemInput) (k : ℕ) (table : List KdsTicketPartida)
      (old : KdsTicketPartida)
      → find_row partida_id k table ≡ some (back_to_pending old)
      → find_row partida_id k (persist_partidas ticket (map (new_partida from now) items) table)
        ≡ some (back_to_pending old)
  unfolding persist_partidas
  lines_keep [] k table old found = found
  lines_keep (i ∷ items) k table old found = elim (ℕ_discrete i.id k) [
    | yes same ↦ lines_keep items k (after_line i table) old (line_hit i k table same found)
    | no other ↦
        lines_keep items k (after_line i table) old
          (line_miss i k table (ground (arith, other)) found)
  ]

  lines_hit :
      (items : List EnviarComandaItemInput) (item : EnviarComandaItemInput)
      (table : List KdsTicketPartida) {old : KdsTicketPartida}
      → Within item items
      → find_row partida_id item.id table ≡ some old
      → find_row partida_id item.id
          (persist_partidas ticket (map (new_partida from now) items) table)
        ≡ some (back_to_pending old)
  unfolding persist_partidas
  lines_hit [] item table h found = absurd h
  lines_hit (i ∷ items) item table {old} (inl here) found =
      let same : i.id ≡ item.id = ap (λ j. j.id) (sym here) in
      lines_keep items item.id (after_line i table) old (line_hit i item.id table same found)
  lines_hit (i ∷ items) item table {old} (inr h) found = elim (ℕ_discrete i.id item.id) [
    | yes same ↦
        lines_keep items item.id (after_line i table) old (line_hit i item.id table same found)
    | no other ↦
        lines_hit items item (after_line i table) {old = old} h
          (line_miss i item.id table (ground (arith, other)) found)
  ]

emit_partidas : (event : KdsDomainEvent) (db : KdsDb) → (emit event db).partidas ≡ db.partidas
unfolding emit
emit_partidas event db = ground arith

abbrev sent_ticket : EnviarComandaInput → ℕ → KdsDb → KdsTicket
sent_ticket input now db =
    new_ticket input (max_sequence 0 (list_active_tickets_by_estacion input.kds_estacion_id db) + 1)
      now (map (new_partida input.id now) input.items)

abbrev sent_db : EnviarComandaInput → ℕ → KdsDb → KdsDb
sent_db input now db =
    let t = sent_ticket input now db in
    emit (comanda_enviada t.kds_estacion_id t now) (save_ticket t db)

not_empty :
    (item : EnviarComandaItemInput) (items : List EnviarComandaItemInput)
    → Within item items
    → is_empty items ≡ false
not_empty item [] h = absurd h
not_empty item (i ∷ items) h = refl

-- A comanda of a new ticket for an active station, with lines that all ask for more than nothing, is
-- accepted.
enviar_accepted :
    (input : EnviarComandaInput) (item : EnviarComandaItemInput) (now : ℕ) (db : KdsDb)
    {estacion : KdsEstacion}
    → get_ticket_by_id input.id db ≡ none
    → get_estacion_by_id input.kds_estacion_id db ≡ some estacion
    → is_activa estacion.status ≡ true
    → AllPositive input.items
    → Within item input.items
    → enviar_comanda_a_cocina input now db ≡ ok (sent_ticket input now db, sent_db input now db)
unfolding enviar_comanda_a_cocina
enviar_accepted input item now db new station active positive ordered =
    let lines = new_partidas_ok input.id now input.items positive in
    let some_items = not_empty item input.items ordered in
    rw (new, station, active, some_items, lines) refl

-- A comanda of a new ticket for an active station, whose lines all ask for more than nothing, is
-- accepted although the identifier of one of its lines is stored already, and is answered with that
-- line. The line is not stored: the one that was stored keeps its ticket, its product and its quantity,
-- and only goes back to pending.
pub enviar_comanda_a_cocina_reuses_line :
    (input : EnviarComandaInput) (item : EnviarComandaItemInput) (now : ℕ) (db : KdsDb)
    {estacion : KdsEstacion} {old : KdsTicketPartida}
    → get_ticket_by_id input.id db ≡ none
    → get_estacion_by_id input.kds_estacion_id db ≡ some estacion
    → is_activa estacion.status ≡ true
    → AllPositive input.items
    → Within item input.items
    → find_row partida_id item.id db.partidas ≡ some old
    → (t : KdsTicket) × (db' : KdsDb) × (enviar_comanda_a_cocina input now db ≡ ok (t, db'))
      × Within (new_partida input.id now item) t.partidas
      × (find_row partida_id item.id db'.partidas
          ≡ some (record old { status = KdsTicketPartidaStatus.pendiente }))
unfolding save_ticket
enviar_comanda_a_cocina_reuses_line input item now db {old = old} new station active positive
      ordered found =
    let t = sent_ticket input now db in
    (
      t,
      sent_db input now db,
      enviar_accepted input item now db new station active positive ordered,
      Within-map (new_partida input.id now) item input.items ordered,
      ap (find_row partida_id item.id)
            (emit_partidas (comanda_enviada t.kds_estacion_id t now) (save_ticket t db))
          ∙ lines_hit input.id input.id now input.items item db.partidas ordered found,
    )
