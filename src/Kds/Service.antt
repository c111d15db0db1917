-- ===== src/Kds/Service.antt =====
-- `KdsDomainService` of packages/pos/src/kds-service.ts. A method writes by one save at its end and
-- throws before it, so an error leaves the tables as they were.
pub mod Proofs
use tridentpos.Prelude.{
  ℕ, ◌+◌, ℤ, pos, Bool, true, false, not, Option, none, some, List, [], ◌∷◌, ◌++◌, is_some, ltb,
  leb_ℤ, ltb_ℤ, ◌==◌, if◌then◌else◌, max,
}
use tridentpos.Prelude.Fallible.{Fallible, ok, err, ◌>>=◌, ◌>>◌, raise_if, or_raise}
use tridentpos.Kds.{
  KdsTicket, KdsTicketRow, KdsTicketPartida, KdsTicketStatus, KdsTicketPartidaStatus, UrgencyLevel,
  normal, Modificador, pending, KdsDomainEvent, comanda_enviada, orden_iniciada, orden_confirmada,
  KdsError, duplicate_kds_ticket, kds_estacion_not_found, kds_estacion_inactive, empty_comanda,
  invalid_quantity, kds_ticket_not_found, kds_estacion_mismatch, invalid_kds_ticket_status,
  invalid_preparation_time, invalid_recall_window, is_pendiente, is_en_preparacion, is_activa,
}
use tridentpos.Kds.Repository.{
  KdsDb, get_ticket_by_id, get_estacion_by_id, list_active_tickets_by_estacion, save_ticket,
  get_ticket_for_recall,
}

abbrev pub Kds : Type 0 → Type 0
Kds = Fallible KdsError

pub record EnviarComandaItemInput : Type 0 where
  pub id : ℕ
  pub product_id : ℕ
  pub product_name_snapshot : ℕ
  pub quantity : ℤ
  pub comments : Option ℕ
  pub modifiers : Option (List Modificador)

pub record EnviarComandaInput : Type 0 where
  pub id : ℕ
  pub cuenta_id : ℕ
  pub mesa_reference : ℕ
  pub kds_estacion_id : ℕ
  pub urgency_level : Option UrgencyLevel
  pub items : List EnviarComandaItemInput

abbrev pub is_empty : List EnviarComandaItemInput → Bool
is_empty [] = true
is_empty (_ ∷ _) = false

-- `previousActive.reduce((max, t) => Math.max(max, t.aggregateSequenceNumber), 0)`
unfoldable pub max_sequence : ℕ → List KdsTicket → ℕ
max_sequence m [] = m
max_sequence m (t ∷ ts) =
    max_sequence (if ltb m t.aggregate_sequence_number then t.aggregate_sequence_number else m) ts

abbrev pub new_partida : ℕ → ℕ → EnviarComandaItemInput → KdsTicketPartida
new_partida ticket now item = record {
  id = item.id;
  kds_ticket_id = ticket;
  product_id = item.product_id;
  product_name_snapshot = item.product_name_snapshot;
  quantity = item.quantity;
  comments = item.comments;
  modifiers = elim item.modifiers [ none ↦ [] | some ms ↦ ms ];
  status = KdsTicketPartidaStatus.pendiente;
  created_at = now;
}

unfoldable pub new_partidas : ℕ → ℕ → List EnviarComandaItemInput → Kds (List KdsTicketPartida)
new_partidas ticket now [] = ok []
new_partidas ticket now (item ∷ items) = do
  raise_if (leb_ℤ item.quantity (pos 0)) invalid_quantity
  rest ← new_partidas ticket now items
  ok (new_partida ticket now item ∷ rest)

abbrev pub new_ticket : EnviarComandaInput → ℕ → ℕ → List KdsTicketPartida → KdsTicket
new_ticket input sequence now partidas = record {
  row = record {
    id = input.id;
    cuenta_id = input.cuenta_id;
    mesa_reference = input.mesa_reference;
    kds_estacion_id = input.kds_estacion_id;
    urgency_level = elim input.urgency_level [ none ↦ normal | some u ↦ u ];
    status = KdsTicketStatus.pendiente;
    print_status = pending;
    print_attempts = 0;
    printer_id = none;
    last_print_error = none;
    aggregate_sequence_number = sequence;
    created_at = now;
    updated_at = now;
    completed_at = none;
    preparation_time_minutes = none;
  };
  partidas = partidas;
}

-- The publisher, if there is one, is given the event after the save.
unfoldable pub emit : KdsDomainEvent → KdsDb → KdsDb
emit event db =
    if db.has_publisher then record db { published = db.published ++ (event ∷ []) } else db

unfoldable pub enviar_comanda_a_cocina : EnviarComandaInput → ℕ → KdsDb → Kds (KdsTicket × KdsDb)
unfolding max_sequence emit
enviar_comanda_a_cocina input now db = do
  raise_if (is_some (get_ticket_by_id input.id db)) duplicate_kds_ticket
  estacion ← or_raise (get_estacion_by_id input.kds_estacion_id db) kds_estacion_not_found
  raise_if (not (is_activa estacion.status)) kds_estacion_inactive
  raise_if (is_empty input.items) empty_comanda
  let next = max_sequence 0 (list_active_tickets_by_estacion input.kds_estacion_id db) + 1
  partidas ← new_partidas input.id now input.items
  let ticket = new_ticket input next now partidas
  ok (ticket, emit (comanda_enviada ticket.kds_estacion_id ticket now) (save_ticket ticket db))

unfoldable pub require_ticket_at_estacion : ℕ → ℕ → KdsDb → Kds KdsTicket
require_ticket_at_estacion id estacion db = do
  ticket ← or_raise (get_ticket_by_id id db) kds_ticket_not_found
  raise_if (not (ticket.kds_estacion_id == estacion)) kds_estacion_mismatch
  ok ticket

unfoldable pub set_status : KdsTicketPartidaStatus → List KdsTicketPartida → List KdsTicketPartida
set_status s [] = []
set_status s (p ∷ ps) = record p { status = s } ∷ set_status s ps

abbrev pub started_ticket : KdsTicket → ℕ → KdsTicket
started_ticket ticket now = record {
  row = record ticket.row { status = KdsTicketStatus.en_preparacion; updated_at = now };
  partidas = set_status KdsTicketPartidaStatus.en_preparacion ticket.partidas;
}

unfoldable pub iniciar_preparacion_orden : ℕ → ℕ → ℕ → KdsDb → Kds (KdsTicket × KdsDb)
unfolding emit
iniciar_preparacion_orden id estacion now db = do
  ticket ← require_ticket_at_estacion id estacion db
  raise_if (not (is_pendiente ticket.status)) invalid_kds_ticket_status
  let updated = started_ticket ticket now
  ok (updated, emit (orden_iniciada updated.kds_estacion_id updated now) (save_ticket updated db))

abbrev pub to_ℕ : ℤ → ℕ
to_ℕ (ℤ.pos n) = n
to_ℕ (ℤ.negsuc n) = 0

abbrev pub finished_ticket : KdsTicket → ℕ → ℕ → KdsTicket
finished_ticket ticket tiempo now = record {
  row = record ticket.row {
    status = KdsTicketStatus.listo;
    completed_at = some now;
    updated_at = now;
    preparation_time_minutes = some tiempo;
  };
  partidas = set_status KdsTicketPartidaStatus.listo ticket.partidas;
}

-- The minutes are an integer here, which may be negative.
unfoldable pub confirmar_orden_surtida : ℕ → ℕ → ℤ → ℕ → KdsDb → Kds (KdsTicket × KdsDb)
unfolding emit
confirmar_orden_surtida id estacion tiempo now db = do
  ticket ← require_ticket_at_estacion id estacion db
  raise_if (not (is_en_preparacion ticket.status)) invalid_kds_ticket_status
  raise_if (ltb_ℤ tiempo (pos 0)) invalid_preparation_time
  let updated = finished_ticket ticket (to_ℕ tiempo) now
  ok (
    updated,
    emit (orden_confirmada updated.kds_estacion_id updated.id now (to_ℕ tiempo) updated now)
        (save_ticket updated db),
  )

unfoldable pub consultar_ordenes_activas : ℕ → KdsDb → Kds (List KdsTicket)
consultar_ordenes_activas estacion db = do
  found ← or_raise (get_estacion_by_id estacion db) kds_estacion_not_found
  ok (list_active_tickets_by_estacion estacion db)

-- The window is a whole number of minutes, which may be negative.
unfoldable pub recuperar_orden_recall : ℕ → ℤ → ℕ → KdsDb → Kds (Option KdsTicket)
recuperar_orden_recall orden window now db = do
  raise_if (ltb_ℤ window (pos 0)) invalid_recall_window
  ok (get_ticket_for_recall orden (to_ℕ window) now db)
