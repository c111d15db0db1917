-- ===== src/Kds/Repository.antt =====
-- `SqliteKdsRepository` of packages/pos-edge-runtime/src/kds-sqlite-repository.ts over the tables of
-- kds-schema.ts. References between the tables are not enforced here.
use tridentpos.Prelude.{
  ℕ, ◌-◌, ◌*◌, Bool, true, false, ◌&&◌, not, Option, none, some, List, [], ◌∷◌, map, keep_if, ltb,
  ◌==◌, if◌then◌else◌,
}
use tridentpos.Pos.Table.{find_row, put_row, order_rows}
use tridentpos.Kds.{
  KdsEstacion, KdsEstacionType, KdsEstacionStatus, activa, ImpresoraRed, PrinterStatus, unknown,
  KdsTicket, KdsTicketRow, KdsTicketPartida, PrintJobStatus, pending, queued, printing, failed,
  is_entregado, KdsDomainEvent,
}

-- The tables, whether a publisher of events is configured, and the events that it was given.
pub record KdsDb : Type 0 where
  pub estaciones : List KdsEstacion
  pub impresoras : List ImpresoraRed
  pub tickets : List KdsTicketRow
  pub partidas : List KdsTicketPartida
  pub has_publisher : Bool
  pub published : List KdsDomainEvent

abbrev pub estacion_id : KdsEstacion → ℕ
estacion_id e = e.id

abbrev pub printer_key : ImpresoraRed → ℕ
printer_key p = p.id

abbrev pub ticket_id : KdsTicketRow → ℕ
ticket_id t = t.id

abbrev pub partida_id : KdsTicketPartida → ℕ
partida_id p = p.id

unfoldable pub get_estacion_by_id : ℕ → KdsDb → Option KdsEstacion
get_estacion_by_id id db = find_row estacion_id id db.estaciones

unfoldable pub list_estaciones : KdsDb → List KdsEstacion
list_estaciones db = order_rows (λ e. e.name) db.estaciones

unfoldable pub get_printer_by_id : ℕ → KdsDb → Option ImpresoraRed
get_printer_by_id id db = find_row printer_key id db.impresoras

unfoldable pub list_printers : KdsDb → List ImpresoraRed
list_printers db = order_rows (λ p. p.name) db.impresoras

-- An insertion is refused where the identifier is taken, which is `none`.
unfoldable pub create_estacion :
    ℕ → ℕ → KdsEstacionType → Option KdsEstacionStatus → ℕ → KdsDb → Option (KdsEstacion × KdsDb)
create_estacion id name kind status now db =
    let e : KdsEstacion = record {
      id = id;
      name = name;
      station_type = kind;
      status = elim status [ none ↦ activa | some s ↦ s ];
      created_at = now;
    } in
    elim (get_estacion_by_id id db) [
      | none ↦ some (e, record db { estaciones = put_row estacion_id e db.estaciones })
      | some _ ↦ none
    ]

unfoldable pub create_printer :
    ℕ → ℕ → ℕ → Option ℕ → Option ℕ → ℕ → KdsDb → Option (ImpresoraRed × KdsDb)
create_printer id name host port estacion now db =
    let p : ImpresoraRed = record {
      id = id;
      name = name;
      host = host;
      port = elim port [ none ↦ 9100 | some n ↦ n ];
      kds_estacion_id = estacion;
      status = unknown;
      last_seen_at = none;
      created_at = now;
    } in
    elim (get_printer_by_id id db) [
      | none ↦ some (p, record db { impresoras = put_row printer_key p db.impresoras })
      | some _ ↦ none
    ]

unfoldable pub load_partidas : ℕ → KdsDb → List KdsTicketPartida
load_partidas ticket db =
    order_rows (λ p. p.created_at) (keep_if (λ p. p.kds_ticket_id == ticket) db.partidas)

unfoldable pub map_ticket : KdsDb → KdsTicketRow → KdsTicket
unfolding load_partidas
map_ticket db row = record { row = row; partidas = load_partidas row.id db }

unfoldable pub get_row : ℕ → KdsDb → Option KdsTicketRow
get_row id db = find_row ticket_id id db.tickets

unfoldable pub get_ticket_by_id : ℕ → KdsDb → Option KdsTicket
unfolding map_ticket
get_ticket_by_id id db = elim (get_row id db) [ none ↦ none | some row ↦ some (map_ticket db row) ]

-- INSERT … ON CONFLICT(id) DO UPDATE SET status: a line that is there keeps its ticket and all else.
unfoldable pub merge_partida : ℕ → KdsTicketPartida → Option KdsTicketPartida → KdsTicketPartida
merge_partida ticket p none = record p { kds_ticket_id = ticket }
merge_partida ticket p (some old) = record old { status = p.status }

unfoldable pub persist_partidas :
    ℕ → List KdsTicketPartida → List KdsTicketPartida → List KdsTicketPartida
unfolding merge_partida
persist_partidas ticket [] table = table
persist_partidas ticket (p ∷ ps) table =
    persist_partidas ticket ps
      (put_row partida_id (merge_partida ticket p (find_row partida_id p.id table)) table)

-- UPDATE: the account, the station, the sequence number and the time of creation stay as they are.
unfoldable pub stored_ticket_row : KdsTicketRow → Option KdsTicketRow → KdsTicketRow
stored_ticket_row row none = row
stored_ticket_row row (some old) = record row {
  cuenta_id = old.cuenta_id;
  kds_estacion_id = old.kds_estacion_id;
  aggregate_sequence_number = old.aggregate_sequence_number;
  created_at = old.created_at;
}

unfoldable pub save_ticket : KdsTicket → KdsDb → KdsDb
unfolding stored_ticket_row persist_partidas
save_ticket ticket db = record db {
  tickets = put_row ticket_id (stored_ticket_row ticket.row (get_row ticket.id db)) db.tickets;
  partidas = persist_partidas ticket.id ticket.partidas db.partidas;
}

-- WHERE kds_estacion_id = ? AND status != 'ENTREGADO'
abbrev pub is_active_at : ℕ → KdsTicketRow → Bool
is_active_at estacion t = t.kds_estacion_id == estacion && not (is_entregado t.status)

unfoldable pub list_active_tickets_by_estacion : ℕ → KdsDb → List KdsTicket
unfolding map_ticket
list_active_tickets_by_estacion estacion db =
    map (map_ticket db)
      (order_rows (λ t. t.aggregate_sequence_number) (keep_if (is_active_at estacion) db.tickets))

-- The minutes since the ticket was completed are compared as instants, in milliseconds.
unfoldable pub within_window : ℕ → ℕ → ℕ → Bool
within_window completed window now =
    not (ltb now completed) && not (ltb (window * 60000) (now - completed))

unfoldable pub recall_row : KdsDb → ℕ → ℕ → KdsTicketRow → Option ℕ → Option KdsTicket
unfolding within_window map_ticket
recall_row db window now row none = none
recall_row db window now row (some completed) =
    if within_window completed window now then some (map_ticket db row) else none

unfoldable pub get_ticket_for_recall : ℕ → ℕ → ℕ → KdsDb → Option KdsTicket
unfolding recall_row
get_ticket_for_recall orden window now db = elim (get_row orden db) [
  | none ↦ none
  | some row ↦ recall_row db window now row row.completed_at
]

unfoldable pub update_printer_status : ℕ → PrinterStatus → ℕ → KdsDb → KdsDb
update_printer_status id status now db = record db {
  impresoras =
      map (λ p. if p.id == id then record p { status = status; last_seen_at = some now } else p)
        db.impresoras;
}

-- print_status IN ('PENDING', 'QUEUED', 'FAILED')
abbrev pub is_printable : PrintJobStatus → Bool
is_printable pending = true
is_printable queued = true
is_printable failed = true
is_printable _ = false

unfoldable pub list_pending_print_jobs : KdsDb → List KdsTicket
unfolding map_ticket
list_pending_print_jobs db = map (map_ticket db) (
    order_rows (λ t. t.aggregate_sequence_number)
      (keep_if (λ t. is_printable t.print_status) db.tickets))

abbrev pub is_printing : PrintJobStatus → Bool
is_printing printing = true
is_printing _ = false

-- 'RECOVERED_AFTER_RESTART_DURING_PRINTING'
abbrev pub recovered_error : ℕ
recovered_error = 1

unfoldable pub recover_row : ℕ → KdsTicketRow → KdsTicketRow
recover_row now t =
    if is_printing t.print_status
    then record t {
      print_status = queued;
      last_print_error = some recovered_error;
      updated_at = now;
    }
    else t

abbrev pub recovered_db : ℕ → KdsDb → KdsDb
recovered_db now db = record db { tickets = map (recover_row now) db.tickets }

-- The interrupted tickets, read again after the update.
unfoldable pub recover_interrupted_printing_jobs : ℕ → KdsDb → List (Option KdsTicket) × KdsDb
unfolding recover_row
recover_interrupted_printing_jobs now db =
    let db' = recovered_db now db in
    (
      map (λ t. get_ticket_by_id t.id db') (keep_if (λ t. is_printing t.print_status) db.tickets),
      db',
    )

unfoldable pub mark_row : ℕ → PrintJobStatus → ℕ → Option ℕ → ℕ → KdsTicketRow → KdsTicketRow
mark_row id status attempts error now t =
    if t.id == id
    then record t {
      print_status = status;
      print_attempts = attempts;
      last_print_error = error;
      updated_at = now;
    }
    else t

unfoldable pub mark_ticket_print_attempt : ℕ → PrintJobStatus → ℕ → Option ℕ → ℕ → KdsDb → KdsDb
unfolding mark_row
mark_ticket_print_attempt id status attempts error now db = record db {
  tickets = map (mark_row id status attempts error now) db.tickets;
}

unfoldable pub assign_printer_to_ticket : ℕ → ℕ → KdsDb → KdsDb
assign_printer_to_ticket ticket printer db = record db {
  tickets =
      map (λ t. if t.id == ticket then record t { printer_id = some printer } else t) db.tickets;
}
