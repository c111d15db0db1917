-- ===== src/Kds/Tests.antt =====
-- Runs of the kitchen display of packages/pos/src/kds-service.ts and of its print queue.
use tridentpos.Prelude.{
  ℕ, ◌+◌, ◌*◌, ◌≡◌, refl, arith, pos, true, Option, none, some, [], ◌∷◌, leb, ◌&&◌, if◌then◌else◌,
  inl, inr,
}
use tridentpos.Prelude.Fallible.{ok}
use tridentpos.Pos.Table.{find_row}
use tridentpos.Kds.{
  KdsEstacion, cocina, activa, ImpresoraRed, unknown, KdsTicket, KdsTicketRow, KdsTicketPartida,
  KdsTicketStatus, KdsTicketPartidaStatus, normal, pending, printing, orden_confirmada,
  comanda_enviada,
}
use tridentpos.Kds.Repository.{
  KdsDb, get_ticket_by_id, partida_id, save_ticket, recover_interrupted_printing_jobs,
}
use tridentpos.Kds.Service.{
  EnviarComandaInput, EnviarComandaItemInput, enviar_comanda_a_cocina, recuperar_orden_recall,
  new_partida, new_ticket, finished_ticket, emit,
}
use tridentpos.Kds.Service.Proofs.{
  enviar, confirmar, run_kds, TicketStep, status_at, run_kds-TicketStep,
}
use tridentpos.Kds.Service.Proofs.Sequence.{IsNumbered, run_kds-IsNumbered}
use tridentpos.Kds.Service.Proofs.Lines.{Within, enviar_comanda_a_cocina_reuses_line}
use tridentpos.Kds.Service.Proofs.Recall.{recuperar_orden_recall-confirmar_orden_surtida}
use tridentpos.Kds.Printing.{run_pending_queue_once}
use tridentpos.Kds.Printing.Attempts.{AllSettled, run_pending_queue_once-AllSettled}

abbrev kitchen : KdsEstacion
kitchen = record { id = 5; name = 50; station_type = cocina; status = activa; created_at = 1 }

abbrev kitchen_printer : ImpresoraRed
kitchen_printer = record {
  id = 6;
  name = 60;
  host = 61;
  port = 9100;
  kds_estacion_id = some 5;
  status = unknown;
  last_seen_at = none;
  created_at = 1;
}

-- A ticket of the station in preparation, found in the middle of printing.
abbrev first_row : KdsTicketRow
first_row = record {
  id = 10;
  cuenta_id = 2;
  mesa_reference = 3;
  kds_estacion_id = 5;
  urgency_level = normal;
  status = KdsTicketStatus.en_preparacion;
  print_status = printing;
  print_attempts = 1;
  printer_id = none;
  last_print_error = none;
  aggregate_sequence_number = 1;
  created_at = 100;
  updated_at = 100;
  completed_at = none;
  preparation_time_minutes = none;
}

abbrev taco : KdsTicketPartida
taco = record {
  id = 20;
  kds_ticket_id = 10;
  product_id = 7;
  product_name_snapshot = 70;
  quantity = pos 20000;
  comments = none;
  modifiers = [];
  status = KdsTicketPartidaStatus.en_preparacion;
  created_at = 100;
}

abbrev kitchen_db : KdsDb
kitchen_db = record {
  estaciones = kitchen ∷ [];
  impresoras = kitchen_printer ∷ [];
  tickets = first_row ∷ [];
  partidas = taco ∷ [];
  has_publisher = true;
  published = [];
}

abbrev first_ticket : KdsTicket
first_ticket = record { row = first_row; partidas = taco ∷ [] }

abbrev finished : KdsTicket
finished = finished_ticket first_ticket 12 700

abbrev finished_db : KdsDb
finished_db = emit (orden_confirmada 5 10 700 12 finished 700) (save_ticket finished kitchen_db)

confirmed : run_kds (confirmar 10 5 (pos 12)) 700 kitchen_db ≡ ok (finished, finished_db)
unfolding run_kds tridentpos.Kds.Service.confirmar_orden_surtida
    tridentpos.Kds.Service.require_ticket_at_estacion get_ticket_by_id
    tridentpos.Kds.Repository.get_row find_row tridentpos.Pos.Table.order_rows
confirmed = refl

run_kds-TicketStep_example : TicketStep (status_at 10 kitchen_db) (status_at 10 finished_db)
run_kds-TicketStep_example = run_kds-TicketStep (confirmar 10 5 (pos 12)) 700 kitchen_db confirmed

-- A second order with a line that has the identifier of the stored one.
abbrev quesadilla : EnviarComandaItemInput
quesadilla = record {
  id = 20;
  product_id = 8;
  product_name_snapshot = 80;
  quantity = pos 10000;
  comments = none;
  modifiers = none;
}

abbrev second_order : EnviarComandaInput
second_order = record {
  id = 11;
  cuenta_id = 4;
  mesa_reference = 3;
  kds_estacion_id = 5;
  urgency_level = none;
  items = quesadilla ∷ [];
}

abbrev second_ticket : KdsTicket
second_ticket = new_ticket second_order 2 800 (new_partida 11 800 quesadilla ∷ [])

abbrev second_db : KdsDb
second_db = emit (comanda_enviada 5 second_ticket 800) (save_ticket second_ticket kitchen_db)

sent_second : run_kds (enviar second_order) 800 kitchen_db ≡ ok (second_ticket, second_db)
unfolding run_kds tridentpos.Kds.Service.enviar_comanda_a_cocina get_ticket_by_id
    tridentpos.Kds.Repository.get_row find_row tridentpos.Kds.Repository.get_estacion_by_id
    tridentpos.Kds.Service.new_partidas tridentpos.Kds.Repository.list_active_tickets_by_estacion
    tridentpos.Pos.Table.order_rows
sent_second = refl

run_kds-IsNumbered_example : IsNumbered second_db.tickets
run_kds-IsNumbered_example =
    run_kds-IsNumbered (enviar second_order) 800 kitchen_db (refl, tt, tt) sent_second

recuperar_orden_recall-confirmar_orden_surtida_example :
    recuperar_orden_recall 10 (pos 5) 900 finished_db
    ≡ ok
        (if leb 700 900 && leb 900 (700 + 5 * 60000) then get_ticket_by_id 10 finished_db else none)
unfolding run_kds
recuperar_orden_recall-confirmar_orden_surtida_example =
    recuperar_orden_recall-confirmar_orden_surtida 10 5 (pos 12) 700 5 900 kitchen_db confirmed

-- An order of two lines, the second with the identifier of the stored one.
abbrev water : EnviarComandaItemInput
water = record quesadilla { id = 21; product_id = 9; product_name_snapshot = 90 }

abbrev third_order : EnviarComandaInput
third_order = record second_order { id = 12; items = water ∷ quesadilla ∷ [] }

enviar_comanda_a_cocina_reuses_line_example :
    (t : KdsTicket) × (db' : KdsDb) × (enviar_comanda_a_cocina third_order 800 kitchen_db
      ≡ ok (t, db'))
    × Within (new_partida 12 800 quesadilla) t.partidas
    × (find_row partida_id 20 db'.partidas
        ≡ some (record taco { status = KdsTicketPartidaStatus.pendiente }))
unfolding find_row get_ticket_by_id tridentpos.Kds.Repository.get_row
    tridentpos.Kds.Repository.get_estacion_by_id
enviar_comanda_a_cocina_reuses_line_example =
    enviar_comanda_a_cocina_reuses_line third_order quesadilla 800 kitchen_db {estacion = kitchen}
      {old = taco} refl refl refl (refl, (refl, tt)) (inr (inl refl)) refl

-- A printer that never answers.
abbrev never : ImpresoraRed → KdsTicket → ℕ → Option ℕ
never _ _ _ = some 99

run_pending_queue_once-AllSettled_example :
    AllSettled 3
      (run_pending_queue_once never 3 950
        (recover_interrupted_printing_jobs 900 kitchen_db).1).1.tickets
run_pending_queue_once-AllSettled_example =
    run_pending_queue_once-AllSettled never 3 900 950 kitchen_db (omega arith, tt)
