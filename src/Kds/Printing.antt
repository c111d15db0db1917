-- ===== src/Kds/Printing.antt =====
-- `PrinterQueueRunner` of packages/pos-edge-runtime/src/printer-queue-runner.ts, and what it does to the
-- print columns of the tickets.
pub mod Attempts
use tridentpos.Prelude.{
  ℕ, ◌+◌, Bool, true, false, Option, none, some, List, [], ◌∷◌, find_first, leb, ◌==◌,
  if◌then◌else◌,
}
use tridentpos.Kds.{ImpresoraRed, KdsTicket, PrintJobStatus, printing, queued, online, offline}
use tridentpos.Kds.Repository.{
  KdsDb, get_printer_by_id, list_printers, list_pending_print_jobs, mark_ticket_print_attempt,
  update_printer_status,
}

-- `outcome`, with the text of an error as a number.
pub data Outcome : Type 0 where
  printed failed no_printer_assigned max_attempts_exceeded : Outcome

pub record PrintAttemptResult : Type 0 where
  pub ticket_id : ℕ
  pub outcome : Outcome
  pub error : Option ℕ

-- 'NO_PRINTER_ASSIGNED'
abbrev pub no_printer_error : ℕ
no_printer_error = 2

abbrev is_printer_of : ℕ → Option ℕ → Bool
is_printer_of estacion none = false
is_printer_of estacion (some e) = e == estacion

abbrev resolve_by : KdsDb → ℕ → Option ℕ → Option ImpresoraRed
resolve_by db estacion none =
    find_first (λ p. is_printer_of estacion p.kds_estacion_id) (list_printers db)
resolve_by db estacion (some id) = get_printer_by_id id db

-- `if (ticket.printerId)`: neither null nor the empty string.
abbrev assigned : Option ℕ → Option ℕ
assigned none = none
assigned (some id) = if id == 0 then none else some id

unfoldable pub resolve_printer_for : KdsTicket → KdsDb → Option ImpresoraRed
resolve_printer_for ticket db = resolve_by db ticket.kds_estacion_id (assigned ticket.printer_id)

-- The client of the printer is a parameter: the error of the attempt with this number, or `none`.
module _ (print : ImpresoraRed → KdsTicket → ℕ → Option ℕ) (max_attempts now : ℕ) where
  unfoldable pub after_print :
      KdsTicket → ImpresoraRed → ℕ → Option ℕ → KdsDb → PrintAttemptResult × KdsDb
  after_print ticket printer attempt none db = (
    record { ticket_id = ticket.id; outcome = Outcome.printed; error = none },
    update_printer_status printer.id online now
        (mark_ticket_print_attempt ticket.id PrintJobStatus.printed attempt none now db),
  )
  after_print ticket printer attempt (some message) db = (
    record { ticket_id = ticket.id; outcome = Outcome.failed; error = some message },
    update_printer_status printer.id offline now (
        mark_ticket_print_attempt ticket.id
          (if leb max_attempts attempt then PrintJobStatus.failed else queued) attempt
          (some message) now db),
  )

  unfoldable pub print_on : KdsTicket → Option ImpresoraRed → KdsDb → PrintAttemptResult × KdsDb
  unfolding after_print
  print_on ticket none db = (
    record { ticket_id = ticket.id; outcome = no_printer_assigned; error = some no_printer_error },
    mark_ticket_print_attempt ticket.id PrintJobStatus.failed ticket.print_attempts
        (some no_printer_error) now db,
  )
  print_on ticket (some printer) db =
      let attempt = ticket.print_attempts + 1 in
      after_print ticket printer attempt (print printer ticket attempt)
        (mark_ticket_print_attempt ticket.id printing attempt ticket.last_print_error now db)

  unfoldable pub attempt_print : KdsTicket → KdsDb → PrintAttemptResult × KdsDb
  unfolding print_on
  attempt_print ticket db =
      if leb max_attempts ticket.print_attempts
      then (record { ticket_id = ticket.id; outcome = max_attempts_exceeded; error = none }, db)
      else print_on ticket (resolve_printer_for ticket db) db

  unfoldable pub attempt_all : List KdsTicket → KdsDb → List PrintAttemptResult × KdsDb
  unfolding attempt_print
  attempt_all [] db = ([], db)
  attempt_all (t ∷ ts) db =
      let (result, db') = attempt_print t db in
      let (results, db'') = attempt_all ts db' in (result ∷ results, db'')

  -- The tickets are read once, before the first attempt.
  unfoldable pub run_pending_queue_once : KdsDb → List PrintAttemptResult × KdsDb
  unfolding attempt_all
  run_pending_queue_once db = attempt_all (list_pending_print_jobs db) db
