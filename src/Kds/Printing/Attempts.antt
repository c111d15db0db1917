-- ===== src/Kds/Printing/Attempts.antt =====
-- What a run of the print queue of packages/pos-edge-runtime/src/printer-queue-runner.ts leaves.
use tridentpos.Prelude.{
  ℕ, ◌+◌, ◌≤◌, ◌≡◌, refl, ap, arith, false, Option, none, some, List, [], ◌∷◌, map, leb,
  if◌then◌else◌, Bool-cases, inl, inr,
}
use tridentpos.Kds.{
  ImpresoraRed, KdsTicket, KdsTicketRow, PrintJobStatus, printing, printed, queued, failed,
}
use tridentpos.Kds.Repository.{
  KdsDb, is_printing, mark_row, mark_ticket_print_attempt, update_printer_status, recover_row,
  recover_interrupted_printing_jobs, list_pending_print_jobs,
}
use tridentpos.Kds.Printing.{
  attempt_print, print_on, after_print, attempt_all, run_pending_queue_once, resolve_printer_for,
  no_printer_error,
}

-- A ticket that is not being printed, and was attempted at most `cap` times.
abbrev pub IsSettled : ℕ → KdsTicketRow → Type 0
IsSettled cap r = (is_printing r.print_status ≡ false) × (r.print_attempts ≤ cap)

abbrev pub AllSettled : ℕ → List KdsTicketRow → Type 0
AllSettled cap [] = Unit
AllSettled cap (r ∷ rows) = IsSettled cap r × AllSettled cap rows

-- The same of the attempts alone.
abbrev pub AllWithin : ℕ → List KdsTicketRow → Type 0
AllWithin cap [] = Unit
AllWithin cap (r ∷ rows) = (r.print_attempts ≤ cap) × AllWithin cap rows

mark_rows-AllSettled :
    (cap id : ℕ) (status : PrintJobStatus) (attempts : ℕ) (error : Option ℕ) (now : ℕ)
    (rows : List KdsTicketRow)
    → is_printing status ≡ false
    → attempts ≤ cap
    → AllSettled cap rows
    → AllSettled cap (map (mark_row id status attempts error now) rows)
unfolding mark_row
mark_rows-AllSettled cap id status attempts error now [] s a h = tt
mark_rows-AllSettled cap id status attempts error now (r ∷ rows) s a h =
    (ground (arith, s, a, h.0), mark_rows-AllSettled cap id status attempts error now rows s a h.1)

mark_row_twice :
    (id : ℕ) (s s' : PrintJobStatus) (a a' : ℕ) (e e' : Option ℕ) (now : ℕ) (r : KdsTicketRow)
    → mark_row id s' a' e' now (mark_row id s a e now r) ≡ mark_row id s' a' e' now r
unfolding mark_row
mark_row_twice id s s' a a' e e' now r = ground arith

-- The mark before the attempt is covered by the one after it.
mark_rows_twice :
    (id : ℕ) (s s' : PrintJobStatus) (a a' : ℕ) (e e' : Option ℕ) (now : ℕ)
    (rows : List KdsTicketRow)
    → map (mark_row id s' a' e' now) (map (mark_row id s a e now) rows)
      ≡ map (mark_row id s' a' e' now) rows
mark_rows_twice id s s' a a' e e' now [] = refl
mark_rows_twice id s s' a a' e e' now (r ∷ rows) =
    rw (mark_row_twice id s s' a a' e e' now r)
      (ap (◌∷◌ (mark_row id s' a' e' now r)) (mark_rows_twice id s s' a a' e e' now rows))

module _ (print : ImpresoraRed → KdsTicket → ℕ → Option ℕ) (cap now : ℕ) where
  after_print-AllSettled :
      (t : KdsTicket) (printer : ImpresoraRed) (attempt : ℕ) (o e : Option ℕ) (db : KdsDb)
      → attempt ≤ cap
      → AllSettled cap db.tickets
      → AllSettled cap
          (after_print print cap now t printer attempt o
            (mark_ticket_print_attempt t.id printing attempt e now db)).1.tickets
  unfolding after_print mark_ticket_print_attempt update_printer_status
  after_print-AllSettled t printer attempt none e db a h =
      rw (mark_rows_twice t.id printing printed attempt attempt e none now db.tickets)
        (mark_rows-AllSettled cap t.id printed attempt none now db.tickets refl a h)
  after_print-AllSettled t printer attempt (some message) e db a h =
      let status = if leb cap attempt then failed else queued in
      rw (mark_rows_twice t.id printing status attempt attempt e (some message) now db.tickets) (
        mark_rows-AllSettled cap t.id status attempt (some message) now db.tickets (ground arith) a
          h)

  print_on-AllSettled :
      (t : KdsTicket) (printer : Option ImpresoraRed) (db : KdsDb)
      → t.print_attempts + 1 ≤ cap
      → AllSettled cap db.tickets
      → AllSettled cap (print_on print cap now t printer db).1.tickets
  unfolding print_on mark_ticket_print_attempt
  print_on-AllSettled t none db a h =
      mark_rows-AllSettled cap t.id failed t.print_attempts (some no_printer_error) now db.tickets
        refl (omega arith) h
  print_on-AllSettled t (some printer) db a h =
      after_print-AllSettled t printer (t.print_attempts + 1)
        (print printer t (t.print_attempts + 1)) t.last_print_error db a h

  attempt_print-AllSettled :
      (t : KdsTicket) (db : KdsDb)
      → AllSettled cap db.tickets
      → AllSettled cap (attempt_print print cap now t db).1.tickets
  unfolding attempt_print
  attempt_print-AllSettled t db h = elim (Bool-cases (leb cap t.print_attempts)) [
    | inl done ↦ rw done h
    | inr more ↦
        rw more (print_on-AllSettled t (resolve_printer_for t db) db (ground (arith, more)) h)
  ]

  attempt_all-AllSettled :
      (ts : List KdsTicket) (db : KdsDb)
      → AllSettled cap db.tickets
      → AllSettled cap (attempt_all print cap now ts db).1.tickets
  unfolding attempt_all
  attempt_all-AllSettled [] db h = h
  attempt_all-AllSettled (t ∷ ts) db h =
      attempt_all-AllSettled ts (attempt_print print cap now t db).1
        (attempt_print-AllSettled t db h)

recover_rows-AllSettled :
    (cap now : ℕ) (rows : List KdsTicketRow)
    → AllWithin cap rows
    → AllSettled cap (map (recover_row now) rows)
unfolding recover_row
recover_rows-AllSettled cap now [] h = tt
recover_rows-AllSettled cap now (r ∷ rows) h =
    (ground (arith, h.0), recover_rows-AllSettled cap now rows h.1)

-- After a restart, which may find tickets in the middle of printing, the recovery and a run of the print
-- queue leave no ticket being printed, and none with more attempts than the cap, whatever the printers
-- answer.
pub run_pending_queue_once-AllSettled :
    (print : ImpresoraRed → KdsTicket → ℕ → Option ℕ) (cap now later : ℕ) (db : KdsDb)
    → AllWithin cap db.tickets
    → let recovered = (recover_interrupted_printing_jobs now db).1 in
      AllSettled cap (run_pending_queue_once print cap later recovered).1.tickets
unfolding run_pending_queue_once recover_interrupted_printing_jobs
run_pending_queue_once-AllSettled print cap now later db h =
    let recovered = (recover_interrupted_printing_jobs now db).1 in
    attempt_all-AllSettled print cap later (list_pending_print_jobs recovered) recovered
      (recover_rows-AllSettled cap now db.tickets h)
