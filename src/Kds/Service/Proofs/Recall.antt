-- ===== src/Kds/Service/Proofs/Recall.antt =====
-- What packages/pos/src/kds-service.ts recalls of a finished order.
use tridentpos.Prelude.{
  ℕ, ◌+◌, ◌*◌, ◌≡◌, refl, ap, sym, ◌∙◌, arith, ℤ, pos, ◌&&◌, Option, none, some, leb, if◌then◌else◌,
}
use tridentpos.Prelude.Fallible.{ok, >>=-eq-ok}
use tridentpos.Kds.{KdsTicket, KdsTicketRow}
use tridentpos.Kds.Repository.{
  KdsDb, get_row, get_ticket_by_id, map_ticket, stored_ticket_row, within_window, recall_row,
  get_ticket_for_recall,
}
use tridentpos.Kds.Service.{
  confirmar_orden_surtida, require_ticket_at_estacion, recuperar_orden_recall,
}
use tridentpos.Kds.Service.Proofs.{row_after_save, confirmar-Became, get_ticket_by_id_row}

completed_now :
    (id estacion : ℕ) (tiempo : ℤ) (now : ℕ) (db : KdsDb) {t : KdsTicket} {db' : KdsDb}
    → confirmar_orden_surtida id estacion tiempo now db ≡ ok (t, db')
    → t.completed_at ≡ some now
unfolding confirmar_orden_surtida
completed_now id estacion tiempo now db done =
    let (old, there, rest) = >>=-eq-ok (require_ticket_at_estacion id estacion db) _ done in
    ground (arith, rest)

stored_completed :
    (row : KdsTicketRow) (old : Option KdsTicketRow)
    → (stored_ticket_row row old).completed_at ≡ row.completed_at
unfolding stored_ticket_row
stored_completed row old = ground arith

within_window_lem :
    (completed w later : ℕ)
    → within_window completed w later ≡ (leb completed later && leb later (completed + w * 60000))
unfolding within_window
within_window_lem completed w later = ground arith

recall_found :
    (id w later : ℕ) (db : KdsDb) (row : KdsTicketRow)
    → get_row id db ≡ some row
    → get_ticket_for_recall id w later db ≡ recall_row db w later row row.completed_at
unfolding get_ticket_for_recall
recall_found id w later db row found = rw (found, get_ticket_for_recall) refl

ticket_found :
    (id : ℕ) (db : KdsDb) (row : KdsTicketRow)
    → get_row id db ≡ some row
    → get_ticket_by_id id db ≡ some (map_ticket db row)
unfolding get_ticket_by_id
ticket_found id db row found = rw (found, get_ticket_by_id) refl

window_given :
    (id w later : ℕ) (db : KdsDb)
    → recuperar_orden_recall id (pos w) later db ≡ ok (get_ticket_for_recall id w later db)
unfolding recuperar_orden_recall
window_given id w later db = ground arith

recalled :
    (id w later : ℕ) (db : KdsDb) (row : KdsTicketRow) (now : ℕ)
    → get_row id db ≡ some row
    → row.completed_at ≡ some now
    → recuperar_orden_recall id (pos w) later db
      ≡ ok (if leb now later && leb later (now + w * 60000) then get_ticket_by_id id db else none)
unfolding recall_row
recalled id w later db row now found completed =
    window_given id w later db
    ∙ ap ok (
        recall_found id w later db row found
        ∙ ap (recall_row db w later row) completed
        ∙ rw (within_window_lem now w later, ticket_found id db row found) refl)

-- An order that is confirmed is recalled, as it is stored, exactly from then until the window is over;
-- after that, or before, nothing is recalled.
pub recuperar_orden_recall-confirmar_orden_surtida :
    (id estacion : ℕ) (tiempo : ℤ) (now w later : ℕ) (db : KdsDb) {t : KdsTicket} {db' : KdsDb}
    → confirmar_orden_surtida id estacion tiempo now db ≡ ok (t, db')
    → recuperar_orden_recall id (pos w) later db'
      ≡ ok (if leb now later && leb later (now + w * 60000) then get_ticket_by_id id db' else none)
recuperar_orden_recall-confirmar_orden_surtida id estacion tiempo now w later db {t} {db'} done =
    let b = confirmar-Became id estacion tiempo now db done in
    let same : t.id ≡ id = b.same ∙ (get_ticket_by_id_row id db b.there).1 in
    let stored = stored_ticket_row t.row (get_row t.id db) in
    let found : get_row t.id db' ≡ some stored =
      row_after_save t.id t db db' b.saved ∙ ground arith in
    recalled id w later db' stored now (ap (λ k. get_row k db') (sym same) ∙ found)
      (stored_completed t.row (get_row t.id db) ∙ completed_now id estacion tiempo now db done)
