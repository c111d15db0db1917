-- ===== src/Pos/Payments/Proofs.antt =====
-- The balance of an account that is paid by packages/pos/src/payment-service.ts.
pub mod Once
pub mod Paid
use tridentpos.Prelude.{
  ℤ, pos, ℕ, ◌+◌, ◌-◌, ◌+ℤ◌, ◌-ℤ◌, ◌≤ℤ◌, ◌<ℤ◌, ◌≡◌, refl, ap, sym, subst, ◌∙◌, arith, int_laws,
  Bool, true, false, none, some, Option, List, [], ◌∷◌, ◌++◌, Text, Option-cases, inl, inr, eq_ℤ,
  ltb_ℤ, find_first, Bool-cases, if◌then◌else◌, ◌==◌, ◌&&◌, leb_ℤ,
}
use tridentpos.Pos.Types.{Cuenta, CuentaStatus, is_active, pagada}
use tridentpos.Pos.Errors.{Result, ok, err}
use tridentpos.Pos.Repository.{DiningDb, get_cuenta, save_cuenta}
use tridentpos.Pos.Repository.Laws.{get_cuenta_row}
use tridentpos.Pos.Dining.Proofs.Stored.{summary, save_cuenta_stored}
use tridentpos.Pos.Dining.Proofs.Stations.{loaded}
use tridentpos.Pos.Shift.{TurnoCaja, MovimientoCaja}
use tridentpos.Pos.Shift.Repository.{get_shift_by_id, is_open}
use tridentpos.Pos.Payments.{
  Pago, PaymentDb, AtomicSettlementParams, cuenta_liquidada, pago_recibido,
  find_payment_by_client_op_id, list_payments_by_cuenta_id, execute_atomic_settlement, settle_saved,
  settle_new, efectivo,
}
use tridentpos.Pos.Payments.Service.{
  SubmitTenderCommand, PaymentSettlementResult, submit_tender, charge, settle, replay, change_of,
  cash_movement_of, cuenta_pagada_of, total_paid_of, total_tips_of, paid_cuenta, tip_of, new_pago,
  remaining,
}

-- Nothing is written but by a payment that succeeds.
pub Kept : PaymentDb → Result PaymentSettlementResult × PaymentDb → Type 0
Kept db (ok r, db') = Unit
Kept db (err e, db') = db' ≡ db

settle-Kept :
    (command : SubmitTenderCommand) (c : Cuenta) (existing : List Pago) (id movement_id now : ℕ)
    (db : PaymentDb)
    → Kept db (settle command c existing id movement_id now db)
unfolding settle execute_atomic_settlement Kept
settle-Kept command c existing id movement_id now db = ground arith

ltb_ℤ-false : (a b : ℤ) → ltb_ℤ a b ≡ false → b ≤ℤ a
ltb_ℤ-false a b h = ground arith

leb_ℤ-false : (a b : ℤ) → leb_ℤ a b ≡ false → b <ℤ a
leb_ℤ-false a b h = ground arith

remaining_of_le : (total paid : ℤ) → paid ≤ℤ total → remaining total paid ≡ total -ℤ paid
remaining_of_le total paid le = elim (Bool-cases (ltb_ℤ paid total)) [
  | inl less ↦ rw less refl
  | inr most ↦ let ge = ltb_ℤ-false paid total most in rw most (omega int_laws)
]

enough_remains :
    (total paid amount : ℤ)
    → pos 0 <ℤ amount
    → ltb_ℤ (remaining total paid) amount ≡ false
    → paid +ℤ amount ≤ℤ total
enough_remains total paid amount positive enough = elim (Bool-cases (ltb_ℤ paid total)) [
  | inl less ↦ let le = ltb_ℤ-false (total -ℤ paid) amount (rw less at enough) in omega int_laws
  | inr most ↦ let le = ltb_ℤ-false (pos 0) amount (rw most at enough) in absurd (omega int_laws)
]

-- What the service answers for a payment.
Answer : SubmitTenderCommand → Cuenta → List Pago → PaymentSettlementResult → Type 0
Answer command c existing r =
    (ltb_ℤ (remaining c.total_amount (total_paid_of (pos 0) existing)) command.amount ≡ false)
    × (r.total_amount ≡ c.total_amount)
    × (r.total_paid ≡ total_paid_of (pos 0) existing +ℤ command.amount)
    × (r.remaining_balance ≡ remaining r.total_amount r.total_paid)
    × (r.account_settled ≡ eq_ℤ r.remaining_balance (pos 0))
    × (r.account_status ≡ (if r.account_settled then pagada else c.status))

settle-Answer :
    (command : SubmitTenderCommand) (c : Cuenta) (existing : List Pago) (id movement_id now : ℕ)
    (db : PaymentDb) {r : PaymentSettlementResult}
    → (settle command c existing id movement_id now db).0 ≡ ok r
    → Answer command c existing r
unfolding settle Answer paid_cuenta
settle-Answer command c existing id movement_id now db done = ground arith

save_stored :
    (c : Cuenta) (v : ℕ) (db : DiningDb) {s : Cuenta}
    → (save_cuenta c v db).0 ≡ ok s
    → summary c.id (save_cuenta c v db).1.cuentas ≡ some (c.version, c.status)
save_stored c v db done =
    let (e, stored) = save_cuenta_stored c v db done in
    subst (λ s. summary s.id (save_cuenta c v db).1.cuentas ≡ some (s.version, s.status)) e stored

settle_saved_stored :
    (params : AtomicSettlementParams) (id : ℕ) (row : Option (ℕ × CuentaStatus)) (db : PaymentDb)
    (w : Result Cuenta × DiningDb) {p : Pago}
    → ((s : Cuenta) → w.0 ≡ ok s → summary id w.1.cuentas ≡ row)
    → (settle_saved params w db).0 ≡ ok p
    → summary id (settle_saved params w db).1.dining.cuentas ≡ row
settle_saved_stored params id row db (ok s, dining) stored done = stored s refl
settle_saved_stored params id row db (err e, dining) stored done = absurd (ground arith)

-- The row of the account that a settlement saves.
settlement_stored :
    (params : AtomicSettlementParams) (db : PaymentDb) {p : Pago}
    → find_payment_by_client_op_id params.pago.cuenta_id params.pago.client_op_id db ≡ none
    → (execute_atomic_settlement params db).0 ≡ ok p
    → summary params.updated_cuenta.id (execute_atomic_settlement params db).1.dining.cuentas
      ≡ some (params.updated_cuenta.version, params.updated_cuenta.status)
unfolding execute_atomic_settlement settle_new
settlement_stored params db new done =
    let c = params.updated_cuenta in
    let w = save_cuenta c (c.version - 1) db.dining in
    let settled = sym (ap (λ o. (settle_new params o db).0) new) ∙ done in
    ap (λ o. summary c.id (settle_new params o db).1.dining.cuentas) new
    ∙ settle_saved_stored params c.id (some (c.version, c.status)) db w
        (λ s saved. save_stored c (c.version - 1) db.dining saved) settled

abbrev cash_of : Result (Option ℤ × Option ℤ) → Option ℤ × Option ℤ
cash_of (ok cash) = cash
cash_of (err e) = (none, none)

-- What a charge asks to be settled.
module _ (command : SubmitTenderCommand) (c : Cuenta) (existing : List Pago)
    (id movement_id now : ℕ) where
  abbrev tip : ℤ
  tip = tip_of command.tip_amount

  abbrev rest : ℤ
  rest = remaining c.total_amount (total_paid_of (pos 0) existing +ℤ command.amount)

  abbrev tips : ℤ
  tips = total_tips_of (pos 0) existing +ℤ tip

  abbrev pago : Pago
  pago =
      new_pago command tip
        (cash_of (change_of command.payment_method command.cash_given (command.amount +ℤ tip))) id
        now

  abbrev settlement : AtomicSettlementParams
  settlement = record {
    pago = pago;
    updated_cuenta = paid_cuenta c tips (eq_ℤ rest (pos 0)) now;
    cash_movement = cash_movement_of command tip id movement_id now;
    cuenta_pagada_event = cuenta_pagada_of c tips (existing ++ (pago ∷ [])) (eq_ℤ rest (pos 0)) now;
    audit_record = record {
      actor_id = command.operator_user_id;
      action = if eq_ℤ rest (pos 0) then cuenta_liquidada else pago_recibido;
      pago_id = id;
      remaining_balance = rest;
    };
  }

  settle_run :
      (db : PaymentDb) {r : PaymentSettlementResult}
      → (settle command c existing id movement_id now db).0 ≡ ok r
      → ((execute_atomic_settlement settlement db).0 ≡ ok r.pago)
        × ((settle command c existing id movement_id now db).1
            ≡ (execute_atomic_settlement settlement db).1)
        × (r.account_status ≡ settlement.updated_cuenta.status)
  unfolding settle
  settle_run db done = ground arith

  settle_stored :
      (db : PaymentDb) {r : PaymentSettlementResult}
      → find_payment_by_client_op_id command.cuenta_id command.client_op_id db ≡ none
      → (settle command c existing id movement_id now db).0 ≡ ok r
      → summary c.id (settle command c existing id movement_id now db).1.dining.cuentas
        ≡ some (c.version + 1, r.account_status)
  unfolding paid_cuenta new_pago
  settle_stored db new done =
      let (run, after, status) = settle_run db done in
      ap (λ d. summary c.id d.dining.cuentas) after
      ∙ settlement_stored settlement db new run
      ∙ ap (λ s. some (c.version + 1, s)) (sym status)

module _ (valid_pin : ℕ → Text → Bool) (command : SubmitTenderCommand) (id movement_id now : ℕ)
    (db : PaymentDb) {c : Cuenta} {r : PaymentSettlementResult} where
  pub submit_tender_settles :
      find_payment_by_client_op_id command.cuenta_id command.client_op_id db ≡ none
      → get_cuenta command.cuenta_id db.dining ≡ some c
      → (submit_tender valid_pin command id movement_id now db).0 ≡ ok r
      → (leb_ℤ command.amount (pos 0) ≡ false)
        × (is_active c.status ≡ true)
        × ((settle command c
              (list_payments_by_cuenta_id command.cuenta_id db)
              id
              movement_id
              now
              db).0
            ≡ ok r)
  unfolding submit_tender charge
  submit_tender_settles new account done = ground arith

  pub submit_tender_after :
      find_payment_by_client_op_id command.cuenta_id command.client_op_id db ≡ none
      → get_cuenta command.cuenta_id db.dining ≡ some c
      → (submit_tender valid_pin command id movement_id now db).0 ≡ ok r
      → (submit_tender valid_pin command id movement_id now db).1
        ≡ (settle command c
            (list_payments_by_cuenta_id command.cuenta_id db)
            id
            movement_id
            now
            db).1
  unfolding submit_tender charge
  submit_tender_after new account done = ground arith

  -- The account as it is then stored.
  submit_tender_account :
      find_payment_by_client_op_id command.cuenta_id command.client_op_id db ≡ none
      → get_cuenta command.cuenta_id db.dining ≡ some c
      → (submit_tender valid_pin command id movement_id now db).0 ≡ ok r
      → let after = (submit_tender valid_pin command id movement_id now db).1 in
        (c' : Cuenta) × (get_cuenta command.cuenta_id after.dining ≡ some c')
        × (c'.version ≡ c.version + 1)
        × (c'.status ≡ r.account_status)
  submit_tender_account new account done =
      let existing = list_payments_by_cuenta_id command.cuenta_id db in
      let (_, _, settled) = submit_tender_settles new account done in
      let (_, _, named, _, _) = get_cuenta_row command.cuenta_id db.dining account in
      let after = (submit_tender valid_pin command id movement_id now db).1 in
      let stored : summary command.cuenta_id after.dining.cuentas
          ≡ some (c.version + 1, r.account_status) =
        ap (λ d. summary command.cuenta_id d.dining.cuentas) (submit_tender_after new account done)
        ∙ ap (λ i. summary i (settle command c existing id movement_id now db).1.dining.cuentas)
            (sym named)
        ∙ settle_stored command c existing id movement_id now db new settled in
      loaded command.cuenta_id after.dining stored

  -- A payment of a new operation that succeeds is of an active account and of a positive amount; with
  -- what was paid before it does not exceed the total of the account, and what remains is the rest. The
  -- account is then stored one version further, paid when nothing remains and with the state that it
  -- had otherwise, as the answer says.
  pub submit_tender_balance :
      find_payment_by_client_op_id command.cuenta_id command.client_op_id db ≡ none
      → get_cuenta command.cuenta_id db.dining ≡ some c
      → (submit_tender valid_pin command id movement_id now db).0 ≡ ok r
      → (is_active c.status ≡ true)
        × (pos 0 <ℤ command.amount)
        × (r.total_paid
            ≡ total_paid_of (pos 0) (list_payments_by_cuenta_id command.cuenta_id db)
              +ℤ command.amount)
        × (r.total_paid ≤ℤ c.total_amount)
        × (r.remaining_balance ≡ c.total_amount -ℤ r.total_paid)
        × (r.account_settled ≡ eq_ℤ r.remaining_balance (pos 0))
        × (r.account_status ≡ (if r.account_settled then pagada else c.status))
        × (let after = (submit_tender valid_pin command id movement_id now db).1 in
            (c' : Cuenta) × (get_cuenta command.cuenta_id after.dining ≡ some c')
            × (c'.version ≡ c.version + 1)
            × (c'.status ≡ (if eq_ℤ r.remaining_balance (pos 0) then pagada else c.status)))
  unfolding Answer
  submit_tender_balance new account done =
      let existing = list_payments_by_cuenta_id command.cuenta_id db in
      let (some_amount, active, settled) = submit_tender_settles new account done in
      let (enough, total, paid, rest, closed, status) =
        settle-Answer command c existing id movement_id now db settled in
      let positive = leb_ℤ-false command.amount (pos 0) some_amount in
      let (c', there, version, same) = submit_tender_account new account done in
      let bound : r.total_paid ≤ℤ c.total_amount = rw paid (
        enough_remains c.total_amount (total_paid_of (pos 0) existing) command.amount positive
          enough) in
      (
        active,
        positive,
        paid,
        bound,
        rest ∙ rw total (remaining_of_le c.total_amount r.total_paid bound),
        closed,
        status,
        (c', there, version, same ∙ status ∙ ap (λ b. if b then pagada else c.status) closed),
      )

module _ (valid_pin : ℕ → Text → Bool) (command : SubmitTenderCommand) (id movement_id now : ℕ)
    (db : PaymentDb) where
  -- A payment that is refused, at whatever step, writes nothing: not the payment, the account, the
  -- drawer, the event or the audit.
  pub submit_tender-Kept : Kept db (submit_tender valid_pin command id movement_id now db)
  unfolding submit_tender charge replay Kept
  submit_tender-Kept = grind (arith, settle-Kept)
