-- ===== src/Pos/Payments/Service.antt =====
-- `PaymentDomainService` of packages/pos/src/payment-service.ts. The reads of `submitTender` and its
-- settlement are one step here. A text that is only reported is left out of movements and events.
use tridentpos.Prelude.{
  ℤ, pos, ℕ, ◌+◌, ◌+ℤ◌, ◌-ℤ◌, ◌==◌, ◌||◌, not, ltb_ℤ, leb_ℤ, eq_ℤ, contains, Bool, true, false,
  Option, none, some, List, [], ◌∷◌, ◌++◌, if◌then◌else◌, Text,
}
use tridentpos.Pos.Types.{Cuenta, CuentaStatus, pagada, is_active}
use tridentpos.Pos.Errors.{
  pure, gets, or_raise, raise_if, lift, Result, ok, err, ◌>>=◌, ◌>>◌, cuenta_not_found,
  invalid_operator_pin, shift_not_found, shift_not_open, unauthorized_shift_operator,
  account_not_payable, payment_validation,
}
use tridentpos.Pos.Repository.{get_cuenta}
use tridentpos.Pos.Shift.{TurnoCaja, MovimientoCaja, venta_efectivo}
use tridentpos.Pos.Shift.Repository.{get_shift_by_id, is_open}
use tridentpos.Pos.Payments.{
  PaymentMethod, efectivo, otro, Pago, Payments, CuentaPagada, cuenta_liquidada, pago_recibido,
  find_payment_by_client_op_id, list_payments_by_cuenta_id, execute_atomic_settlement,
}

pub record SubmitTenderCommand : Type 0 where
  pub cuenta_id : ℕ
  pub turno_caja_id : ℕ
  pub operator_user_id : ℕ
  pub operator_pin : Text
  pub payment_method : PaymentMethod
  pub amount : ℤ
  pub tip_amount : Option ℤ
  pub cash_given : Option ℤ
  pub reference_auth_code : Option ℕ
  pub client_op_id : ℕ

-- Without the movement and the event, which the result repeats.
pub record PaymentSettlementResult : Type 0 where
  pub pago : Pago
  pub total_amount : ℤ
  pub total_paid : ℤ
  pub total_tips : ℤ
  pub remaining_balance : ℤ
  pub account_settled : Bool
  pub account_status : CuentaStatus
  pub closed_at : Option ℕ
  pub is_idempotent_replay : Bool

unfoldable pub total_paid_of : ℤ → List Pago → ℤ
total_paid_of acc [] = acc
total_paid_of acc (p ∷ ps) = total_paid_of (acc +ℤ p.amount) ps

unfoldable pub total_tips_of : ℤ → List Pago → ℤ
total_tips_of acc [] = acc
total_tips_of acc (p ∷ ps) = total_tips_of (acc +ℤ p.tip_amount) ps

-- `totalAmount > totalPaid ? totalAmount - totalPaid : 0n`
abbrev pub remaining : ℤ → ℤ → ℤ
remaining total paid = if ltb_ℤ paid total then total -ℤ paid else pos 0

abbrev pub is_pagada : CuentaStatus → Bool
is_pagada pagada = true
is_pagada _ = false

abbrev pub is_efectivo : PaymentMethod → Bool
is_efectivo efectivo = true
is_efectivo _ = false

abbrev pub is_supported : PaymentMethod → Bool
is_supported otro = false
is_supported _ = true

-- `command.tipAmount && command.tipAmount > 0n ? command.tipAmount : 0n`
abbrev pub tip_of : Option ℤ → ℤ
tip_of none = pos 0
tip_of (some t) = if ltb_ℤ (pos 0) t then t else pos 0

-- The cash given and the change, of a payment in cash that says what is given.
unfoldable pub change_of : PaymentMethod → Option ℤ → ℤ → Result (Option ℤ × Option ℤ)
change_of efectivo none due = ok (none, none)
change_of efectivo (some given) due =
    if ltb_ℤ given due then err payment_validation else ok (some given, some (given -ℤ due))
change_of _ given due = ok (none, none)

abbrev pub may_charge : TurnoCaja → ℕ → Bool
may_charge shift operator =
    shift.responsible_user_id == operator
    || (shift.opened_by_user_id == operator || contains operator shift.participating_operators)

-- The payment of an operation that was done before, with the balance as it is now.
unfoldable pub replay : SubmitTenderCommand → Pago → Payments PaymentSettlementResult
unfolding total_paid_of total_tips_of
replay command existing = do
  cuenta ← or_raise (← gets (λ db. get_cuenta command.cuenta_id db.dining)) cuenta_not_found
  payments ← gets (list_payments_by_cuenta_id command.cuenta_id)
  let paid = total_paid_of (pos 0) payments
  pure (record {
    pago = existing;
    total_amount = cuenta.total_amount;
    total_paid = paid;
    total_tips = total_tips_of (pos 0) payments;
    remaining_balance = remaining cuenta.total_amount paid;
    account_settled = is_pagada cuenta.status;
    account_status = cuenta.status;
    closed_at = cuenta.closed_at;
    is_idempotent_replay = true;
  })

unfoldable pub new_pago : SubmitTenderCommand → ℤ → Option ℤ × Option ℤ → ℕ → ℕ → Pago
new_pago command tip cash id now = record {
  id = id;
  cuenta_id = command.cuenta_id;
  turno_caja_id = command.turno_caja_id;
  operator_user_id = command.operator_user_id;
  payment_method = command.payment_method;
  amount = command.amount;
  tip_amount = tip;
  cash_given = cash.0;
  change_due = cash.1;
  reference_auth_code = command.reference_auth_code;
  client_op_id = command.client_op_id;
  created_at = now;
}

-- The account with its new tips, paid when nothing remains.
unfoldable pub paid_cuenta : Cuenta → ℤ → Bool → ℕ → Cuenta
paid_cuenta cuenta tips settled now = record cuenta {
  row = record cuenta.row {
    tips_total = tips;
    status = if settled then pagada else cuenta.status;
    closed_at = if settled then some now else cuenta.closed_at;
    version = cuenta.version + 1;
    updated_at = now;
  };
}

-- The movement's reason, a text of the account and its folio, is left empty.
unfoldable pub cash_movement_of : SubmitTenderCommand → ℤ → ℕ → ℕ → ℕ → Option MovimientoCaja
cash_movement_of command tip pago_id id now =
    if is_efectivo command.payment_method
    then some (record {
      id = id;
      turno_caja_id = command.turno_caja_id;
      operator_user_id = command.operator_user_id;
      movement_type = venta_efectivo;
      amount = command.amount +ℤ tip;
      reason = [];
      reference_id = some pago_id;
      created_at = now;
    })
    else none

unfoldable pub cuenta_pagada_of : Cuenta → ℤ → List Pago → Bool → ℕ → Option CuentaPagada
cuenta_pagada_of cuenta tips payments settled now =
    if settled
    then some (record {
      cuenta_id = cuenta.id;
      folio_venta = cuenta.folio_number;
      total = cuenta.total_amount;
      propina = tips;
      formas_pago = payments;
      settled_at = now;
    })
    else none

-- Steps 8 to 15: the balance, the change, the payment and its settlement.
unfoldable pub settle :
    SubmitTenderCommand → Cuenta → List Pago → ℕ → ℕ → ℕ → Payments PaymentSettlementResult
settle command cuenta existing id movement_id now = do
  let tip = tip_of command.tip_amount
  let so_far = total_paid_of (pos 0) existing
  raise_if (ltb_ℤ (remaining cuenta.total_amount so_far) command.amount) payment_validation
  cash ← lift (change_of command.payment_method command.cash_given (command.amount +ℤ tip))
  let pago = new_pago command tip cash id now
  let paid = so_far +ℤ command.amount
  let tips = total_tips_of (pos 0) existing +ℤ tip
  let rest = remaining cuenta.total_amount paid
  let settled = eq_ℤ rest (pos 0)
  let updated = paid_cuenta cuenta tips settled now
  saved ← execute_atomic_settlement (record {
    pago = pago;
    updated_cuenta = updated;
    cash_movement = cash_movement_of command tip id movement_id now;
    cuenta_pagada_event = cuenta_pagada_of cuenta tips (existing ++ (pago ∷ [])) settled now;
    audit_record = record {
      actor_id = command.operator_user_id;
      action = if settled then cuenta_liquidada else pago_recibido;
      pago_id = id;
      remaining_balance = rest;
    };
  })
  pure (record {
    pago = saved;
    total_amount = cuenta.total_amount;
    total_paid = paid;
    total_tips = tips;
    remaining_balance = rest;
    account_settled = settled;
    account_status = updated.status;
    closed_at = updated.closed_at;
    is_idempotent_replay = false;
  })

module _ (valid_pin : ℕ → Text → Bool) where
  -- Steps 2 to 7, and the rest.
  unfoldable pub charge : SubmitTenderCommand → ℕ → ℕ → ℕ → Payments PaymentSettlementResult
  charge command id movement_id now = do
    raise_if (not (valid_pin command.operator_user_id command.operator_pin)) invalid_operator_pin
    shift ← or_raise (← gets (λ db. get_shift_by_id command.turno_caja_id db.cash)) shift_not_found
    raise_if (not (is_open shift.status)) shift_not_open
    raise_if (not (may_charge shift command.operator_user_id)) unauthorized_shift_operator
    cuenta ← or_raise (← gets (λ db. get_cuenta command.cuenta_id db.dining)) cuenta_not_found
    raise_if (not (is_active cuenta.status)) account_not_payable
    raise_if (not (is_supported command.payment_method)) payment_validation
    raise_if (leb_ℤ command.amount (pos 0)) payment_validation
    existing ← gets (list_payments_by_cuenta_id command.cuenta_id)
    settle command cuenta existing id movement_id now

  tender_found : SubmitTenderCommand → ℕ → ℕ → ℕ → Option Pago → Payments PaymentSettlementResult
  tender_found command id movement_id now none = charge command id movement_id now
  tender_found command id movement_id now (some existing) = replay command existing

  -- `submitTender`: an operation that was done before is not done again.
  unfoldable pub submit_tender : SubmitTenderCommand → ℕ → ℕ → ℕ → Payments PaymentSettlementResult
  unfolding tender_found
  submit_tender command id movement_id now = do
    tender_found command id movement_id now
        (← gets (find_payment_by_client_op_id command.cuenta_id command.client_op_id))

pub record AccountPaymentsSummary : Type 0 where
  pub cuenta_id : ℕ
  pub total_amount : ℤ
  pub total_paid : ℤ
  pub total_tips : ℤ
  pub remaining_balance : ℤ
  pub is_settled : Bool
  pub account_status : CuentaStatus
  pub payments : List Pago

unfoldable pub get_account_payments : ℕ → Payments AccountPaymentsSummary
unfolding total_paid_of total_tips_of
get_account_payments cuenta_id = do
  cuenta ← or_raise (← gets (λ db. get_cuenta cuenta_id db.dining)) cuenta_not_found
  payments ← gets (list_payments_by_cuenta_id cuenta_id)
  let paid = total_paid_of (pos 0) payments
  pure (record {
    cuenta_id = cuenta_id;
    total_amount = cuenta.total_amount;
    total_paid = paid;
    total_tips = total_tips_of (pos 0) payments;
    remaining_balance = remaining cuenta.total_amount paid;
    is_settled = is_pagada cuenta.status;
    account_status = cuenta.status;
    payments = payments;
  })
