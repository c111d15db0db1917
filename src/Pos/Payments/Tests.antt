-- ===== src/Pos/Payments/Tests.antt =====
-- Runs of the payments of packages/pos, and the theorems on them at concrete tables.
use tridentpos.Prelude.{
  ℤ, pos, ℕ, ◌+ℤ◌, ◌-ℤ◌, ◌≤ℤ◌, ◌<ℤ◌, ◌≡◌, refl, Bool, true, false, none, some, [], ◌∷◌, codes, Text,
  eq_ℤ,
}
use tridentpos.Pos.Types.{Cuenta, abierta, is_active}
use tridentpos.Pos.Errors.{Result, ok, err, payment_validation}
use tridentpos.Pos.Repository.{get_cuenta}
use tridentpos.Pos.Samples.{account, tables}
use tridentpos.Pos.Shift.{TurnoRow, abierto, MovimientoCaja, venta_efectivo}
use tridentpos.Pos.Shift.Repository.{CashDb}
use tridentpos.Pos.Payments.{Pago, PaymentDb, efectivo, append_some, find_payment_by_client_op_id}
use tridentpos.Pos.Payments.Service.{
  AccountPaymentsSummary, get_account_payments, SubmitTenderCommand, PaymentSettlementResult,
  submit_tender, cash_movement_of, new_pago,
}
use tridentpos.Pos.Payments.Proofs.{Kept, submit_tender_balance, submit_tender-Kept}
use tridentpos.Pos.Payments.Proofs.Paid.{get_account_payments-submit_tender}
use tridentpos.Pos.Payments.Proofs.Once.{submit_tender_once}

abbrev turno : TurnoRow
turno = record {
  id = 1;
  organization_id = 2;
  branch_id = 3;
  station_id = 4;
  responsible_user_id = 11;
  opened_by_user_id = 11;
  shift_number = 1;
  opening_cash_float = pos 0;
  closing_declared_cash = none;
  calculated_cash_total = none;
  cash_difference = none;
  status = abierto;
  assignment_strategy = 1;
  opened_at = 1;
  closed_at = none;
  version = 1;
  updated_at = 1;
}

-- Account 5 owes 300.00, and a shift is open.
abbrev till : PaymentDb
till = record {
  dining = tables abierta;
  cash = record {
    turnos = turno ∷ [];
    operadores = [];
    movimientos = [];
    arqueos = [];
    cortes = [];
    audits = [];
    outbox = [];
  };
  pagos = [];
  audit_trail = [];
  outbox_queue = [];
}

-- A payment in cash with a tip of 5.00, of a bill of 250.00.
abbrev tender : ℤ → SubmitTenderCommand
tender amount = record {
  cuenta_id = 5;
  turno_caja_id = 1;
  operator_user_id = 11;
  operator_pin = codes "1234";
  payment_method = efectivo;
  amount = amount;
  tip_amount = some (pos 50_000);
  cash_given = some (pos 2_500_000);
  reference_auth_code = none;
  client_op_id = 77;
}

abbrev accept : ℕ → Text → Bool
accept user pin = true

abbrev answer : Result PaymentSettlementResult → PaymentSettlementResult
answer (ok r) = r
answer (err e) = record {
  pago = new_pago (tender (pos 0)) (pos 0) (none, none) 0 0;
  total_amount = pos 0;
  total_paid = pos 0;
  total_tips = pos 0;
  remaining_balance = pos 0;
  account_settled = false;
  account_status = abierta;
  closed_at = none;
  is_idempotent_replay = false;
}

abbrev paying : Result PaymentSettlementResult × PaymentDb
paying = submit_tender accept (tender (pos 2_000_000)) 90 91 300 till

abbrev paid : PaymentSettlementResult
paid = answer paying.0

refuses_overpayment :
    (submit_tender accept (tender (pos 3_000_001)) 90 91 300 till).0 ≡ err payment_validation
unfolding submit_tender find_payment_by_client_op_id tridentpos.Pos.Payments.Service.charge
    tridentpos.Pos.Shift.Repository.get_shift_by_id tridentpos.Pos.Shift.Repository.get_turno_row
    tridentpos.Pos.Table.find_row get_cuenta tridentpos.Pos.Repository.get_row
    tridentpos.Pos.Payments.Service.settle tridentpos.Pos.Payments.Service.total_paid_of
    tridentpos.Pos.Payments.list_payments_by_cuenta_id tridentpos.Pos.Table.order_rows ◌-ℤ◌
refuses_overpayment = refl

submit_tender_balance_example :
    (is_active abierta ≡ true)
    × (pos 0 <ℤ pos 2_000_000)
    × (paid.total_paid ≡ pos 2_000_000)
    × (paid.total_paid ≤ℤ pos 3_000_000)
    × (paid.remaining_balance ≡ pos 3_000_000 -ℤ paid.total_paid)
    × (paid.account_settled ≡ eq_ℤ paid.remaining_balance (pos 0))
    × (paid.account_status ≡ abierta)
    × ((c' : Cuenta) × (get_cuenta 5 paying.1.dining ≡ some c')
        × (c'.version ≡ 4)
        × (c'.status ≡ abierta))
unfolding find_payment_by_client_op_id get_cuenta tridentpos.Pos.Repository.get_row
    tridentpos.Pos.Table.find_row tridentpos.Pos.Table.order_rows submit_tender
    tridentpos.Pos.Payments.Service.charge tridentpos.Pos.Shift.Repository.get_shift_by_id
    tridentpos.Pos.Shift.Repository.get_turno_row tridentpos.Pos.Payments.Service.settle
    tridentpos.Pos.Payments.Service.total_paid_of tridentpos.Pos.Payments.list_payments_by_cuenta_id
    ◌-ℤ◌ tridentpos.Pos.Payments.Service.change_of ◌+ℤ◌
    tridentpos.Pos.Payments.execute_atomic_settlement tridentpos.Pos.Repository.save_cuenta
    cash_movement_of tridentpos.Pos.Payments.Service.cuenta_pagada_of new_pago
    tridentpos.Pos.Payments.Service.paid_cuenta tridentpos.Pos.Payments.Service.replay
    tridentpos.Pos.Payments.Service.total_tips_of tridentpos.Pos.Payments.settle_new
    tridentpos.Pos.Repository.load_cuenta tridentpos.Pos.Repository.load_items
    tridentpos.Pos.Repository.put_cuenta tridentpos.Pos.Repository.stored_guests
    tridentpos.Pos.Repository.stored_row tridentpos.Pos.Shift.Repository.participating_operators_of
    tridentpos.Pos.Table.insert_ordered tridentpos.Pos.Table.order_rows_onto
    tridentpos.Pos.Table.put_row
submit_tender_balance_example =
    submit_tender_balance accept (tender (pos 2_000_000)) 90 91 300 till {c = account abierta}
      {r = paid} refl refl refl

submit_tender-Kept_example :
    Kept till (submit_tender accept (tender (pos 3_000_001)) 90 91 300 till)
submit_tender-Kept_example = submit_tender-Kept accept (tender (pos 3_000_001)) 90 91 300 till

submit_tender_once_example :
    (r' : PaymentSettlementResult) × (submit_tender accept (tender (pos 1_000)) 92 93 310 paying.1
      ≡ (ok r', paying.1))
    × (r'.pago ≡ paid.pago)
    × (r'.is_idempotent_replay ≡ true)
unfolding find_payment_by_client_op_id get_cuenta tridentpos.Pos.Repository.get_row
    tridentpos.Pos.Table.find_row tridentpos.Pos.Table.order_rows submit_tender
    tridentpos.Pos.Payments.Service.charge tridentpos.Pos.Shift.Repository.get_shift_by_id
    tridentpos.Pos.Shift.Repository.get_turno_row tridentpos.Pos.Payments.Service.settle
    tridentpos.Pos.Payments.Service.total_paid_of tridentpos.Pos.Payments.list_payments_by_cuenta_id
    ◌-ℤ◌ tridentpos.Pos.Payments.Service.change_of ◌+ℤ◌
    tridentpos.Pos.Payments.execute_atomic_settlement tridentpos.Pos.Repository.save_cuenta
    cash_movement_of tridentpos.Pos.Payments.Service.cuenta_pagada_of new_pago
    tridentpos.Pos.Payments.Service.paid_cuenta tridentpos.Pos.Payments.Service.replay
    tridentpos.Pos.Payments.Service.total_tips_of tridentpos.Pos.Payments.settle_new
    tridentpos.Pos.Repository.load_cuenta tridentpos.Pos.Repository.load_items
    tridentpos.Pos.Repository.put_cuenta tridentpos.Pos.Repository.stored_guests
    tridentpos.Pos.Repository.stored_row tridentpos.Pos.Shift.Repository.participating_operators_of
    tridentpos.Pos.Table.insert_ordered tridentpos.Pos.Table.order_rows_onto
    tridentpos.Pos.Table.put_row
submit_tender_once_example =
    submit_tender_once accept (tender (pos 2_000_000)) (tender (pos 1_000)) 90 92 91 93 300 310 till
      {c = account abierta} {r = paid} refl refl refl refl refl

get_account_payments-submit_tender_example :
    (s : AccountPaymentsSummary) × (get_account_payments 5 paying.1 ≡ (ok s, paying.1))
    × (s.total_paid ≡ paid.total_paid)
    × (s.total_tips ≡ paid.total_tips)
unfolding find_payment_by_client_op_id get_cuenta tridentpos.Pos.Repository.get_row
    tridentpos.Pos.Table.find_row tridentpos.Pos.Table.order_rows submit_tender
    tridentpos.Pos.Payments.Service.charge tridentpos.Pos.Shift.Repository.get_shift_by_id
    tridentpos.Pos.Shift.Repository.get_turno_row tridentpos.Pos.Payments.Service.settle
    tridentpos.Pos.Payments.Service.total_paid_of tridentpos.Pos.Payments.list_payments_by_cuenta_id
    ◌-ℤ◌ tridentpos.Pos.Payments.Service.change_of ◌+ℤ◌
    tridentpos.Pos.Payments.execute_atomic_settlement tridentpos.Pos.Repository.save_cuenta
    cash_movement_of tridentpos.Pos.Payments.Service.cuenta_pagada_of new_pago
    tridentpos.Pos.Payments.Service.paid_cuenta tridentpos.Pos.Payments.Service.replay
    tridentpos.Pos.Payments.Service.total_tips_of tridentpos.Pos.Payments.settle_new
    tridentpos.Pos.Repository.load_cuenta tridentpos.Pos.Repository.load_items
    tridentpos.Pos.Repository.put_cuenta tridentpos.Pos.Repository.stored_guests
    tridentpos.Pos.Repository.stored_row tridentpos.Pos.Shift.Repository.participating_operators_of
    tridentpos.Pos.Table.insert_ordered tridentpos.Pos.Table.order_rows_onto
    tridentpos.Pos.Table.put_row
get_account_payments-submit_tender_example =
    get_account_payments-submit_tender accept (tender (pos 2_000_000)) 90 91 300 till
      {c = account abierta} {r = paid} refl refl refl
