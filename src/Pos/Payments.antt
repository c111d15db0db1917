-- ===== src/Pos/Payments.antt =====
-- Payments: packages/pos/src/payment-types.ts, payment-ports.ts and the SQLite adapter packages/
-- pos-edge-runtime/src/payment-sqlite-repository.ts over the tables of accounts, shifts and payments.
pub mod Service
pub mod Proofs
mod Tests
use tridentpos.Prelude.{
  ℤ, pos, ℕ, ◌-◌, ◌+ℤ◌, ◌==◌, ◌&&◌, Bool, true, false, Option, none, some, List, [], ◌∷◌, ◌++◌,
  find_first, keep_if, is_some,
}
use tridentpos.Pos.Types.{Cuenta}
use tridentpos.Pos.Errors.{Action, Result, ok, err}
use tridentpos.Pos.Table.{order_rows}
use tridentpos.Pos.Repository.{DiningDb, save_cuenta}
use tridentpos.Pos.Shift.{MovimientoCaja}
use tridentpos.Pos.Shift.Repository.{CashDb}

pub data PaymentMethod : Type 0 where
  efectivo tarjeta transferencia otro : PaymentMethod

pub record Pago : Type 0 where
  pub id : ℕ
  pub cuenta_id : ℕ
  pub turno_caja_id : ℕ
  pub operator_user_id : ℕ
  pub payment_method : PaymentMethod
  pub amount : ℤ
  pub tip_amount : ℤ
  pub cash_given : Option ℤ
  pub change_due : Option ℤ
  pub reference_auth_code : Option ℕ
  pub client_op_id : ℕ
  pub created_at : ℕ

-- What a payment adds to the audit trail.
pub data AuditAction : Type 0 where
  cuenta_liquidada pago_recibido : AuditAction

pub record AuditRecord : Type 0 where
  pub actor_id : ℕ
  pub action : AuditAction
  pub pago_id : ℕ
  pub remaining_balance : ℤ

-- What the event `CuentaPagada` tells: the account, its total and its tips, and the payments.
pub record CuentaPagada : Type 0 where
  pub cuenta_id : ℕ
  pub folio_venta : Option ℕ
  pub total : ℤ
  pub propina : ℤ
  pub formas_pago : List Pago
  pub settled_at : ℕ

pub record AtomicSettlementParams : Type 0 where
  pub pago : Pago
  pub updated_cuenta : Cuenta
  pub cash_movement : Option MovimientoCaja
  pub cuenta_pagada_event : Option CuentaPagada
  pub audit_record : AuditRecord

pub record PaymentDb : Type 0 where
  pub dining : DiningDb
  pub cash : CashDb
  pub pagos : List Pago
  pub audit_trail : List AuditRecord
  pub outbox_queue : List CuentaPagada

abbrev pub Payments : Type 0 → Type 0
Payments = Action PaymentDb

unfoldable pub find_payment_by_id : ℕ → PaymentDb → Option Pago
find_payment_by_id id db = find_first (λ p. p.id == id) db.pagos

unfoldable pub find_payment_by_client_op_id : ℕ → ℕ → PaymentDb → Option Pago
find_payment_by_client_op_id cuenta client_op db =
    find_first (λ p. p.cuenta_id == cuenta && p.client_op_id == client_op) db.pagos

unfoldable pub list_payments_by_cuenta_id : ℕ → PaymentDb → List Pago
list_payments_by_cuenta_id cuenta db =
    order_rows (λ p. p.created_at) (keep_if (λ p. p.cuenta_id == cuenta) db.pagos)

abbrev pub append_some : {A : Type 0} → List A → Option A → List A
append_some rows none = rows
append_some rows (some r) = rows ++ (r ∷ [])

-- What is written once the account is saved.
abbrev pub settled_db : AtomicSettlementParams → DiningDb → PaymentDb → PaymentDb
settled_db params dining db = record db {
  dining = dining;
  cash = record db.cash { movimientos = append_some db.cash.movimientos params.cash_movement };
  pagos = db.pagos ++ (params.pago ∷ []);
  audit_trail = db.audit_trail ++ (params.audit_record ∷ []);
  outbox_queue = append_some db.outbox_queue params.cuenta_pagada_event;
}

abbrev settle_saved :
    AtomicSettlementParams → Result Cuenta × DiningDb → PaymentDb → Result Pago × PaymentDb
settle_saved params (ok c, dining) db = (ok params.pago, settled_db params dining db)
settle_saved params (err e, dining) db = (err e, db)

settle_new : AtomicSettlementParams → Option Pago → Payments Pago
settle_new params (some existing) db = (ok existing, db)
settle_new params none db =
    settle_saved params
      (save_cuenta params.updated_cuenta (params.updated_cuenta.version - 1) db.dining) db

-- One transaction: a payment that is there already is returned, and an error rolls all back.
unfoldable pub execute_atomic_settlement : AtomicSettlementParams → Payments Pago
unfolding settle_new
execute_atomic_settlement params db =
    settle_new params
      (find_payment_by_client_op_id params.pago.cuenta_id params.pago.client_op_id db) db
