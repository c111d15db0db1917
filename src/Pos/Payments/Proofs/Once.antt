-- ===== src/Pos/Payments/Proofs/Once.antt =====
-- What a payment by packages/pos/src/payment-service.ts stores, and that it is stored once.
use tridentpos.Prelude.{
  ℕ, ◌≡◌, refl, ap, ◌∙◌, arith, Bool, true, none, some, List, [], ◌∷◌, ◌++◌, Text, find_first,
  Bool-cases, Option-cases, inl, inr, Option, is_some, sym, pos,
}
use tridentpos.Pos.Types.{Cuenta, CuentaRow}
use tridentpos.Pos.Errors.{ok}
use tridentpos.Pos.Repository.{DiningDb, get_cuenta, get_row, save_cuenta, put_cuenta}
use tridentpos.Pos.Repository.Laws.{get_row-put_cuenta}
use tridentpos.Pos.Payments.{
  Pago, PaymentDb, append_some, find_payment_by_client_op_id, list_payments_by_cuenta_id,
  execute_atomic_settlement,
}
use tridentpos.Pos.Payments.Service.{
  SubmitTenderCommand, PaymentSettlementResult, submit_tender, settle, replay, new_pago,
  cash_movement_of, tip_of, total_paid_of, total_tips_of, remaining, is_pagada,
}
use tridentpos.Pos.Payments.Proofs.{submit_tender_settles, submit_tender_after}

find_first-append :
    {A : Type 0} (p : A → Bool) (xs : List A) (y : A)
    → find_first p xs ≡ none
    → p y ≡ true
    → find_first p (xs ++ (y ∷ [])) ≡ some y
find_first-append p [] y missing here = rw here refl
find_first-append p (x ∷ xs) y missing here = elim (Bool-cases (p x)) [
  | inl found ↦ absurd (ground (arith, found))
  | inr other ↦ rw other (find_first-append p xs y (ground (arith, other)) here)
]

-- What is stored of a payment.
Stored : SubmitTenderCommand → ℕ → ℕ → ℕ → PaymentDb → Pago → PaymentDb → Type 0
Stored command id movement_id now db pago db' =
    (db'.pagos ≡ db.pagos ++ (pago ∷ []))
    × (pago.cuenta_id ≡ command.cuenta_id)
    × (pago.client_op_id ≡ command.client_op_id)
    × (db'.cash.movimientos
        ≡ append_some db.cash.movimientos
            (cash_movement_of command (tip_of command.tip_amount) id movement_id now))

settle-Stored :
    (command : SubmitTenderCommand) (c : Cuenta) (existing : List Pago) (id movement_id now : ℕ)
    (db : PaymentDb) {r : PaymentSettlementResult}
    → find_payment_by_client_op_id command.cuenta_id command.client_op_id db ≡ none
    → (settle command c existing id movement_id now db).0 ≡ ok r
    → Stored command id movement_id now db r.pago
        (settle command c existing id movement_id now db).1
unfolding settle execute_atomic_settlement new_pago Stored
settle-Stored command c existing id movement_id now db new done = ground arith

module _ (valid_pin : ℕ → Text → Bool) (command : SubmitTenderCommand) (id movement_id now : ℕ)
    (db : PaymentDb) {c : Cuenta} {r : PaymentSettlementResult} where
  -- A payment of a new operation that succeeds is stored with the account and the operation that it
  -- was asked for, and the drawer gets its amount with the tip as a cash sale if it is in cash, and
  -- nothing otherwise.
  pub submit_tender_stores :
      find_payment_by_client_op_id command.cuenta_id command.client_op_id db ≡ none
      → get_cuenta command.cuenta_id db.dining ≡ some c
      → (submit_tender valid_pin command id movement_id now db).0 ≡ ok r
      → let after = (submit_tender valid_pin command id movement_id now db).1 in
        (after.pagos ≡ db.pagos ++ (r.pago ∷ []))
        × (r.pago.cuenta_id ≡ command.cuenta_id)
        × (r.pago.client_op_id ≡ command.client_op_id)
        × (after.cash.movimientos
            ≡ append_some db.cash.movimientos
                (cash_movement_of command (tip_of command.tip_amount) id movement_id now))
  unfolding Stored
  submit_tender_stores new account done =
      let existing = list_payments_by_cuenta_id command.cuenta_id db in
      let (amount, active, settled) =
        submit_tender_settles valid_pin command id movement_id now db new account done in
      rw (submit_tender_after valid_pin command id movement_id now db new account done)
        (settle-Stored command c existing id movement_id now db new settled)

  found_after :
      find_payment_by_client_op_id command.cuenta_id command.client_op_id db ≡ none
      → get_cuenta command.cuenta_id db.dining ≡ some c
      → (submit_tender valid_pin command id movement_id now db).0 ≡ ok r
      → find_payment_by_client_op_id command.cuenta_id command.client_op_id
          (submit_tender valid_pin command id movement_id now db).1
        ≡ some r.pago
  unfolding find_payment_by_client_op_id
  found_after new account done =
      let (pagos, cuenta, op, drawer) = submit_tender_stores new account done in
      rw pagos (find_first-append _ db.pagos r.pago new (ground (arith, cuenta, op)))

put_cuenta_keeps :
    (k : ℕ) (c : Cuenta) (old : Option CuentaRow) (db : DiningDb)
    → is_some (get_row k db) ≡ true
    → is_some (get_row k (put_cuenta c old db)) ≡ true
put_cuenta_keeps k c old db there = rw (get_row-put_cuenta k c old db) (ground arith)

save_cuenta_keeps :
    (k : ℕ) (c : Cuenta) (v : ℕ) (db : DiningDb)
    → is_some (get_row k db) ≡ true
    → is_some (get_row k (save_cuenta c v db).1) ≡ true
unfolding save_cuenta
save_cuenta_keeps k c v db there = grind (arith, put_cuenta_keeps)

settle_keeps :
    (command : SubmitTenderCommand) (c : Cuenta) (existing : List Pago) (id movement_id now k : ℕ)
    (db : PaymentDb)
    → is_some (get_row k db.dining) ≡ true
    → is_some (get_row k (settle command c existing id movement_id now db).1.dining) ≡ true
unfolding settle execute_atomic_settlement
settle_keeps command c existing id movement_id now k db there = grind (arith, save_cuenta_keeps)

get_cuenta-is_some : (k : ℕ) (db : DiningDb) → is_some (get_cuenta k db) ≡ is_some (get_row k db)
unfolding get_cuenta
get_cuenta-is_some k db = ground arith

pub account_after :
    (valid_pin : ℕ → Text → Bool) (command : SubmitTenderCommand) (id movement_id now : ℕ)
    (db : PaymentDb) {c : Cuenta} {r : PaymentSettlementResult}
    → find_payment_by_client_op_id command.cuenta_id command.client_op_id db ≡ none
    → get_cuenta command.cuenta_id db.dining ≡ some c
    → (submit_tender valid_pin command id movement_id now db).0 ≡ ok r
    → let after = (submit_tender valid_pin command id movement_id now db).1 in
      (c' : Cuenta) × (get_cuenta command.cuenta_id after.dining ≡ some c')
account_after valid_pin command id movement_id now db {c} new account done =
    let k = command.cuenta_id in
    let existing = list_payments_by_cuenta_id k db in
    let there : is_some (get_row k db.dining) ≡ true =
      sym (get_cuenta-is_some k db.dining) ∙ ap is_some account in
    let kept : is_some
          (get_cuenta k (submit_tender valid_pin command id movement_id now db).1.dining)
        ≡ true =
      rw (submit_tender_after valid_pin command id movement_id now db new account done)
        (get_cuenta-is_some k _ ∙ settle_keeps command c existing id movement_id now k db there) in
    elim (Option-cases
      (get_cuenta k (submit_tender valid_pin command id movement_id now db).1.dining)) [
        | inl missing ↦ absurd (ground (arith, missing, kept))
        | inr found ↦ found
      ]

-- The answer of a request for an operation that was done before.
replay_of : Pago → Cuenta → List Pago → PaymentSettlementResult
replay_of pago cuenta payments = record {
  pago = pago;
  total_amount = cuenta.total_amount;
  total_paid = total_paid_of (pos 0) payments;
  total_tips = total_tips_of (pos 0) payments;
  remaining_balance = remaining cuenta.total_amount (total_paid_of (pos 0) payments);
  account_settled = is_pagada cuenta.status;
  account_status = cuenta.status;
  closed_at = cuenta.closed_at;
  is_idempotent_replay = true;
}

submit_tender_replays :
    (valid_pin : ℕ → Text → Bool) (command : SubmitTenderCommand) (id movement_id now : ℕ)
    (db : PaymentDb) {pago : Pago} {c : Cuenta}
    → find_payment_by_client_op_id command.cuenta_id command.client_op_id db ≡ some pago
    → get_cuenta command.cuenta_id db.dining ≡ some c
    → submit_tender valid_pin command id movement_id now db
      ≡ (ok (replay_of pago c (list_payments_by_cuenta_id command.cuenta_id db)), db)
unfolding submit_tender replay replay_of
submit_tender_replays valid_pin command id movement_id now db found there = rw (found, there) refl

-- Once a payment has succeeded, a second request for the same account and operation, whatever else it
-- says, succeeds, is answered with the first payment as a replay, and writes nothing.
pub submit_tender_once :
    (valid_pin : ℕ → Text → Bool) (first second : SubmitTenderCommand)
    (id id' movement_id movement_id' now later : ℕ) (db : PaymentDb) {c : Cuenta}
    {r : PaymentSettlementResult}
    → second.cuenta_id ≡ first.cuenta_id
    → second.client_op_id ≡ first.client_op_id
    → find_payment_by_client_op_id first.cuenta_id first.client_op_id db ≡ none
    → get_cuenta first.cuenta_id db.dining ≡ some c
    → (submit_tender valid_pin first id movement_id now db).0 ≡ ok r
    → let after = (submit_tender valid_pin first id movement_id now db).1 in
      (r' : PaymentSettlementResult) × (submit_tender valid_pin second id' movement_id' later after
        ≡ (ok r', after))
      × (r'.pago ≡ r.pago)
      × (r'.is_idempotent_replay ≡ true)
unfolding replay_of
submit_tender_once valid_pin first second id id' movement_id movement_id' now later db same_account
      same_op new account done =
    let after = (submit_tender valid_pin first id movement_id now db).1 in
    let (c', there) = account_after valid_pin first id movement_id now db new account done in
    (
      replay_of _ c' (list_payments_by_cuenta_id second.cuenta_id after),
      submit_tender_replays valid_pin second id' movement_id' later after
          (ap (λ a. find_payment_by_client_op_id a second.client_op_id after) same_account
            ∙ ap (λ o. find_payment_by_client_op_id first.cuenta_id o after) same_op
            ∙ found_after valid_pin first id movement_id now db new account done)
          (ap (λ a. get_cuenta a after.dining) same_account ∙ there),
      refl,
      refl,
    )
