-- ===== src/Pos/Payments/Proofs/Paid.antt =====
-- What packages/pos/src/payment-service.ts tells of an account after a payment.
use tridentpos.Prelude.{
  ℤ, pos, ℕ, ◌≡◌, refl, ap, sym, ◌∙◌, arith, int_laws, ◌+ℤ◌, Bool, true, none, some, List, [], ◌∷◌,
  ◌++◌, Text, Bool-cases, inl, inr, keep_if, ltb,
}
use tridentpos.Pos.Types.{Cuenta}
use tridentpos.Pos.Errors.{ok}
use tridentpos.Pos.Table.{insert_ordered, order_rows, order_rows_onto}
use tridentpos.Pos.Repository.{get_cuenta}
use tridentpos.Pos.Payments.{
  Pago, PaymentDb, find_payment_by_client_op_id, list_payments_by_cuenta_id,
  execute_atomic_settlement,
}
use tridentpos.Pos.Payments.Service.{
  SubmitTenderCommand, PaymentSettlementResult, AccountPaymentsSummary, submit_tender, settle,
  new_pago, total_paid_of, total_tips_of, remaining, is_pagada, get_account_payments,
}
use tridentpos.Pos.Payments.Proofs.{submit_tender_settles}
use tridentpos.Pos.Payments.Proofs.Once.{submit_tender_stores, account_after}

order_rows_onto-append :
    {R : Type 0} (rank : R → ℕ) (done rows : List R) (r : R)
    → order_rows_onto rank done (rows ++ (r ∷ []))
      ≡ insert_ordered rank r (order_rows_onto rank done rows)
unfolding order_rows_onto
order_rows_onto-append rank done [] r = refl
order_rows_onto-append rank done (q ∷ rows) r =
    order_rows_onto-append rank (insert_ordered rank q done) rows r

keep_if-append :
    {A : Type 0} (p : A → Bool) (xs : List A) (y : A)
    → p y ≡ true
    → keep_if p (xs ++ (y ∷ [])) ≡ keep_if p xs ++ (y ∷ [])
keep_if-append p [] y here = rw here refl
keep_if-append p (x ∷ xs) y here = elim (Bool-cases (p x)) [
  | inl kept ↦ rw kept (ap (◌∷◌ x) (keep_if-append p xs y here))
  | inr left_out ↦ rw left_out (keep_if-append p xs y here)
]

total_paid_of_shift :
    (a b : ℤ) (ps : List Pago) → total_paid_of (a +ℤ b) ps ≡ total_paid_of a ps +ℤ b
unfolding total_paid_of
total_paid_of_shift a b [] = refl
total_paid_of_shift a b (p ∷ ps) =
    ap (λ t. total_paid_of t ps) (omega int_laws) ∙ total_paid_of_shift (a +ℤ p.amount) b ps

total_tips_of_shift :
    (a b : ℤ) (ps : List Pago) → total_tips_of (a +ℤ b) ps ≡ total_tips_of a ps +ℤ b
unfolding total_tips_of
total_tips_of_shift a b [] = refl
total_tips_of_shift a b (p ∷ ps) =
    ap (λ t. total_tips_of t ps) (omega int_laws) ∙ total_tips_of_shift (a +ℤ p.tip_amount) b ps

module _ (rank : Pago → ℕ) (q : Pago) where
  total_paid_of-insert_ordered :
      (a : ℤ) (ps : List Pago)
      → total_paid_of a (insert_ordered rank q ps) ≡ total_paid_of a ps +ℤ q.amount
  unfolding total_paid_of insert_ordered
  total_paid_of-insert_ordered a [] = refl
  total_paid_of-insert_ordered a (p ∷ ps) = elim (Bool-cases (ltb (rank q) (rank p))) [
    | inl first ↦ rw first (total_paid_of_shift a q.amount (p ∷ ps))
    | inr later ↦ rw later (total_paid_of-insert_ordered (a +ℤ p.amount) ps)
  ]

  total_tips_of-insert_ordered :
      (a : ℤ) (ps : List Pago)
      → total_tips_of a (insert_ordered rank q ps) ≡ total_tips_of a ps +ℤ q.tip_amount
  unfolding total_tips_of insert_ordered
  total_tips_of-insert_ordered a [] = refl
  total_tips_of-insert_ordered a (p ∷ ps) = elim (Bool-cases (ltb (rank q) (rank p))) [
    | inl first ↦ rw first (total_tips_of_shift a q.tip_amount (p ∷ ps))
    | inr later ↦ rw later (total_tips_of-insert_ordered (a +ℤ p.tip_amount) ps)
  ]

-- The payments of an account with one more behind them in the table.
list_payments-append :
    (k : ℕ) (q : Pago) (db db' : PaymentDb)
    → db'.pagos ≡ db.pagos ++ (q ∷ [])
    → q.cuenta_id ≡ k
    → list_payments_by_cuenta_id k db'
      ≡ insert_ordered (λ p. p.created_at) q (list_payments_by_cuenta_id k db)
unfolding list_payments_by_cuenta_id order_rows
list_payments-append k q db db' stored here = rw stored (
    ap (order_rows_onto (λ p. p.created_at) []) (keep_if-append _ db.pagos q (ground (arith, here)))
    ∙ order_rows_onto-append (λ p. p.created_at) [] (keep_if _ db.pagos) q)

settle_amounts :
    (command : SubmitTenderCommand) (c : Cuenta) (existing : List Pago) (id movement_id now : ℕ)
    (db : PaymentDb) {r : PaymentSettlementResult}
    → find_payment_by_client_op_id command.cuenta_id command.client_op_id db ≡ none
    → (settle command c existing id movement_id now db).0 ≡ ok r
    → (r.total_paid ≡ total_paid_of (pos 0) existing +ℤ r.pago.amount)
      × (r.total_tips ≡ total_tips_of (pos 0) existing +ℤ r.pago.tip_amount)
unfolding settle execute_atomic_settlement new_pago
settle_amounts command c existing id movement_id now db new done = ground arith

summary_of : ℕ → PaymentDb → Cuenta → AccountPaymentsSummary
summary_of k db c = record {
  cuenta_id = k;
  total_amount = c.total_amount;
  total_paid = total_paid_of (pos 0) (list_payments_by_cuenta_id k db);
  total_tips = total_tips_of (pos 0) (list_payments_by_cuenta_id k db);
  remaining_balance =
      remaining c.total_amount (total_paid_of (pos 0) (list_payments_by_cuenta_id k db));
  is_settled = is_pagada c.status;
  account_status = c.status;
  payments = list_payments_by_cuenta_id k db;
}

account_summary :
    (k : ℕ) (db : PaymentDb) {c : Cuenta}
    → get_cuenta k db.dining ≡ some c
    → (s : AccountPaymentsSummary) × (get_account_payments k db ≡ (ok s, db))
      × (s.total_paid ≡ total_paid_of (pos 0) (list_payments_by_cuenta_id k db))
      × (s.total_tips ≡ total_tips_of (pos 0) (list_payments_by_cuenta_id k db))
unfolding get_account_payments summary_of
account_summary k db {c} there = (summary_of k db c, rw there refl, refl, refl)

-- After a payment of a new operation that succeeds, the summary of the account's payments is read
-- without an error, and the amount and the tips that it has paid are those of the payment's answer,
-- however the stored payments are ordered.
pub get_account_payments-submit_tender :
    (valid_pin : ℕ → Text → Bool) (command : SubmitTenderCommand) (id movement_id now : ℕ)
    (db : PaymentDb) {c : Cuenta} {r : PaymentSettlementResult}
    → find_payment_by_client_op_id command.cuenta_id command.client_op_id db ≡ none
    → get_cuenta command.cuenta_id db.dining ≡ some c
    → (submit_tender valid_pin command id movement_id now db).0 ≡ ok r
    → let after = (submit_tender valid_pin command id movement_id now db).1 in
      (s : AccountPaymentsSummary) × (get_account_payments command.cuenta_id after ≡ (ok s, after))
      × (s.total_paid ≡ r.total_paid)
      × (s.total_tips ≡ r.total_tips)
get_account_payments-submit_tender valid_pin command id movement_id now db {c} {r} new account
      done =
    let k = command.cuenta_id in
    let existing = list_payments_by_cuenta_id k db in
    let after = (submit_tender valid_pin command id movement_id now db).1 in
    let (stored, here, op, drawer) =
      submit_tender_stores valid_pin command id movement_id now db new account done in
    let (amount, active, settled) =
      submit_tender_settles valid_pin command id movement_id now db new account done in
    let (paid, tips) = settle_amounts command c existing id movement_id now db new settled in
    let (c', there) = account_after valid_pin command id movement_id now db new account done in
    let (s, read, s_paid, s_tips) = account_summary k after there in
    let rank : Pago → ℕ = λ p. p.created_at in
    let inserted = list_payments-append k r.pago db after stored here in
    (
      s,
      read,
      s_paid
          ∙ ap (total_paid_of (pos 0)) inserted
          ∙ total_paid_of-insert_ordered rank r.pago (pos 0) existing
          ∙ sym paid,
      s_tips
          ∙ ap (total_tips_of (pos 0)) inserted
          ∙ total_tips_of-insert_ordered rank r.pago (pos 0) existing
          ∙ sym tips,
    )
