-- ===== src/Crm/Loyalty/Ledger/Commands.antt =====
-- What each operation of packages/crm/src/loyalty-engine.ts but the reversal does to the balances.
use tridentpos.Prelude.{
  ℕ, ℤ, pos, ◌+ℤ◌, neg, ltb_ℤ, ◌≡◌, refl, ap, sym, ◌∙◌, arith, int_laws, Text, inl, inr,
}
use tridentpos.Prelude.Fallible.{ok, raise_if, >>=-eq-ok, Fallible-cases}
use tridentpos.Crm.{
  insufficient_rest_card_balance, insufficient_loyalty_points, LoyaltyAccount, LoyaltyTransaction,
}
use tridentpos.Crm.Numerics.{
  from_scale4_big_int, add_scale4, sub_scale4, compare_scale4, multiply_scale4,
}
use tridentpos.Crm.Numerics.RoundTrip.{
  add_scale4-from_scale4_big_int, sub_scale4-from_scale4_big_int,
}
use tridentpos.Crm.Loyalty.{
  check_operation, apply_points_accrual, validate_and_apply_redemption, apply_rest_card_top_up,
  apply_rest_card_payment,
}
use tridentpos.Crm.Loyalty.Ledger.{
  Holds, Done, settle, points_done, wallet_done, minus_text, less, covered, check_operation_lem,
  resolve_tier_lem, LoyaltyCommand, accrue, redeem_points, recharge, pay, run_loyalty,
  without_discount,
}

module _ (z : ℤ) (r id now : ℕ) (a : LoyaltyAccount) (p w : ℤ) (h : Holds a p w) where
  accrue_done :
      (folio : ℕ) {a' : LoyaltyAccount} {t : LoyaltyTransaction}
      → apply_points_accrual a (from_scale4_big_int z) folio r id now ≡ ok (a', t)
      → Done p w a' t
  unfolding apply_points_accrual
  accrue_done folio done =
      let (u, checked, rest) = >>=-eq-ok (check_operation a (from_scale4_big_int z)) _ done in
      let (active, positive) = check_operation_lem a z checked in
      let sum : add_scale4 a.points_balance (from_scale4_big_int z)
          ≡ ok (from_scale4_big_int (p +ℤ z)) =
        ap (λ b. add_scale4 b (from_scale4_big_int z)) h.points
        ∙ add_scale4-from_scale4_big_int p z in
      settle p w (rw (sum, resolve_tier_lem (p +ℤ z)) at rest)
        (points_done a p w z now _ h active (grind (int_laws, positive, h.enough_points)) refl refl)

  recharge_done :
      {a' : LoyaltyAccount} {t : LoyaltyTransaction}
      → apply_rest_card_top_up a (from_scale4_big_int z) r id now ≡ ok (a', t)
      → Done p w a' t
  unfolding apply_rest_card_top_up
  recharge_done done =
      let (u, checked, rest) = >>=-eq-ok (check_operation a (from_scale4_big_int z)) _ done in
      let (active, positive) = check_operation_lem a z checked in
      let sum : add_scale4 a.wallet_balance (from_scale4_big_int z)
          ≡ ok (from_scale4_big_int (w +ℤ z)) =
        ap (λ b. add_scale4 b (from_scale4_big_int z)) h.wallet
        ∙ add_scale4-from_scale4_big_int w z in
      settle p w (rw sum at rest)
        (wallet_done a p w z now _ h active (grind (int_laws, positive, h.enough_wallet)) refl refl)

  pay_done :
      {a' : LoyaltyAccount} {t : LoyaltyTransaction}
      → apply_rest_card_payment a (from_scale4_big_int z) r id now ≡ ok (a', t)
      → Done p w a' t
  unfolding apply_rest_card_payment
  pay_done done =
      let (u, checked, rest) = >>=-eq-ok (check_operation a (from_scale4_big_int z)) _ done in
      let (active, positive) = check_operation_lem a z checked in
      let (sign, compared, rest1) =
        >>=-eq-ok (compare_scale4 a.wallet_balance (from_scale4_big_int z)) _ rest in
      let (v, enough, rest2) =
        >>=-eq-ok (raise_if (ltb_ℤ sign (pos 0)) insufficient_rest_card_balance) _ rest1 in
      let left : sub_scale4 a.wallet_balance (from_scale4_big_int z)
          ≡ ok (from_scale4_big_int (w +ℤ neg z)) =
        ap (λ b. sub_scale4 b (from_scale4_big_int z)) h.wallet
        ∙ sub_scale4-from_scale4_big_int w z
        ∙ ap (λ d. ok (from_scale4_big_int d)) (less w z) in
      let told = ap (λ b. compare_scale4 b (from_scale4_big_int z)) (sym h.wallet) ∙ compared in
      settle p w (rw left at rest2) (
        wallet_done a p w (neg z) now _ h active (covered w z sign told (ground (arith, enough)))
          refl (minus_text z positive))

  redeem_done :
      (rate : Text) {a' : LoyaltyAccount} {t : LoyaltyTransaction} {discount : Text}
      → validate_and_apply_redemption a (from_scale4_big_int z) r rate id now ≡ ok (a', t, discount)
      → Done p w a' t
  unfolding validate_and_apply_redemption
  redeem_done rate done =
      let (u, checked, rest) = >>=-eq-ok (check_operation a (from_scale4_big_int z)) _ done in
      let (active, positive) = check_operation_lem a z checked in
      let (sign, compared, rest1) =
        >>=-eq-ok (compare_scale4 a.points_balance (from_scale4_big_int z)) _ rest in
      let (v, enough, rest2) =
        >>=-eq-ok (raise_if (ltb_ℤ sign (pos 0)) insufficient_loyalty_points) _ rest1 in
      let (d, multiplied, rest3) =
        >>=-eq-ok (multiply_scale4 (from_scale4_big_int z) rate) _ rest2 in
      let left : sub_scale4 a.points_balance (from_scale4_big_int z)
          ≡ ok (from_scale4_big_int (p +ℤ neg z)) =
        ap (λ b. sub_scale4 b (from_scale4_big_int z)) h.points
        ∙ sub_scale4-from_scale4_big_int p z
        ∙ ap (λ k. ok (from_scale4_big_int k)) (less p z) in
      let told = ap (λ b. compare_scale4 b (from_scale4_big_int z)) (sym h.points) ∙ compared in
      settle p w (ap without_discount (rw (left, resolve_tier_lem (p +ℤ neg z)) at rest3)) (
        points_done a p w (neg z) now _ h active (covered p z sign told (ground (arith, enough)))
          (minus_text z positive) refl)

pub run_loyalty_done :
    (k : LoyaltyCommand) (id now : ℕ) (a : LoyaltyAccount) (p w : ℤ) {a' : LoyaltyAccount}
    {t : LoyaltyTransaction}
    → Holds a p w
    → run_loyalty k id now a ≡ ok (a', t)
    → Done p w a' t
unfolding run_loyalty
run_loyalty_done (accrue z folio r) id now a p w h done = accrue_done z r id now a p w h folio done
run_loyalty_done (recharge z r) id now a p w h done = recharge_done z r id now a p w h done
run_loyalty_done (pay z r) id now a p w h done = pay_done z r id now a p w h done
run_loyalty_done (redeem_points z rate r) id now a p w h done =
    let redeemed = validate_and_apply_redemption a (from_scale4_big_int z) r rate id now in
    elim (Fallible-cases redeemed) [
      | inl ((b, u, d), e) ↦ settle p w (rw e at done) (redeem_done z r id now a p w h rate e)
      | inr (e, failed) ↦ absurd (ground (arith, failed))
    ]
