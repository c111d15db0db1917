-- ===== src/Crm/Loyalty/Ledger/Reversal.antt =====
-- `createCompensatingReversal` of packages/crm/src/loyalty-engine.ts on amounts that were written.
use tridentpos.Prelude.{
  ℕ, ℤ, pos, ◌+ℤ◌, neg, ltb_ℤ, eq_ℤ, ◌≡◌, refl, ap, sym, ◌∙◌, arith, int_laws, true, false, some,
  if◌then◌else◌, Bool-cases, inl, inr,
}
use tridentpos.Prelude.Fallible.{ok, err}
use tridentpos.Crm.{
  LoyaltyAccount, LoyaltyTransaction, reversal, negative_points_balance, negative_wallet_balance,
  loyalty_account_inactive,
}
use tridentpos.Crm.Numerics.{from_scale4_big_int, add_scale4, sub_scale4, compare_scale4}
use tridentpos.Crm.Numerics.RoundTrip.{
  to_scale4_big_int-from_scale4_big_int, add_scale4-from_scale4_big_int,
  sub_scale4-from_scale4_big_int, compare_scale4-from_scale4_big_int,
}
use tridentpos.Crm.Loyalty.{
  entry_of, reversed_account, reversed_delta, create_compensating_reversal,
}
use tridentpos.Crm.Loyalty.Ledger.{
  Holds, Tells, Done, settle, zero_text_lem, resolve_tier_lem, tier_of,
}

reversed_delta_lem :
    (z : ℤ) → reversed_delta (from_scale4_big_int z) ≡ ok (from_scale4_big_int (neg z))
unfolding reversed_delta
reversed_delta_lem z = elim (Bool-cases (eq_ℤ z (pos 0))) [
  | inl none_told ↦
      rw (to_scale4_big_int-from_scale4_big_int z, none_told)
        (ap ok (zero_text_lem ∙ ap from_scale4_big_int (grind (int_laws, none_told))))
  | inr some_told ↦
      rw (to_scale4_big_int-from_scale4_big_int z, some_told)
        (ap (λ b. sub_scale4 b (from_scale4_big_int z)) zero_text_lem
          ∙ sub_scale4-from_scale4_big_int (pos 0) z
          ∙ ap (λ k. ok (from_scale4_big_int k)) (omega int_laws))
]

module _ (a : LoyaltyAccount) (o : LoyaltyTransaction) (p w dp dw : ℤ) (h : Holds a p w)
    (told : Tells o dp dw) (id now : ℕ) where
  abbrev undone_points : ℤ
  undone_points = p +ℤ neg dp

  abbrev undone_wallet : ℤ
  undone_wallet = w +ℤ neg dw

  abbrev undone_account : LoyaltyAccount
  undone_account =
      reversed_account a (from_scale4_big_int undone_points) (from_scale4_big_int undone_wallet)
        (tier_of undone_points) now

  abbrev undone_entry : LoyaltyTransaction
  undone_entry =
      entry_of a id reversal (from_scale4_big_int (neg dp)) (from_scale4_big_int (neg dw))
        o.reference_account_id o.reference_ticket_folio (some o.id) now

  create_compensating_reversal_lem : create_compensating_reversal a o id now ≡ (
      if a.is_active
      then if ltb_ℤ undone_points (pos 0)
        then err negative_points_balance
        else if ltb_ℤ undone_wallet (pos 0)
        then err negative_wallet_balance
        else ok (undone_account, undone_entry)
      else err loyalty_account_inactive)
  unfolding create_compensating_reversal
  create_compensating_reversal_lem =
      let points_delta = ap reversed_delta told.points ∙ reversed_delta_lem dp in
      let wallet_delta = ap reversed_delta told.wallet ∙ reversed_delta_lem dw in
      let points =
        ap (λ b. add_scale4 b (from_scale4_big_int (neg dp))) h.points
        ∙ add_scale4-from_scale4_big_int p (neg dp) in
      let wallet =
        ap (λ b. add_scale4 b (from_scale4_big_int (neg dw))) h.wallet
        ∙ add_scale4-from_scale4_big_int w (neg dw) in
      let points_sign =
        ap (compare_scale4 (from_scale4_big_int undone_points)) zero_text_lem
        ∙ compare_scale4-from_scale4_big_int undone_points (pos 0) in
      let wallet_sign =
        ap (compare_scale4 (from_scale4_big_int undone_wallet)) zero_text_lem
        ∙ compare_scale4-from_scale4_big_int undone_wallet (pos 0) in
      rw
        (
          points_delta,
          wallet_delta,
          points,
          wallet,
          points_sign,
          wallet_sign,
          resolve_tier_lem undone_points,
        )
        (ground arith)

  -- A reversal that is not refused.
  pub create_compensating_reversal_ok :
      a.is_active ≡ true
      → ltb_ℤ undone_points (pos 0) ≡ false
      → ltb_ℤ undone_wallet (pos 0) ≡ false
      → create_compensating_reversal a o id now ≡ ok (undone_account, undone_entry)
  create_compensating_reversal_ok active points wallet =
      create_compensating_reversal_lem ∙ ground (arith, active, points, wallet)

  pub reversal_done :
      {a' : LoyaltyAccount} {t : LoyaltyTransaction}
      → create_compensating_reversal a o id now ≡ ok (a', t)
      → Done p w a' t
  reversal_done done =
      let made = sym create_compensating_reversal_lem ∙ done in
      let active : a.is_active ≡ true = ground (arith, made) in
      let points : ltb_ℤ undone_points (pos 0) ≡ false = ground (arith, made) in
      let wallet : ltb_ℤ undone_wallet (pos 0) ≡ false = ground (arith, made) in
      settle p w (sym (create_compensating_reversal_ok active points wallet) ∙ done) (record {
        dp = neg dp;
        dw = neg dw;
        active = active;
        told = record { points = refl; wallet = refl };
        held = record {
          points = refl;
          wallet = refl;
          enough_points = ground (arith, points);
          enough_wallet = ground (arith, wallet);
          tier = refl;
        };
      })
