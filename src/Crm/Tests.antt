-- ===== src/Crm/Tests.antt =====
-- A loyalty account by packages/crm/src/loyalty-engine.ts.
use tridentpos.Prelude.{
  ℕ, ◌≤◌, ℤ, pos, negsuc, ◌+ℤ◌, ◌≡◌, refl, arith, int_laws, true, none, some, [], ◌∷◌, codes,
}
use tridentpos.Prelude.Fallible.{ok, err}
use tridentpos.Crm.{
  LoyaltyAccount, LoyaltyTransaction, bronze, silver, earn, redeem, insufficient_loyalty_points,
}
use tridentpos.Crm.Numerics.{multiply_scale4, from_scale4_big_int, to_scale4_big_int}
use tridentpos.Crm.Promotions.{
  Promotion, percentage, Evaluation, evaluate_promotion, birthday_amount,
}
use tridentpos.Crm.Promotions.Bounds.{share, evaluate_promotion_bounded}
use tridentpos.Crm.Loyalty.{
  calculate_points_earned, with_points, entry_of, zero_text, create_compensating_reversal,
}
use tridentpos.Crm.Loyalty.Ledger.{Holds, accrue, redeem_points, run_loyalty}
use tridentpos.Crm.Loyalty.Ledger.History.{
  opened, made, points_sum, wallet_sum, Holds-History, create_compensating_reversal-run_loyalty,
}

-- 15 per cent on a ticket of 333.33.
abbrev per_cent : Promotion
per_cent = record {
  id = 1;
  organization_id = 2;
  code = 5;
  name = 6;
  promo_type = percentage;
  discount_value = codes "15.0000";
  start_date = 100;
  end_date = 200;
  is_active = true;
  created_at = 90;
}

fifteen : codes "15.0000" ≡ from_scale4_big_int (pos 150000)
unfolding from_scale4_big_int tridentpos.Money.Decimal.scaled_to_decimal_string
    tridentpos.Money.Decimal.Digits.number_to_string tridentpos.Money.Decimal.Digits.pad_start
fifteen = refl

evaluate_promotion_bounded_example :
    (e : Evaluation) × (d : ℕ) × (evaluate_promotion per_cent none 150 7
        (from_scale4_big_int (pos 3333300))
      ≡ ok e)
    × (e.discount_amount ≡ from_scale4_big_int (pos d))
    × (d ≤ 3333300)
evaluate_promotion_bounded_example =
    evaluate_promotion_bounded per_cent none 150 7 150000 3333300 fifteen
      (share 150000 (omega arith))

-- A fixed birthday gift of 150 on a ticket of 80 takes off 150.
birthday_exceeds : birthday_amount (codes "150.0000") (codes "80.0000") ≡ ok (codes "150.0000")
unfolding birthday_amount tridentpos.Crm.Numerics.compare_scale4 to_scale4_big_int
    tridentpos.Crm.Numerics.big_int tridentpos.Crm.Numerics.signed_number tridentpos.Prelude.trim
    tridentpos.Money.Decimal.whole_part tridentpos.Money.Decimal.drop_minus
    tridentpos.Crm.Numerics.only_digits tridentpos.Money.Decimal.fraction_part
    tridentpos.Prelude.◌-ℤ◌ tridentpos.Money.Decimal.starts_minus ◌+ℤ◌ tridentpos.Prelude.◌*ℤ◌
    tridentpos.Money.Decimal.Digits.digits_value
birthday_exceeds = refl

abbrev new_account : LoyaltyAccount
new_account = record {
  id = 1;
  organization_id = 2;
  customer_id = 3;
  card_number = 4;
  points_balance = codes "0.0000";
  wallet_balance = codes "0.0000";
  tier = bronze;
  is_active = true;
  created_at = 10;
  updated_at = 10;
}

-- 600 points make silver, of which 150.5 are spent.
abbrev with_600 : LoyaltyAccount
with_600 = with_points new_account (codes "600.0000") silver 20

abbrev earned : LoyaltyTransaction
earned = entry_of new_account 100 earn (codes "600.0000") zero_text 8 (some 7) none 20

abbrev with_449 : LoyaltyAccount
with_449 = with_points with_600 (codes "449.5000") bronze 30

abbrev spent : LoyaltyTransaction
spent = entry_of with_600 101 redeem (codes "-150.5000") zero_text 9 none none 30

truncated : multiply_scale4 (codes "0.0001") (codes "0.9999") ≡ ok (codes "0.0000")
unfolding multiply_scale4 from_scale4_big_int to_scale4_big_int tridentpos.Crm.Numerics.big_int
    tridentpos.Crm.Numerics.signed_number tridentpos.Crm.Numerics.only_digits
    tridentpos.Crm.Numerics.is_positive_scale4 tridentpos.Prelude.trim tridentpos.Prelude.trim_start
    tridentpos.Prelude.is_white tridentpos.Prelude.is_digit tridentpos.Money.Decimal.whole_part
    tridentpos.Money.Decimal.drop_minus tridentpos.Money.Decimal.fraction_part
    tridentpos.Money.Decimal.starts_minus ◌+ℤ◌ tridentpos.Prelude.◌*ℤ◌ tridentpos.Prelude.◌/ℤ◌
    tridentpos.Prelude.xor tridentpos.Prelude.neg tridentpos.Prelude.signed
    tridentpos.Money.Decimal.Digits.digits_value tridentpos.Money.Decimal.scaled_to_decimal_string
    tridentpos.Money.Decimal.Digits.number_to_string tridentpos.Money.Decimal.Digits.pad_start
    tridentpos.Money.Decimal.Digits.to_digits
truncated = refl

gold_points :
    calculate_points_earned (codes "333.3300") silver (codes "1.0000") (codes "0.1000")
    ≡ ok (codes "41.6662")
unfolding calculate_points_earned multiply_scale4 from_scale4_big_int to_scale4_big_int
    tridentpos.Crm.Numerics.big_int tridentpos.Crm.Numerics.signed_number
    tridentpos.Crm.Numerics.only_digits tridentpos.Crm.Numerics.is_positive_scale4
    tridentpos.Prelude.trim tridentpos.Prelude.trim_start tridentpos.Prelude.is_white
    tridentpos.Prelude.is_digit tridentpos.Money.Decimal.whole_part
    tridentpos.Money.Decimal.drop_minus tridentpos.Money.Decimal.fraction_part
    tridentpos.Money.Decimal.starts_minus ◌+ℤ◌ tridentpos.Prelude.◌*ℤ◌ tridentpos.Prelude.◌/ℤ◌
    tridentpos.Prelude.xor tridentpos.Prelude.neg tridentpos.Prelude.signed
    tridentpos.Money.Decimal.Digits.digits_value tridentpos.Money.Decimal.scaled_to_decimal_string
    tridentpos.Money.Decimal.Digits.number_to_string tridentpos.Money.Decimal.Digits.pad_start
    tridentpos.Money.Decimal.Digits.to_digits
gold_points = refl

accrued : run_loyalty (accrue (pos 6000000) 7 8) 100 20 new_account ≡ ok (with_600, earned)
unfolding run_loyalty tridentpos.Crm.Loyalty.apply_points_accrual
    tridentpos.Crm.Loyalty.check_operation tridentpos.Crm.Numerics.is_positive_scale4
    to_scale4_big_int tridentpos.Crm.Numerics.big_int tridentpos.Crm.Numerics.signed_number
    tridentpos.Prelude.trim tridentpos.Money.Decimal.whole_part tridentpos.Money.Decimal.drop_minus
    from_scale4_big_int tridentpos.Money.Decimal.scaled_to_decimal_string
    tridentpos.Money.Decimal.Digits.number_to_string tridentpos.Money.Decimal.Digits.pad_start
    tridentpos.Crm.Numerics.only_digits tridentpos.Money.Decimal.fraction_part
    tridentpos.Money.Decimal.starts_minus tridentpos.Prelude.xor
    tridentpos.Crm.Loyalty.apply_rest_card_payment tridentpos.Crm.Loyalty.apply_rest_card_top_up
    tridentpos.Crm.Loyalty.reaches tridentpos.Crm.Loyalty.resolve_tier_for_points
    tridentpos.Crm.Loyalty.validate_and_apply_redemption tridentpos.Crm.Numerics.add_scale4
    tridentpos.Crm.Numerics.compare_scale4 multiply_scale4 tridentpos.Crm.Numerics.sub_scale4
    tridentpos.Money.Decimal.Digits.digits_value tridentpos.Money.Decimal.Digits.to_digits
    tridentpos.Prelude.neg tridentpos.Prelude.signed tridentpos.Prelude.◌*ℤ◌ ◌+ℤ◌
    tridentpos.Prelude.◌-ℤ◌ tridentpos.Prelude.◌/ℤ◌ tridentpos.Prelude.is_digit
    tridentpos.Prelude.is_white tridentpos.Prelude.trim_start
accrued = refl

redeemed :
    run_loyalty (redeem_points (pos 1505000) (codes "0.1000") 9) 101 30 with_600
    ≡ ok (with_449, spent)
unfolding run_loyalty tridentpos.Crm.Loyalty.validate_and_apply_redemption
    tridentpos.Crm.Loyalty.check_operation tridentpos.Crm.Numerics.is_positive_scale4
    to_scale4_big_int tridentpos.Crm.Numerics.big_int tridentpos.Crm.Numerics.signed_number
    tridentpos.Prelude.trim tridentpos.Money.Decimal.whole_part tridentpos.Money.Decimal.drop_minus
    from_scale4_big_int tridentpos.Money.Decimal.scaled_to_decimal_string
    tridentpos.Money.Decimal.Digits.number_to_string tridentpos.Money.Decimal.Digits.pad_start
    tridentpos.Crm.Numerics.only_digits tridentpos.Money.Decimal.fraction_part
    tridentpos.Money.Decimal.starts_minus tridentpos.Prelude.xor
    tridentpos.Crm.Loyalty.apply_points_accrual tridentpos.Crm.Loyalty.apply_rest_card_payment
    tridentpos.Crm.Loyalty.apply_rest_card_top_up tridentpos.Crm.Loyalty.reaches
    tridentpos.Crm.Loyalty.resolve_tier_for_points tridentpos.Crm.Numerics.add_scale4
    tridentpos.Crm.Numerics.compare_scale4 multiply_scale4 tridentpos.Crm.Numerics.sub_scale4
    tridentpos.Money.Decimal.Digits.digits_value tridentpos.Money.Decimal.Digits.to_digits
    tridentpos.Prelude.neg tridentpos.Prelude.signed tridentpos.Prelude.◌*ℤ◌ ◌+ℤ◌
    tridentpos.Prelude.◌-ℤ◌ tridentpos.Prelude.◌/ℤ◌ tridentpos.Prelude.is_digit
    tridentpos.Prelude.is_white tridentpos.Prelude.trim_start
redeemed = refl

too_many :
    run_loyalty (redeem_points (pos 6000001) (codes "0.1000") 9) 101 30 with_600
    ≡ err insufficient_loyalty_points
unfolding run_loyalty tridentpos.Crm.Loyalty.validate_and_apply_redemption
    tridentpos.Crm.Loyalty.check_operation tridentpos.Crm.Numerics.is_positive_scale4
    to_scale4_big_int tridentpos.Crm.Numerics.big_int tridentpos.Crm.Numerics.signed_number
    tridentpos.Prelude.trim tridentpos.Money.Decimal.whole_part tridentpos.Money.Decimal.drop_minus
    from_scale4_big_int tridentpos.Money.Decimal.scaled_to_decimal_string
    tridentpos.Money.Decimal.Digits.number_to_string tridentpos.Money.Decimal.Digits.pad_start
    tridentpos.Crm.Numerics.only_digits tridentpos.Money.Decimal.fraction_part
    tridentpos.Money.Decimal.starts_minus tridentpos.Prelude.xor
    tridentpos.Crm.Loyalty.apply_points_accrual tridentpos.Crm.Loyalty.apply_rest_card_payment
    tridentpos.Crm.Loyalty.apply_rest_card_top_up tridentpos.Crm.Loyalty.reaches
    tridentpos.Crm.Loyalty.resolve_tier_for_points tridentpos.Crm.Numerics.add_scale4
    tridentpos.Crm.Numerics.compare_scale4 multiply_scale4 tridentpos.Crm.Numerics.sub_scale4
    tridentpos.Money.Decimal.Digits.digits_value tridentpos.Money.Decimal.Digits.to_digits
    tridentpos.Prelude.neg tridentpos.Prelude.signed tridentpos.Prelude.◌*ℤ◌ ◌+ℤ◌
    tridentpos.Prelude.◌-ℤ◌ tridentpos.Prelude.◌/ℤ◌ tridentpos.Prelude.is_digit
    tridentpos.Prelude.is_white tridentpos.Prelude.trim_start
too_many = refl

new_account-Holds : Holds new_account (pos 0) (pos 0)
unfolding from_scale4_big_int tridentpos.Money.Decimal.scaled_to_decimal_string
    tridentpos.Money.Decimal.Digits.number_to_string tridentpos.Money.Decimal.Digits.pad_start
new_account-Holds = record {
  points = refl;
  wallet = refl;
  enough_points = omega arith;
  enough_wallet = omega arith;
  tier = refl;
}

with_600-Holds : Holds with_600 (pos 6000000) (pos 0)
unfolding from_scale4_big_int tridentpos.Money.Decimal.scaled_to_decimal_string
    tridentpos.Money.Decimal.Digits.number_to_string tridentpos.Money.Decimal.Digits.pad_start
with_600-Holds = record {
  points = refl;
  wallet = refl;
  enough_points = omega arith;
  enough_wallet = omega arith;
  tier = refl;
}

Holds-History_example :
    Holds with_449
      (pos 0 +ℤ points_sum (spent ∷ earned ∷ []))
      (pos 0 +ℤ wallet_sum (spent ∷ earned ∷ []))
Holds-History_example = Holds-History new_account (pos 0) (pos 0) new_account-Holds (
    made (redeem_points (pos 1505000) (codes "0.1000") 9) 101 30
      (made (accrue (pos 6000000) 7 8) 100 20 opened accrued) redeemed)

create_compensating_reversal-run_loyalty_example :
    (b : LoyaltyAccount) × (u : LoyaltyTransaction) × (create_compensating_reversal with_449 spent
        102 40
      ≡ ok (b, u))
    × (b.points_balance ≡ with_600.points_balance)
    × (b.wallet_balance ≡ with_600.wallet_balance)
    × (b.tier ≡ with_600.tier)
create_compensating_reversal-run_loyalty_example =
    create_compensating_reversal-run_loyalty (redeem_points (pos 1505000) (codes "0.1000") 9) 101 30
      with_600 (pos 6000000) (pos 0) 102 40 with_600-Holds redeemed
