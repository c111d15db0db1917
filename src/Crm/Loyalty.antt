-- ===== src/Crm/Loyalty.antt =====
-- packages/crm/src/loyalty-engine.ts: points, the prepaid wallet and their ledger. Each operation makes
-- a new account and the entry of the ledger that goes with it.
pub mod Ledger
use tridentpos.Prelude.{
  ℕ, ◌-◌, ◌*◌, ℤ, pos, ◌+ℤ◌, Bool, true, false, not, Option, none, some, List, [], ◌∷◌, ◌++◌, Text,
  codes, leb, leb_ℤ, ltb_ℤ, eq_ℤ, if◌then◌else◌,
}
use tridentpos.Prelude.Fallible.{Fallible, ok, err, ◌>>=◌, ◌>>◌, raise_if}
use tridentpos.Crm.{
  Crm, LoyaltyTier, bronze, silver, gold, platinum, LoyaltyTransactionType, earn, redeem, top_up,
  reversal, LoyaltyAccount, LoyaltyTransaction, loyalty_account_inactive,
  insufficient_loyalty_points, insufficient_rest_card_balance, not_positive,
  negative_points_balance, negative_wallet_balance,
}
use tridentpos.Crm.Numerics.{
  to_scale4_big_int, from_scale4_big_int, add_scale4, sub_scale4, compare_scale4,
  is_positive_scale4, multiply_scale4,
}

abbrev pub zero_text : Text
zero_text = codes "0.0000"

abbrev pub tier_multiplier : LoyaltyTier → Text
tier_multiplier bronze = codes "1.0000"
tier_multiplier silver = codes "1.2500"
tier_multiplier gold = codes "1.5000"
tier_multiplier platinum = codes "2.0000"

-- `compareScale4(balance, bound) >= 0`
unfoldable pub reaches : Text → Text → Crm Bool
reaches balance bound = do sign ← compare_scale4 balance bound; ok (leb_ℤ (pos 0) sign)

unfoldable pub resolve_tier_for_points : Text → Crm LoyaltyTier
resolve_tier_for_points balance = do
  top ← reaches balance (codes "5000.0000")
  high ← reaches balance (codes "2000.0000")
  middle ← reaches balance (codes "500.0000")
  ok (if top then platinum else if high then gold else if middle then silver else bronze)

unfoldable pub calculate_points_earned : Text → LoyaltyTier → Text → Text → Crm Text
calculate_points_earned total tier rule_multiplier rate = is_positive_scale4 total >>= λ positive.
    if positive
    then multiply_scale4 (tier_multiplier tier) rule_multiplier
      >>= (λ effective. multiply_scale4 total rate >>= (λ base. multiply_scale4 base effective))
    else ok zero_text

-- The checks that every operation but a reversal begins with.
unfoldable pub check_operation : LoyaltyAccount → Text → Crm (Unit {0})
check_operation account amount = do
  raise_if (not account.is_active) loyalty_account_inactive
  positive ← is_positive_scale4 amount
  raise_if (not positive) not_positive

-- A new entry, which the caller's parts complete. Its identifier is given.
abbrev pub entry_of :
    LoyaltyAccount
    → ℕ
    → LoyaltyTransactionType
    → Text
    → Text
    → ℕ
    → Option ℕ
    → Option ℕ
    → ℕ
    → LoyaltyTransaction
entry_of account id kind points wallet reference folio reversed now = record {
  id = id;
  organization_id = account.organization_id;
  loyalty_account_id = account.id;
  transaction_type = kind;
  points_delta = points;
  wallet_delta = wallet;
  reference_account_id = reference;
  reference_ticket_folio = folio;
  reversal_of_transaction_id = reversed;
  created_at = now;
}

abbrev pub with_points : LoyaltyAccount → Text → LoyaltyTier → ℕ → LoyaltyAccount
with_points account balance tier now = record account {
  points_balance = balance;
  tier = tier;
  updated_at = now;
}

abbrev pub with_wallet : LoyaltyAccount → Text → ℕ → LoyaltyAccount
with_wallet account balance now = record account { wallet_balance = balance; updated_at = now }

unfoldable pub apply_points_accrual :
    LoyaltyAccount → Text → ℕ → ℕ → ℕ → ℕ → Crm (LoyaltyAccount × LoyaltyTransaction)
apply_points_accrual account points folio reference id now = do
  check_operation account points
  balance ← add_scale4 account.points_balance points
  tier ← resolve_tier_for_points balance
  ok (
    with_points account balance tier now,
    entry_of account id earn points zero_text reference (some folio) none now,
  )

unfoldable pub validate_and_apply_redemption :
    LoyaltyAccount → Text → ℕ → Text → ℕ → ℕ → Crm (LoyaltyAccount × LoyaltyTransaction × Text)
validate_and_apply_redemption account points reference rate id now = do
  check_operation account points
  sign ← compare_scale4 account.points_balance points
  raise_if (ltb_ℤ sign (pos 0)) insufficient_loyalty_points
  discount ← multiply_scale4 points rate
  balance ← sub_scale4 account.points_balance points
  tier ← resolve_tier_for_points balance
  ok (
    with_points account balance tier now,
    entry_of account id redeem (b'-' ∷ points) zero_text reference none none now,
    discount,
  )

unfoldable pub apply_rest_card_top_up :
    LoyaltyAccount → Text → ℕ → ℕ → ℕ → Crm (LoyaltyAccount × LoyaltyTransaction)
apply_rest_card_top_up account amount reference id now = do
  check_operation account amount
  balance ← add_scale4 account.wallet_balance amount
  ok (
    with_wallet account balance now,
    entry_of account id top_up zero_text amount reference none none now,
  )

unfoldable pub apply_rest_card_payment :
    LoyaltyAccount → Text → ℕ → ℕ → ℕ → Crm (LoyaltyAccount × LoyaltyTransaction)
apply_rest_card_payment account amount reference id now = do
  check_operation account amount
  sign ← compare_scale4 account.wallet_balance amount
  raise_if (ltb_ℤ sign (pos 0)) insufficient_rest_card_balance
  balance ← sub_scale4 account.wallet_balance amount
  ok (
    with_wallet account balance now,
    entry_of account id redeem zero_text (b'-' ∷ amount) reference none none now,
  )

unfoldable pub reversed_delta : Text → Crm Text
reversed_delta delta = to_scale4_big_int delta >>= λ value.
    if eq_ℤ value (pos 0) then ok zero_text else sub_scale4 zero_text delta

abbrev pub reversed_account : LoyaltyAccount → Text → Text → LoyaltyTier → ℕ → LoyaltyAccount
reversed_account account points wallet tier now = record account {
  points_balance = points;
  wallet_balance = wallet;
  tier = tier;
  updated_at = now;
}

unfoldable pub create_compensating_reversal :
    LoyaltyAccount → LoyaltyTransaction → ℕ → ℕ → Crm (LoyaltyAccount × LoyaltyTransaction)
create_compensating_reversal account original id now = do
  raise_if (not account.is_active) loyalty_account_inactive
  points_delta ← reversed_delta original.points_delta
  wallet_delta ← reversed_delta original.wallet_delta
  points ← add_scale4 account.points_balance points_delta
  wallet ← add_scale4 account.wallet_balance wallet_delta
  points_sign ← compare_scale4 points zero_text
  raise_if (ltb_ℤ points_sign (pos 0)) negative_points_balance
  wallet_sign ← compare_scale4 wallet zero_text
  raise_if (ltb_ℤ wallet_sign (pos 0)) negative_wallet_balance
  tier ← resolve_tier_for_points points
  ok (
    reversed_account account points wallet tier now,
    entry_of account id reversal points_delta wallet_delta original.reference_account_id
        original.reference_ticket_folio (some original.id) now,
  )
