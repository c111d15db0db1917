-- ===== src/Crm/Promotions.antt =====
-- Promotions and the expiry of points: `evaluatePromotion` and `calculatePointsExpiration` of
-- packages/crm/src/loyalty-engine.ts.
pub mod Bounds
use tridentpos.Prelude.{
  ℕ, ◌+◌, ◌*◌, ℤ, pos, ◌+ℤ◌, Bool, true, false, not, Option, none, some, List, [], ◌∷◌, Text, codes,
  leb, ltb, leb_ℤ, ltb_ℤ, ◌==◌, ◌||◌, ◌&&◌, if◌then◌else◌,
}
use tridentpos.Prelude.Fallible.{Fallible, ok, err, ◌>>=◌}
use tridentpos.Crm.{Crm, LoyaltyTransactionType, earn, LoyaltyTransaction}
use tridentpos.Crm.Numerics.{
  to_scale4_big_int, from_scale4_big_int, is_positive_scale4, multiply_scale4, divide_scale4,
  compare_scale4,
}
use tridentpos.Crm.Loyalty.{zero_text}

pub data PromotionType : Type 0 where
  percentage fixed_amount two_for_one birthday points_multiplier : PromotionType

-- The dates are days, in the order of their ISO texts.
pub record Promotion : Type 0 where
  pub id : ℕ
  pub organization_id : ℕ
  pub code : ℕ
  pub name : ℕ
  pub promo_type : PromotionType
  pub discount_value : Text
  pub start_date : ℕ
  pub end_date : ℕ
  pub is_active : Bool
  pub created_at : ℕ

-- `reason`
pub data Reason : Type 0 where
  inactive_promotion out_of_dates no_birthday other_month : Reason

pub record Evaluation : Type 0 where
  pub applicable : Bool
  pub discount_amount : Text
  pub reason : Option Reason

abbrev pub refused : Reason → Evaluation
refused r = record { applicable = false; discount_amount = zero_text; reason = some r }

abbrev pub applied : Text → Evaluation
applied discount = record { applicable = true; discount_amount = discount; reason = none }

-- `rate = discountValue / 100` and `ticketTotal * rate`
unfoldable pub percentage_of : Text → Text → Crm Text
percentage_of value total = do
  rate ← divide_scale4 value (codes "100.0000")
  multiply_scale4 total rate

-- The smaller one of the discount and the ticket.
unfoldable pub capped_amount : Text → Text → Crm Text
capped_amount value total = do
  sign ← compare_scale4 total value
  ok (if ltb_ℤ (pos 0) sign then value else total)

unfoldable pub birthday_amount : Text → Text → Crm Text
birthday_amount value total = compare_scale4 value (codes "100.0000") >>= λ sign.
    if leb_ℤ sign (pos 0) then percentage_of value total else ok value

unfoldable pub discount_of : PromotionType → Text → Text → Crm Text
discount_of percentage value total = percentage_of value total
discount_of fixed_amount value total = capped_amount value total
discount_of birthday value total = birthday_amount value total
discount_of two_for_one value total = ok zero_text
discount_of points_multiplier value total = ok zero_text

-- The month of the birthday, if there is one, against that of the check.
unfoldable pub birthday_refusal : PromotionType → Option ℕ → ℕ → Option Reason
birthday_refusal birthday none month = some no_birthday
birthday_refusal birthday (some m) month = if m == month then none else some other_month
birthday_refusal _ _ _ = none

unfoldable pub promotion_refusal : Promotion → Option ℕ → ℕ → ℕ → Option Reason
promotion_refusal p birth_month day month =
    if not p.is_active
    then some inactive_promotion
    else if ltb day p.start_date || ltb p.end_date day
    then some out_of_dates
    else birthday_refusal p.promo_type birth_month month

abbrev pub evaluated : Promotion → Text → Option Reason → Crm Evaluation
evaluated p total (some r) = ok (refused r)
evaluated p total none =
    discount_of p.promo_type p.discount_value total >>= λ discount. ok (applied discount)

-- The date of the check is its day by UTC and its month by local time, as the code takes them.
unfoldable pub evaluate_promotion : Promotion → Option ℕ → ℕ → ℕ → Text → Crm Evaluation
evaluate_promotion p birth_month day month total =
    evaluated p total (promotion_refusal p birth_month day month)

abbrev pub is_earn : LoyaltyTransactionType → Bool
is_earn earn = true
is_earn _ = false

abbrev pub expiry_milliseconds : ℕ → ℕ
expiry_milliseconds days = days * 24 * 60 * 60 * 1000

-- Instants in milliseconds.
abbrev pub is_over : ℕ → ℕ → LoyaltyTransaction → Bool
is_over days now t = leb (t.created_at + expiry_milliseconds days) now

-- `tx.transactionType === 'EARN' && isPositiveScale4(tx.pointsDelta)`: the text is read for accruals only.
unfoldable pub is_earned : LoyaltyTransaction → Crm Bool
is_earned t = if is_earn t.transaction_type then is_positive_scale4 t.points_delta else ok false

unfoldable pub expired_points : ℕ → ℕ → List LoyaltyTransaction → ℤ → Crm (ℤ × List ℕ)
expired_points days now [] total = ok (total, [])
expired_points days now (t ∷ ts) total = is_earned t >>= λ earned.
    let rest = expired_points days now ts total in
    if earned && is_over days now t
    then to_scale4_big_int t.points_delta >>= (λ points.
      expired_points days now ts (total +ℤ points) >>= (λ found. ok (found.0, t.id ∷ found.1)))
    else rest

unfoldable pub calculate_points_expiration : List LoyaltyTransaction → ℕ → ℕ → Crm (Text × List ℕ)
calculate_points_expiration ts days now = do
  found ← expired_points days now ts (pos 0)
  ok (from_scale4_big_int found.0, found.1)
