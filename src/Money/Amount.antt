-- ===== src/Money/Amount.antt =====
-- The class `Money` of money.ts: an amount that has passed the range check of the constructor.
use tridentpos.Prelude.{
  ℤ, pos, negsuc, ◌+ℤ◌, ◌-ℤ◌, ◌≡◌, ◌↔◌, Bool, true, arith, Text, neg, ltb_ℤ, eq_ℤ, int_laws,
  if◌then◌else◌,
}
use tridentpos.Money.{
  Result, ok, err, ◌>>=◌, range_exceeded, round_div, is_valid_scale4_range, calculate_line_subtotal,
}
use tridentpos.Money.Decimal.{scaled_to_decimal_string, decimal_string_to_scaled}
use tridentpos.Money.Decimal.RoundTrip.{decimal_round_trip}

pub record Money : Type 0 where
  pub amount_scale4 : ℤ

-- The private constructor, and `fromScale4`.
unfoldable pub from_scale4 : ℤ → Result Money
from_scale4 a =
    if is_valid_scale4_range a then ok (record { amount_scale4 = a }) else err range_exceeded

unfoldable pub from_decimal_string : Text → Result Money
unfolding from_scale4
from_decimal_string str = decimal_string_to_scaled str >>= from_scale4

unfoldable pub zero_money : Result Money
unfolding from_scale4
zero_money = from_scale4 (pos 0)

unfoldable pub plus : Money → Money → Result Money
unfolding from_scale4
plus m other = from_scale4 (m.amount_scale4 +ℤ other.amount_scale4)

unfoldable pub minus : Money → Money → Result Money
unfolding from_scale4
minus m other = from_scale4 (m.amount_scale4 -ℤ other.amount_scale4)

unfoldable pub times : Money → ℤ → Result Money
unfolding from_scale4
times m quantity = from_scale4 (calculate_line_subtotal m.amount_scale4 quantity)

unfoldable pub divide : Money → ℤ → Result Money
unfolding from_scale4
divide m divisor = round_div m.amount_scale4 divisor >>= from_scale4

unfoldable pub to_decimal_string : Money → Text
to_decimal_string m = scaled_to_decimal_string m.amount_scale4

unfoldable pub equals : Money → Money → Bool
equals m other = eq_ℤ m.amount_scale4 other.amount_scale4

unfoldable pub is_zero : Money → Bool
is_zero m = eq_ℤ m.amount_scale4 (pos 0)

unfoldable pub is_positive : Money → Bool
is_positive m = ltb_ℤ (pos 0) m.amount_scale4

unfoldable pub is_negative : Money → Bool
is_negative m = ltb_ℤ m.amount_scale4 (pos 0)

unfoldable pub compare_money : Money → Money → ℤ
compare_money m other =
    if ltb_ℤ m.amount_scale4 other.amount_scale4
    then negsuc 0
    else if ltb_ℤ other.amount_scale4 m.amount_scale4
    then pos 1
    else pos 0

-- What the constructor establishes.
abbrev pub IsValid : Money → Type 0
IsValid m = is_valid_scale4_range m.amount_scale4 ≡ true

from_scale4-ok : (a : ℤ) {m : Money} → from_scale4 a ≡ ok m → IsValid m × (m.amount_scale4 ≡ a)
unfolding from_scale4
from_scale4-ok a e = ground arith

-- A sum that is accepted is in range, and taking the second term off again gives the first back:
-- nothing is rounded or clipped on the way.
plus-minus :
    (a b : Money) {c : Money} → IsValid a → plus a b ≡ ok c → IsValid c × (minus c b ≡ ok a)
unfolding plus minus
plus-minus a b {c} valid e =
    let (in_range, sum) = from_scale4-ok (a.amount_scale4 +ℤ b.amount_scale4) e in
    let back : c.amount_scale4 -ℤ b.amount_scale4 ≡ a.amount_scale4 = rw sum (omega int_laws) in
    (in_range, rw (back, valid))

-- A valid amount survives `toDecimalString` followed by `fromDecimalString`.
from_decimal_string-to_decimal_string :
    (m : Money) → IsValid m → from_decimal_string (to_decimal_string m) ≡ ok m
unfolding from_decimal_string to_decimal_string
from_decimal_string-to_decimal_string m valid =
    rw (decimal_round_trip m.amount_scale4, valid, valid)

-- `compare` is antisymmetric, and is zero exactly on amounts that `equals` accepts.
compare_money_order :
    (a b : Money)
    → (compare_money b a ≡ neg (compare_money a b))
      × ((compare_money a b ≡ pos 0) ↔ (equals a b ≡ true))
unfolding compare_money equals neg
compare_money_order a b = (ground arith, ground arith)
