-- ===== src/Money.antt =====
-- packages/core/src/money.ts: amounts as bigints at scale 4, the rounding division, the line
-- arithmetic, and the value object `Money` with its range check. An exception is an `err`.
pub mod Round
pub mod Decimal
pub mod Amount
mod Tests
use tridentpos.Prelude.{
  ℤ, pos, ℕ, ◌+◌, ◌-◌, ◌/◌, Bool, ◌&&◌, xor, ◌-ℤ◌, ◌+ℤ◌, ◌*ℤ◌, mag, is_neg, neg, signed, leb_ℤ,
  ltb_ℤ, eq_ℤ, ◌==◌, if◌then◌else◌,
}

pub data MoneyError : Type 0 where
  division_by_zero invalid_format range_exceeded : MoneyError

pub data Result (A : Type 0) : Type 0 where
  ok : A → Result A
  err : MoneyError → Result A

infixl 5 ◌>>=◌
abbrev pub ◌>>=◌ : {A B : Type 0} → Result A → (A → Result B) → Result B
ok a >>= f = f a
err e >>= f = err e

-- `SCALE_FACTOR`
abbrev pub scale_factor : ℤ
scale_factor = pos 10000

abbrev pub max_scale4 : ℤ
max_scale4 = pos 999_999_999_999

abbrev pub min_scale4 : ℤ
min_scale4 = neg (pos 999_999_999_999)

-- What `roundDiv` computes once its guard has passed.
unfoldable pub round_quotient : ℤ → ℤ → ℤ
round_quotient a b =
    let half_b = mag b / 2 in signed (xor (is_neg a) (is_neg b)) ((mag a + half_b) / mag b)

unfoldable pub round_div : ℤ → ℤ → Result ℤ
unfolding round_quotient
round_div a b = if eq_ℤ b (pos 0) then err division_by_zero else ok (round_quotient a b)

unfoldable pub is_valid_scale4_range : ℤ → Bool
unfolding neg
is_valid_scale4_range a = leb_ℤ min_scale4 a && leb_ℤ a max_scale4

-- These two divide by `scale_factor`, where the guard of `round_div` cannot fail.
unfoldable pub calculate_line_subtotal : ℤ → ℤ → ℤ
unfolding round_quotient ◌*ℤ◌
calculate_line_subtotal unit_price quantity = round_quotient (unit_price *ℤ quantity) scale_factor

unfoldable pub calculate_tax_amount : ℤ → ℤ → ℤ
unfolding round_quotient ◌*ℤ◌
calculate_tax_amount net_subtotal tax_rate = round_quotient (net_subtotal *ℤ tax_rate) scale_factor

unfoldable pub calculate_net_subtotal : ℤ → ℤ → ℤ
calculate_net_subtotal line_subtotal discount = line_subtotal -ℤ discount

unfoldable pub calculate_line_total : ℤ → ℤ → ℤ
calculate_line_total net_subtotal tax_amount = net_subtotal +ℤ tax_amount
