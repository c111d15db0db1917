-- ===== src/Money/Tests.antt =====
-- Runs of packages/core/src/money.ts, and the theorems on it at concrete amounts.
use tridentpos.Prelude.{pos, negsuc, neg, ◌*ℤ◌, ◌≡◌, refl, codes, signed, xor}
use tridentpos.Money.{
  Result, ok, err, ◌>>=◌, division_by_zero, invalid_format, range_exceeded, scale_factor,
  round_quotient, round_div, is_valid_scale4_range, calculate_line_subtotal, calculate_tax_amount,
}
use tridentpos.Money.Round.{half_away, round_div-half_away, line_calculations_total}
use tridentpos.Money.Decimal.{scaled_to_decimal_string, decimal_string_to_scaled}
use tridentpos.Money.Decimal.RoundTrip.{decimal_round_trip}
use tridentpos.Money.Amount.{Money}

-- -2.5 rounds to -3, and 7.4 to 7.
rounds_away : round_div (neg (pos 5)) (pos 2) ≡ ok (neg (pos 3))
unfolding round_div round_quotient neg signed xor
rounds_away = refl

rounds_down : round_div (pos 37) (pos 5) ≡ ok (pos 7)
unfolding round_div round_quotient signed xor
rounds_down = refl

writes_sign : scaled_to_decimal_string (neg (pos 1_234_567)) ≡ codes "-123.4567"
unfolding scaled_to_decimal_string neg tridentpos.Money.Decimal.number_to_string
    tridentpos.Money.Decimal.pad_start
writes_sign = refl

refuses_three_decimals : decimal_string_to_scaled (codes "12.345") ≡ err invalid_format
unfolding decimal_string_to_scaled tridentpos.Money.Decimal.is_decimal_string
    tridentpos.Money.Decimal.unsigned_decimal tridentpos.Money.Decimal.drop_minus
    tridentpos.Money.Decimal.digits_then_fraction tridentpos.Money.Decimal.four_digits
refuses_three_decimals = refl

round_div-half_away_example : round_div (pos 7) (neg (pos 2)) ≡ ok (neg (pos 4))
unfolding neg signed xor half_away
round_div-half_away_example = round_div-half_away (pos 7) (neg (pos 2))

line_calculations_total_example :
    (round_div (pos 12_500 *ℤ pos 20_000) scale_factor
      ≡ ok (calculate_line_subtotal (pos 12_500) (pos 20_000)))
    × (round_div (pos 12_500 *ℤ pos 20_000) scale_factor
        ≡ ok (calculate_tax_amount (pos 12_500) (pos 20_000)))
line_calculations_total_example = line_calculations_total (pos 12_500) (pos 20_000)

decimal_round_trip_example :
    decimal_string_to_scaled (scaled_to_decimal_string (negsuc 41)) ≡ ok (negsuc 41)
unfolding is_valid_scale4_range
decimal_round_trip_example = decimal_round_trip (negsuc 41)

abbrev price : Money
price = record { amount_scale4 = pos 125_000 }

abbrev tip : Money
tip = record { amount_scale4 = pos 15_000 }

abbrev both : Money
both = record { amount_scale4 = pos 140_000 }
