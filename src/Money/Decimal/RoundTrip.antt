-- ===== src/Money/Decimal/RoundTrip.antt =====
-- Reading back what `scaledBigIntToDecimalString` of money.ts writes.
use tridentpos.Prelude.{
  ℤ, pos, negsuc, ℕ, ◌/◌, ◌%◌, ◌≤◌, ◌≡◌, refl, true, false, [], ◌∷◌, ◌++◌, arith, Text, is_digit,
  length, is_neg, mag, neg, if◌then◌else◌, ◌+ℤ◌, ◌*ℤ◌,
}
use tridentpos.Money.{ok, err, range_exceeded, scale_factor, is_valid_scale4_range}
use tridentpos.Money.Decimal.Digits.{
  AllDigits, number_to_string-AllDigits, number_to_string_cons, digits_value-number_to_string,
  padded_fraction,
}
use tridentpos.Money.Decimal.{
  number_to_string, digits_value, pad_start, scaled_to_decimal_string, four_digits,
  digits_then_fraction, unsigned_decimal, starts_minus, drop_minus, is_decimal_string, whole_part,
  fraction_part, unchecked_value, decimal_string_to_scaled,
}

pub digit_bounds : (c : ℕ) → is_digit c ≡ true → (48 ≤ c) × (c ≤ 57)
unfolding is_digit
digit_bounds c h = ground arith

four_digits_of_length : (f : Text) → AllDigits f → length f ≡ 4 → four_digits f ≡ true
unfolding four_digits
four_digits_of_length [] h e = absurd (omega arith)
four_digits_of_length (a ∷ []) h e = absurd (omega arith)
four_digits_of_length (a ∷ b ∷ []) h e = absurd (omega arith)
four_digits_of_length (a ∷ b ∷ c ∷ []) h e = absurd (omega arith)
four_digits_of_length (a ∷ b ∷ c ∷ d ∷ []) (ha, (hb, (hc, (hd, _)))) e = rw (ha, hb, hc, hd)
four_digits_of_length (a ∷ b ∷ c ∷ d ∷ x ∷ f) h e = absurd (omega arith)

digits_then_fraction-append :
    (w f : Text) → AllDigits w → digits_then_fraction (w ++ (b'.' ∷ f)) ≡ four_digits f
unfolding digits_then_fraction
digits_then_fraction-append [] f h = refl
digits_then_fraction-append (c ∷ w) f (hc, h) = rw hc (digits_then_fraction-append w f h)

pub parts-append :
    (w f : Text)
    → AllDigits w
    → (whole_part (w ++ (b'.' ∷ f)) ≡ w) × (fraction_part (w ++ (b'.' ∷ f)) ≡ f)
unfolding whole_part fraction_part
parts-append [] f h = (refl, refl)
parts-append (c ∷ w) f (hc, h) = ground (arith, digit_bounds c hc, parts-append w f h)

-- The text of an amount without its sign.
unfoldable pub unsigned_text : ℕ → Text
unsigned_text m =
    number_to_string (m / 10000) ++ (b'.' ∷ pad_start 4 b'0' (number_to_string (m % 10000)))

-- An unsigned amount is written in the form that the expression accepts, and read back part by part.
module _ (m : ℕ) where
  unsigned_text-decimal : unsigned_decimal (unsigned_text m) ≡ true
  unfolding unsigned_text unsigned_decimal
  unsigned_text-decimal =
      let (c, s, e) = number_to_string_cons (m / 10000) in
      let digits : AllDigits (c ∷ s) = rw e at (number_to_string-AllDigits (m / 10000)) in
      let (fraction, four, _) = padded_fraction (m % 10000) (omega arith) in
      rw (e, digits.0, digits_then_fraction-append s _ digits.1)
        (four_digits_of_length _ fraction four)

  unsigned_text-parts :
      (digits_value 0 (whole_part (unsigned_text m)) ≡ m / 10000)
      × (digits_value 0 (fraction_part (unsigned_text m)) ≡ m % 10000)
  unfolding unsigned_text
  unsigned_text-parts =
      let (whole, fraction) =
        parts-append (number_to_string (m / 10000))
          (pad_start 4 b'0' (number_to_string (m % 10000)))
          (number_to_string-AllDigits (m / 10000)) in
      let (_, _, value) = padded_fraction (m % 10000) (omega arith) in
      (rw whole (digits_value-number_to_string (m / 10000)), rw fraction value)

  -- It begins with a digit, so it has no sign to drop.
  pub unsigned_text-sign :
      (starts_minus (unsigned_text m) ≡ false) × (drop_minus (unsigned_text m) ≡ unsigned_text m)
  unfolding unsigned_text starts_minus drop_minus
  unsigned_text-sign =
      let (c, s, e) = number_to_string_cons (m / 10000) in
      let digits : AllDigits (c ∷ s) = rw e at (number_to_string-AllDigits (m / 10000)) in
      let (low, high) = digit_bounds c digits.0 in rw e (ground (arith, low), ground (arith, low))

pub scaled_to_decimal_string-cases :
    (z : ℤ)
    → scaled_to_decimal_string z
      ≡ (if is_neg z then b'-' ∷ unsigned_text (mag z) else unsigned_text (mag z))
unfolding scaled_to_decimal_string unsigned_text
scaled_to_decimal_string-cases (pos m) = refl
scaled_to_decimal_string-cases (negsuc m) = refl

pub split_value : (m : ℕ) → pos (m / 10000) *ℤ scale_factor +ℤ pos (m % 10000) ≡ pos m
unfolding ◌+ℤ◌ ◌*ℤ◌
split_value m = ground arith

-- Whatever the range, an amount that is written is accepted by the expression and read back.
module _ (z : ℤ) where
  scaled_to_decimal_string-accepted : is_decimal_string (scaled_to_decimal_string z) ≡ true
  unfolding is_decimal_string drop_minus
  scaled_to_decimal_string-accepted =
      rw (scaled_to_decimal_string-cases z)
        (ground (arith, unsigned_text-sign (mag z), unsigned_text-decimal (mag z)))

  unchecked_value-scaled_to_decimal_string : unchecked_value (scaled_to_decimal_string z) ≡ z
  unfolding unchecked_value drop_minus starts_minus neg
  unchecked_value-scaled_to_decimal_string =
      rw (scaled_to_decimal_string-cases z) (
        ground
          (arith, unsigned_text-sign (mag z), unsigned_text-parts (mag z), split_value (mag z)))

-- Every amount of the canonical range survives being written as a decimal string and read back, and
-- an amount outside the range is refused when it is read back.
pub decimal_round_trip :
    (z : ℤ)
    → decimal_string_to_scaled (scaled_to_decimal_string z)
      ≡ (if is_valid_scale4_range z then ok z else err range_exceeded)
unfolding decimal_string_to_scaled is_valid_scale4_range
decimal_round_trip z =
    rw (scaled_to_decimal_string-accepted z, unchecked_value-scaled_to_decimal_string z)
      (ground arith)
