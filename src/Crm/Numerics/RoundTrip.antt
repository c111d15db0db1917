-- ===== src/Crm/Numerics/RoundTrip.antt =====
-- Reading back the amounts that packages/crm/src/numerics.ts writes, and its comparisons and sums on them.
use tridentpos.Prelude.{
  ℕ, suc, ℤ, pos, negsuc, ◌+ℤ◌, ◌-ℤ◌, neg, ◌≡◌, refl, ap, sym, ◌∙◌, arith, int_laws, Bool, true,
  false, [], ◌∷◌, Text, is_white, trim, length, ltb_ℤ, if◌then◌else◌, ◌/◌, ◌%◌,
}
use tridentpos.Prelude.Fallible.{ok}
use tridentpos.Money.Decimal.{
  number_to_string, digits_value, pad_start, starts_minus, drop_minus, whole_part, fraction_part,
  scaled_to_decimal_string,
}
use tridentpos.Money.Decimal.Digits.{
  AllDigits, number_to_string-AllDigits, digits_value-number_to_string, padded_fraction,
}
use tridentpos.Money.Decimal.RoundTrip.{
  unsigned_text, unsigned_text-sign, parts-append, scaled_to_decimal_string-cases, split_value,
  digit_bounds,
}
use tridentpos.Money.Decimal.Plain.{trim-AllPlain, AllDigits-AllPlain, unsigned_text-AllPlain}
use tridentpos.Crm.Numerics.{
  only_digits, signed_number, big_int, first_four, to_scale4_big_int, from_scale4_big_int,
  add_scale4, sub_scale4, compare_scale4, is_positive_scale4,
}

AllDigits-only_digits : (s : Text) → AllDigits s → only_digits s ≡ true
unfolding only_digits
AllDigits-only_digits [] h = refl
AllDigits-only_digits (c ∷ s) h = rw h.0 (AllDigits-only_digits s h.1)

signed_number-AllDigits : (s : Text) → AllDigits s → signed_number s ≡ ok (pos (digits_value 0 s))
unfolding signed_number digits_value
signed_number-AllDigits [] h = refl
signed_number-AllDigits (c ∷ s) h =
    let (low, high) = digit_bounds c h.0 in
    let digits = AllDigits-only_digits (c ∷ s) h in ground (arith, low, digits)

big_int-AllDigits : (s : Text) → AllDigits s → big_int s ≡ ok (pos (digits_value 0 s))
unfolding big_int
big_int-AllDigits s h = rw (trim-AllPlain s (AllDigits-AllPlain s h)) (signed_number-AllDigits s h)

whole_part-AllDigits : (s : Text) → AllDigits s → whole_part s ≡ s
unfolding whole_part
whole_part-AllDigits [] h = refl
whole_part-AllDigits (c ∷ s) h =
    let (low, high) = digit_bounds c h.0 in
    let rest = whole_part-AllDigits s h.1 in ground (arith, low, rest)

first_four_of_length : (s : Text) → length s ≡ 4 → first_four s ≡ s
first_four_of_length [] e = absurd (omega arith)
first_four_of_length (a ∷ []) e = absurd (omega arith)
first_four_of_length (a ∷ b ∷ []) e = absurd (omega arith)
first_four_of_length (a ∷ b ∷ c ∷ []) e = absurd (omega arith)
first_four_of_length (a ∷ b ∷ c ∷ d ∷ []) e = refl
first_four_of_length (a ∷ b ∷ c ∷ d ∷ x ∷ s) e = absurd (omega arith)

module _ (m : ℕ) where
  unsigned_text_read :
      (big_int (whole_part (unsigned_text m)) ≡ ok (pos (m / 10000)))
      × (big_int (first_four (whole_part (fraction_part (unsigned_text m)))) ≡ ok (pos (m % 10000)))
  unfolding unsigned_text
  unsigned_text_read =
      let w = number_to_string (m / 10000) in
      let f = pad_start 4 b'0' (number_to_string (m % 10000)) in
      let (fraction, four, value) = padded_fraction (m % 10000) (omega arith) in
      let digits = number_to_string-AllDigits (m / 10000) in
      let (whole, rest) = parts-append w f digits in
      (
        ap big_int whole
            ∙ big_int-AllDigits w digits
            ∙ ap (λ n. ok (pos n)) (digits_value-number_to_string (m / 10000)),
        ap (λ s. big_int (first_four (whole_part s))) rest
            ∙ ap (λ s. big_int (first_four s)) (whole_part-AllDigits f fraction)
            ∙ ap big_int (first_four_of_length f four)
            ∙ big_int-AllDigits f fraction
            ∙ ap (λ n. ok (pos n)) value,
      )

-- What the parts of a text without its sign come to.
read_signed :
    (m : ℕ) (negative : Bool) (s : Text)
    → trim s ≡ s
    → starts_minus s ≡ negative
    → drop_minus s ≡ unsigned_text m
    → to_scale4_big_int s ≡ ok (if negative then neg (pos m) else pos m)
unfolding to_scale4_big_int
read_signed m negative s trimmed sign dropped =
    let (whole, fraction) = unsigned_text_read m in
    rw (trimmed, dropped, whole, fraction, sign, split_value m) refl

text_pos : (m : ℕ) → scaled_to_decimal_string (pos m) ≡ unsigned_text m
text_pos m = scaled_to_decimal_string-cases (pos m) ∙ ap unsigned_text (omega arith)

-- A text with a minus is that of the negative amount.
pub text_neg : (m : ℕ) → from_scale4_big_int (negsuc m) ≡ b'-' ∷ from_scale4_big_int (pos (suc m))
unfolding from_scale4_big_int
text_neg m =
    scaled_to_decimal_string-cases (negsuc m)
    ∙ ap (λ k. b'-' ∷ unsigned_text k) (omega arith)
    ∙ ap (λ s. b'-' ∷ s) (sym (text_pos (suc m)))

-- Every amount, of whatever size and sign, is read back as it was written.
pub to_scale4_big_int-from_scale4_big_int :
    (z : ℤ) → to_scale4_big_int (from_scale4_big_int z) ≡ ok z
unfolding from_scale4_big_int starts_minus drop_minus is_white
to_scale4_big_int-from_scale4_big_int (pos m) =
    let (sign, dropped) = unsigned_text-sign m in
    ap to_scale4_big_int (text_pos m)
    ∙ read_signed m false (unsigned_text m) (trim-AllPlain _ (unsigned_text-AllPlain m)) sign
        dropped
to_scale4_big_int-from_scale4_big_int (negsuc m) =
    ap to_scale4_big_int (text_neg m ∙ ap (λ s. b'-' ∷ s) (text_pos (suc m)))
    ∙ read_signed (suc m) true (b'-' ∷ unsigned_text (suc m))
        (trim-AllPlain _ (refl, unsigned_text-AllPlain (suc m))) refl refl
    ∙ ap ok (omega int_laws)

-- On amounts that were written, the functions on texts are those on the numbers.
module _ (x y : ℤ) where
  pub add_scale4-from_scale4_big_int :
      add_scale4 (from_scale4_big_int x) (from_scale4_big_int y) ≡ ok (from_scale4_big_int (x +ℤ y))
  unfolding add_scale4
  add_scale4-from_scale4_big_int =
      rw (to_scale4_big_int-from_scale4_big_int x, to_scale4_big_int-from_scale4_big_int y) refl

  pub sub_scale4-from_scale4_big_int :
      sub_scale4 (from_scale4_big_int x) (from_scale4_big_int y) ≡ ok (from_scale4_big_int (x -ℤ y))
  unfolding sub_scale4
  sub_scale4-from_scale4_big_int =
      rw (to_scale4_big_int-from_scale4_big_int x, to_scale4_big_int-from_scale4_big_int y) refl

  pub compare_scale4-from_scale4_big_int :
      compare_scale4 (from_scale4_big_int x) (from_scale4_big_int y)
      ≡ ok (if ltb_ℤ y x then pos 1 else if ltb_ℤ x y then negsuc 0 else pos 0)
  unfolding compare_scale4
  compare_scale4-from_scale4_big_int =
      rw (to_scale4_big_int-from_scale4_big_int x, to_scale4_big_int-from_scale4_big_int y)
        (ap ok (grind int_laws))

  pub is_positive_scale4-from_scale4_big_int :
      is_positive_scale4 (from_scale4_big_int x) ≡ ok (ltb_ℤ (pos 0) x)
  unfolding is_positive_scale4
  is_positive_scale4-from_scale4_big_int = rw (to_scale4_big_int-from_scale4_big_int x) refl
