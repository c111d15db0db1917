-- ===== src/Money/Decimal/Plain.antt =====
-- Decimal texts have no white space, so that `trim` leaves them.
use mathlib.Core.List.{reverse, reverse_aux, reverse-reverse}
use tridentpos.Prelude.{
  ℕ, ℤ, pos, negsuc, ◌≡◌, refl, arith, true, false, [], ◌∷◌, ◌++◌, Text, is_digit, is_white, trim,
  trim_start, mag, ◌/◌, ◌%◌,
}
use tridentpos.Money.Decimal.{number_to_string, scaled_to_decimal_string}
use tridentpos.Money.Decimal.Digits.{AllDigits, number_to_string-AllDigits, padded_fraction}
use tridentpos.Money.Decimal.RoundTrip.{unsigned_text, scaled_to_decimal_string-cases}

-- A text without white space.
abbrev pub AllPlain : Text → Type 0
AllPlain [] = Unit
AllPlain (c ∷ s) = (is_white c ≡ false) × AllPlain s

trim_start-AllPlain : (s : Text) → AllPlain s → trim_start s ≡ s
unfolding trim_start
trim_start-AllPlain [] h = refl
trim_start-AllPlain (c ∷ s) h = rw h.0 refl

reverse_aux-AllPlain : (s t : Text) → AllPlain s → AllPlain t → AllPlain (reverse_aux s t)
reverse_aux-AllPlain [] t h k = k
reverse_aux-AllPlain (c ∷ s) t h k = reverse_aux-AllPlain s (c ∷ t) h.1 (h.0, k)

pub trim-AllPlain : (s : Text) → AllPlain s → trim s ≡ s
unfolding trim
trim-AllPlain s h =
    rw (trim_start-AllPlain s h, trim_start-AllPlain (reverse s) (reverse_aux-AllPlain s [] h tt))
      (reverse-reverse s)

append-AllPlain : (s t : Text) → AllPlain s → AllPlain t → AllPlain (s ++ t)
append-AllPlain [] t h k = k
append-AllPlain (c ∷ s) t h k = (h.0, append-AllPlain s t h.1 k)

digit_plain : (c : ℕ) → is_digit c ≡ true → is_white c ≡ false
unfolding is_digit is_white
digit_plain c h = ground arith

pub AllDigits-AllPlain : (s : Text) → AllDigits s → AllPlain s
AllDigits-AllPlain [] h = tt
AllDigits-AllPlain (c ∷ s) h = (digit_plain c h.0, AllDigits-AllPlain s h.1)

pub unsigned_text-AllPlain : (m : ℕ) → AllPlain (unsigned_text m)
unfolding unsigned_text is_white
unsigned_text-AllPlain m =
    let (fraction, four, value) = padded_fraction (m % 10000) (omega arith) in
    append-AllPlain (number_to_string (m / 10000)) _
      (AllDigits-AllPlain _ (number_to_string-AllDigits (m / 10000)))
      (refl, AllDigits-AllPlain _ fraction)

scaled_to_decimal_string-AllPlain : (z : ℤ) → AllPlain (scaled_to_decimal_string z)
unfolding is_white
scaled_to_decimal_string-AllPlain (pos m) =
    rw (scaled_to_decimal_string-cases (pos m)) (unsigned_text-AllPlain (mag (pos m)))
scaled_to_decimal_string-AllPlain (negsuc m) =
    rw (scaled_to_decimal_string-cases (negsuc m)) (refl, unsigned_text-AllPlain (mag (negsuc m)))

pub trim-scaled_to_decimal_string :
    (z : ℤ) → trim (scaled_to_decimal_string z) ≡ scaled_to_decimal_string z
trim-scaled_to_decimal_string z = trim-AllPlain _ (scaled_to_decimal_string-AllPlain z)
