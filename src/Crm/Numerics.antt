-- ===== src/Crm/Numerics.antt =====
-- Amounts as texts by packages/crm/src/numerics.ts. Unlike money.ts it takes any text that `BigInt` takes
-- part by part, and it truncates.
pub mod RoundTrip
use tridentpos.Prelude.{
  ℕ, ◌-◌, ℤ, pos, ◌+ℤ◌, ◌-ℤ◌, ◌*ℤ◌, ◌/ℤ◌, neg, Bool, true, false, ◌&&◌, List, [], ◌∷◌, ◌++◌, Text,
  trim, is_digit, length, replicate, ltb_ℤ, eq_ℤ, ◌==◌, if◌then◌else◌, codes,
}
use tridentpos.Prelude.Fallible.{Fallible, ok, err, ◌>>=◌, ◌>>◌, raise_if}
use tridentpos.Money.Decimal.{
  digits_value, scaled_to_decimal_string, starts_minus, drop_minus, whole_part, fraction_part,
}
use tridentpos.Crm.{Crm, syntax_error, division_by_zero}

unfoldable pub only_digits : Text → Bool
unfolding is_digit
only_digits [] = true
only_digits (c ∷ s) = is_digit c && only_digits s

abbrev pub digits_number : Text → Crm ℕ
digits_number [] = err syntax_error
digits_number (c ∷ s) =
    if only_digits (c ∷ s) then ok (digits_value 0 (c ∷ s)) else err syntax_error

-- A text without white space around it: an optional sign and digits, or nothing, which is zero.
unfoldable pub signed_number : Text → Crm ℤ
signed_number [] = ok (pos 0)
signed_number (c ∷ s) =
    if c == b'-'
    then digits_number s >>= (λ n. ok (neg (pos n)))
    else if c == b'+'
    then digits_number s >>= (λ n. ok (pos n))
    else digits_number (c ∷ s) >>= (λ n. ok (pos n))

-- `BigInt(text)` for decimal texts. The prefixes 0x, 0o and 0b are refused here.
unfoldable pub big_int : Text → Crm ℤ
big_int s = signed_number (trim s)

-- `s.padEnd(4, '0').slice(0, 4)`
abbrev pub first_four : Text → Text
first_four (a ∷ b ∷ c ∷ d ∷ s) = a ∷ b ∷ c ∷ d ∷ []
first_four s = s ++ replicate (4 - length s) b'0'

unfoldable pub to_scale4_big_int : Text → Crm ℤ
to_scale4_big_int val = do
  let trimmed = trim val
  let clean = drop_minus trimmed
  whole ← big_int (whole_part clean)
  fraction ← big_int (first_four (whole_part (fraction_part clean)))
  let total = whole *ℤ pos 10000 +ℤ fraction
  ok (if starts_minus trimmed then neg total else total)

-- The same steps as `scaledBigIntToDecimalString`.
unfoldable pub from_scale4_big_int : ℤ → Text
from_scale4_big_int units = scaled_to_decimal_string units

unfoldable pub add_scale4 : Text → Text → Crm Text
add_scale4 a b = do
  x ← to_scale4_big_int a
  y ← to_scale4_big_int b
  ok (from_scale4_big_int (x +ℤ y))

unfoldable pub sub_scale4 : Text → Text → Crm Text
sub_scale4 a b = do
  x ← to_scale4_big_int a
  y ← to_scale4_big_int b
  ok (from_scale4_big_int (x -ℤ y))

-- The sign of the difference.
unfoldable pub compare_scale4 : Text → Text → Crm ℤ
compare_scale4 a b = do
  x ← to_scale4_big_int a
  y ← to_scale4_big_int b
  let diff = x -ℤ y
  ok (if ltb_ℤ (pos 0) diff then pos 1 else if ltb_ℤ diff (pos 0) then ℤ.negsuc 0 else pos 0)

unfoldable pub is_zero_scale4 : Text → Crm Bool
is_zero_scale4 a = do x ← to_scale4_big_int a; ok (eq_ℤ x (pos 0))

unfoldable pub is_positive_scale4 : Text → Crm Bool
is_positive_scale4 a = do x ← to_scale4_big_int a; ok (ltb_ℤ (pos 0) x)

unfoldable pub multiply_scale4 : Text → Text → Crm Text
multiply_scale4 amount factor = do
  a ← to_scale4_big_int amount
  f ← to_scale4_big_int factor
  ok (from_scale4_big_int (a *ℤ f /ℤ pos 10000))

unfoldable pub divide_scale4 : Text → Text → Crm Text
divide_scale4 amount divisor = do
  a ← to_scale4_big_int amount
  d ← to_scale4_big_int divisor
  raise_if (eq_ℤ d (pos 0)) division_by_zero
  ok (from_scale4_big_int (a *ℤ pos 10000 /ℤ d))

unfoldable pub abs_scale4 : Text → Crm Text
abs_scale4 val = do
  big ← to_scale4_big_int val
  ok (from_scale4_big_int (if ltb_ℤ big (pos 0) then neg big else big))
