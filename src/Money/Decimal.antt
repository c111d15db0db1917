-- ===== src/Money/Decimal.antt =====
-- The decimal strings of money.ts: `scaledBigIntToDecimalString` and `decimalStringToScaledBigInt`.
pub mod Digits
pub mod RoundTrip
pub mod Plain
unfoldable pub use Digits.{to_digits, number_to_string, digits_value, pad_start}
use tridentpos.Prelude.{
  ℤ, pos, ℕ, suc, ◌/◌, ◌%◌, Bool, true, false, ◌&&◌, List, [], ◌∷◌, ◌++◌, Text, is_digit, is_neg,
  mag, neg, leb, ◌==◌, if◌then◌else◌, ◌+ℤ◌, ◌*ℤ◌, ltb_ℤ, ◌||◌,
}
use tridentpos.Money.{
  Result, ok, err, invalid_format, range_exceeded, scale_factor, min_scale4, max_scale4,
}

unfoldable pub scaled_to_decimal_string : ℤ → Text
scaled_to_decimal_string scaled =
    let sign = if is_neg scaled then b'-' ∷ [] else [] in
    let abs = mag scaled in
    let whole = abs / 10000 in
    let fraction = abs % 10000 in
    sign ++ (number_to_string whole ++ (b'.' ∷ pad_start 4 b'0' (number_to_string fraction)))

-- `\d{4}$`
unfoldable pub four_digits : Text → Bool
unfolding is_digit
four_digits (a ∷ b ∷ c ∷ d ∷ []) = is_digit a && (is_digit b && (is_digit c && is_digit d))
four_digits _ = false

-- `\d*\.\d{4}$`
unfoldable pub digits_then_fraction : Text → Bool
unfolding is_digit
digits_then_fraction [] = false
digits_then_fraction (c ∷ s) =
    let rest = digits_then_fraction s in if is_digit c then rest else c == b'.' && four_digits s

-- `\d+\.\d{4}$`
unfoldable pub unsigned_decimal : Text → Bool
unfolding is_digit
unsigned_decimal [] = false
unsigned_decimal (c ∷ s) = is_digit c && digits_then_fraction s

-- `str.startsWith('-')`
unfoldable pub starts_minus : Text → Bool
starts_minus [] = false
starts_minus (c ∷ s) = c == b'-'

-- `isNegative ? str.slice(1) : str`
unfoldable pub drop_minus : Text → Text
drop_minus [] = []
drop_minus (c ∷ s) = if c == b'-' then s else c ∷ s

-- `DECIMAL_STRING_REGEX.test`: an optional sign, and `unsigned_decimal`, which no `-` begins.
unfoldable pub is_decimal_string : Text → Bool
is_decimal_string s = unsigned_decimal (drop_minus s)

-- `clean.slice(0, dotIndex)` and `clean.slice(dotIndex + 1)` with `dotIndex = clean.indexOf('.')`
unfoldable pub whole_part : Text → Text
whole_part [] = []
whole_part (c ∷ s) = let rest = whole_part s in if c == b'.' then [] else c ∷ rest

unfoldable pub fraction_part : Text → Text
fraction_part [] = []
fraction_part (c ∷ s) = let rest = fraction_part s in if c == b'.' then s else rest

-- The value before the range check.
unfoldable pub unchecked_value : Text → ℤ
unchecked_value str =
    let clean = drop_minus str in
    let scaled =
      pos (digits_value 0 (whole_part clean)) *ℤ scale_factor
      +ℤ pos (digits_value 0 (fraction_part clean)) in
    if starts_minus str then neg scaled else scaled

unfoldable pub decimal_string_to_scaled : Text → Result ℤ
decimal_string_to_scaled str =
    let result = unchecked_value str in
    if is_decimal_string str
    then if ltb_ℤ result min_scale4 || ltb_ℤ max_scale4 result
      then err range_exceeded
      else ok result
    else err invalid_format
