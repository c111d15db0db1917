-- ===== src/Edge/Epoch.antt =====
-- The epochs of folio leases: packages/core/src/folio-contracts.ts. An epoch is a text `ep_<number>`.
use tridentpos.Prelude.{
  ℕ, zero, suc, ◌+◌, ◌/◌, ◌%◌, ◌≤◌, ◌<◌, ◌≡◌, refl, ◌∙◌, arith, ℤ, pos, ◌-ℤ◌, Bool, true, false,
  ◌&&◌, ◌||◌, Option, none, some, [], ◌∷◌, Text, is_digit, leb, ltb, ◌==◌, if◌then◌else◌,
  Bool-cases, inl, inr, int_laws,
}
use tridentpos.Prelude.Fallible.{Fallible, ok, err, ◌>>=◌}
use tridentpos.Money.Decimal.{number_to_string, digits_value, to_digits}
use tridentpos.Money.Decimal.Digits.{AllDigits, digits_value-number_to_string}

pub data EpochError : Type 0 where
  malformed_epoch invalid_epoch_number : EpochError

-- `Number.MAX_SAFE_INTEGER`
abbrev pub max_safe_integer : ℕ
max_safe_integer = 9_007_199_254_740_991

unfoldable pub all_digits : Text → Bool
unfolding is_digit
all_digits [] = true
all_digits (c ∷ s) = is_digit c && all_digits s

-- `EPOCH_REGEX.test`: `^ep_([1-9]\d*)$`
unfoldable pub is_valid_epoch_id : Text → Bool
unfolding all_digits
is_valid_epoch_id (e ∷ p ∷ u ∷ d ∷ s) =
    e == b'e' && (p == b'p' && (u == b'_' && (leb b'1' d && (leb d b'9' && all_digits s))))
is_valid_epoch_id _ = false

-- The number of the digits behind the prefix.
unfoldable pub epoch_digits_value : Text → ℕ
unfolding digits_value
epoch_digits_value (e ∷ p ∷ u ∷ s) = digits_value 0 s
epoch_digits_value _ = 0

-- `parseInt` rounds a number above the safe ones to another such number, which is refused too.
unfoldable pub parse_epoch_number : Text → Fallible EpochError ℕ
unfolding is_valid_epoch_id epoch_digits_value
parse_epoch_number epoch_id =
    let num = epoch_digits_value epoch_id in
    if is_valid_epoch_id epoch_id
    then if ltb max_safe_integer num || num == 0 then err invalid_epoch_number else ok num
    else err malformed_epoch

unfoldable pub format_epoch_id : ℕ → Fallible EpochError Text
unfolding number_to_string
format_epoch_id n =
    if ltb max_safe_integer n || n == 0
    then err invalid_epoch_number
    else ok (b'e' ∷ b'p' ∷ b'_' ∷ number_to_string n)

unfoldable pub compare_epochs : Text → Text → Fallible EpochError ℤ
unfolding parse_epoch_number
compare_epochs a b = do
  num_a ← parse_epoch_number a
  num_b ← parse_epoch_number b
  ok (pos num_a -ℤ pos num_b)

unfoldable pub next_epoch_id : Option Text → Fallible EpochError Text
unfolding parse_epoch_number format_epoch_id
next_epoch_id none = ok (b'e' ∷ b'p' ∷ b'_' ∷ b'1' ∷ [])
next_epoch_id (some []) = ok (b'e' ∷ b'p' ∷ b'_' ∷ b'1' ∷ [])
next_epoch_id (some (c ∷ s)) = do
  current ← parse_epoch_number (c ∷ s)
  format_epoch_id (current + 1)

-- A positive number is written with a first digit that is not 0.
to_digits_first :
    (f n : ℕ) (out : Text)
    → n < suc f
    → 0 < n
    → AllDigits out
    → (d : ℕ) × (s : Text) × (to_digits (suc f) n out ≡ d ∷ s)
      × (leb b'1' d ≡ true)
      × (leb d b'9' ≡ true)
      × AllDigits s
unfolding to_digits is_digit
to_digits_first zero n out small positive digits = absurd (omega arith)
to_digits_first (suc f) n out small positive digits = elim (Bool-cases (ltb n 10)) [
  | inl one ↦ (b'0' + n, out, rw one refl, ground (arith, one), ground (arith, one), digits)
  | inr more ↦
      let digit : is_digit (b'0' + n % 10) ≡ true = ground arith in
      let (d, s, e, low, high, rest) =
        to_digits_first f (n / 10) ((b'0' + n % 10) ∷ out) (grind (arith, more))
          (ground (arith, more)) (digit, digits) in
      (d, s, rw more e, low, high, rest)
]

AllDigits-all_digits : (s : Text) → AllDigits s → all_digits s ≡ true
unfolding all_digits
AllDigits-all_digits [] h = refl
AllDigits-all_digits (c ∷ s) h = rw h.0 (AllDigits-all_digits s h.1)

epoch_text_valid :
    (n : ℕ) → 0 < n → is_valid_epoch_id (b'e' ∷ b'p' ∷ b'_' ∷ number_to_string n) ≡ true
unfolding is_valid_epoch_id number_to_string
epoch_text_valid n positive =
    let (d, s, e, low, high, rest) = to_digits_first n n [] (omega arith) positive tt in
    rw e (rw (low, high) (AllDigits-all_digits s rest))

-- An epoch that is written is read back as its number.
pub parse_epoch_number-format_epoch_id :
    (n : ℕ) {t : Text} → format_epoch_id n ≡ ok t → parse_epoch_number t ≡ ok n
unfolding format_epoch_id parse_epoch_number epoch_digits_value
parse_epoch_number-format_epoch_id n done =
    ground (arith, epoch_text_valid n, digits_value-number_to_string n)

format_epoch_id_ok :
    (n : ℕ)
    → 0 < n
    → n ≤ max_safe_integer
    → format_epoch_id n ≡ ok (b'e' ∷ b'p' ∷ b'_' ∷ number_to_string n)
unfolding format_epoch_id
format_epoch_id_ok n positive safe = ground arith

next_epoch_id_parsed :
    (prior : Text) {n : ℕ}
    → parse_epoch_number prior ≡ ok n
    → next_epoch_id (some prior) ≡ format_epoch_id (n + 1)
unfolding next_epoch_id parse_epoch_number
next_epoch_id_parsed [] parsed = absurd (ground arith)
next_epoch_id_parsed (c ∷ s) parsed = rw parsed refl

-- The epoch after an epoch compares as one greater, up to the last safe number.
pub compare_epochs-next_epoch_id :
    (prior : Text) (n : ℕ)
    → parse_epoch_number prior ≡ ok n
    → n < max_safe_integer
    → (t : Text) × (next_epoch_id (some prior) ≡ ok t) × (compare_epochs t prior ≡ ok (pos 1))
unfolding compare_epochs
compare_epochs-next_epoch_id prior n parsed safe =
    let t = b'e' ∷ b'p' ∷ b'_' ∷ number_to_string (n + 1) in
    let written = format_epoch_id_ok (n + 1) (omega arith) (omega arith) in
    let one : pos (n + 1) -ℤ pos n ≡ pos 1 = omega int_laws in
    (
      t,
      next_epoch_id_parsed prior parsed ∙ written,
      rw (parse_epoch_number-format_epoch_id (n + 1) written, parsed) (rw one refl),
    )
