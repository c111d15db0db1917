-- ===== src/Money/Decimal/Digits.antt =====
-- Decimal digits: `Number.prototype.toString` on a natural number, `BigInt` of a string of digits,
-- and `padStart`.
use native.Mathlib.Nat.{pow-suc}
use tridentpos.Prelude.{
  ℕ, zero, suc, ◌+◌, ◌-◌, ◌*◌, ◌/◌, ◌%◌, ◌^◌, ◌≤◌, ◌<◌, ◌≡◌, refl, true, [], ◌∷◌, ◌++◌, arith, Text,
  is_digit, length, length-append, length-replicate, replicate, ltb, if◌then◌else◌, Bool-cases, inl,
  inr, ltb→lt, ap, ◌∙◌,
}

-- The digits of n before `out`, most significant first; the fuel bounds their number.
unfoldable pub to_digits : ℕ → ℕ → Text → Text
to_digits zero n out = out
to_digits (suc f) n out =
    let more = to_digits f (n / 10) ((b'0' + n % 10) ∷ out) in
    if ltb n 10 then (b'0' + n) ∷ out else more

-- Fuel n + 1 is enough: each round divides n by ten.
unfoldable pub number_to_string : ℕ → Text
unfolding to_digits
number_to_string n = to_digits (suc n) n []

unfoldable pub digits_value : ℕ → Text → ℕ
digits_value acc [] = acc
digits_value acc (c ∷ s) = digits_value (acc * 10 + (c - b'0')) s

unfoldable pub pad_start : ℕ → ℕ → Text → Text
pad_start width fill s = replicate (width - length s) fill ++ s

pub digits_value-append :
    (acc : ℕ) (s t : Text) → digits_value acc (s ++ t) ≡ digits_value (digits_value acc s) t
unfolding digits_value
digits_value-append acc [] t = refl
digits_value-append acc (c ∷ s) t = digits_value-append (acc * 10 + (c - b'0')) s t

-- Leading zeros do not count.
pub digits_value-zeros :
    (k : ℕ) (s : Text) → digits_value 0 (replicate k b'0' ++ s) ≡ digits_value 0 s
unfolding digits_value
digits_value-zeros zero s = refl
digits_value-zeros (suc k) s = digits_value-zeros k s

-- With enough fuel, the digits written before `out` make the value n.
pub digits_value-to_digits :
    (f n : ℕ) (out : Text) → n < f → digits_value 0 (to_digits f n out) ≡ digits_value n out
unfolding to_digits digits_value
digits_value-to_digits zero n out h = elim h [ ]
digits_value-to_digits (suc f) n out h = elim (Bool-cases (ltb n 10)) [
  | inl one ↦ rw one (ap (λ k. digits_value k out) (omega arith))
  | inr more ↦ rw more (
      digits_value-to_digits f (n / 10) ((b'0' + n % 10) ∷ out) (grind (arith, more))
      ∙ ap (λ k. digits_value k out) (omega arith))
]

abbrev pub AllDigits : Text → Type 0
AllDigits [] = Unit
AllDigits (c ∷ s) = (is_digit c ≡ true) × AllDigits s

digit_code : (d : ℕ) → d < 10 → is_digit (b'0' + d) ≡ true
unfolding is_digit
digit_code d h = ground arith

pub to_digits-AllDigits : (f n : ℕ) (out : Text) → AllDigits out → AllDigits (to_digits f n out)
unfolding to_digits
to_digits-AllDigits zero n out h = h
to_digits-AllDigits (suc f) n out h = elim (Bool-cases (ltb n 10)) [
  | inl one ↦ rw one (digit_code n (ltb→lt n 10 one), h)
  | inr more ↦ rw more (to_digits-AllDigits f (n / 10) _ (digit_code (n % 10) (omega arith), h))
]

shorter : (k n : ℕ) → n < 10 ^ suc (suc k) → n / 10 < 10 ^ suc k
shorter k n h = omega (arith, pow-suc 10 (suc k))

-- A number below 10 ^ k has at most k digits (k at least 1).
pub length-to_digits :
    (f k n : ℕ) (out : Text) → n < 10 ^ suc k → length (to_digits f n out) ≤ suc k + length out
unfolding to_digits
length-to_digits zero k n out h = omega arith
length-to_digits (suc f) zero n out h = ground arith
length-to_digits (suc f) (suc k) n out h = elim (Bool-cases (ltb n 10)) [
  | inl one ↦ rw one (omega arith)
  | inr more ↦
      rw more (omega (arith, length-to_digits f k (n / 10) ((b'0' + n % 10) ∷ out) (shorter k n h)))
]

to_digits_cons : (f n : ℕ) (out : Text) → (c : ℕ) × (s : Text) × (to_digits (suc f) n out ≡ c ∷ s)
unfolding to_digits
to_digits_cons zero n out = elim (Bool-cases (ltb n 10)) [
  | inl one ↦ (b'0' + n, out, rw one)
  | inr more ↦ (b'0' + n % 10, out, rw more)
]
to_digits_cons (suc f) n out = elim (Bool-cases (ltb n 10)) [
  | inl one ↦ (b'0' + n, out, rw one)
  | inr more ↦
      let (c, s, e) = to_digits_cons f (n / 10) ((b'0' + n % 10) ∷ out) in (c, s, rw more e)
]

-- A number is never written as the empty string.
pub number_to_string_cons : (n : ℕ) → (c : ℕ) × (s : Text) × (number_to_string n ≡ c ∷ s)
unfolding number_to_string
number_to_string_cons n = to_digits_cons n n []

pub number_to_string-AllDigits : (n : ℕ) → AllDigits (number_to_string n)
unfolding number_to_string
number_to_string-AllDigits n = to_digits-AllDigits (suc n) n [] tt

pub digits_value-number_to_string : (n : ℕ) → digits_value 0 (number_to_string n) ≡ n
unfolding number_to_string digits_value
digits_value-number_to_string n = digits_value-to_digits (suc n) n [] (omega arith)

replicate-AllDigits : (k : ℕ) (s : Text) → AllDigits s → AllDigits (replicate k b'0' ++ s)
unfolding is_digit
replicate-AllDigits zero s h = h
replicate-AllDigits (suc k) s h = (refl, replicate-AllDigits k s h)

-- Padding to four places: four digits, of the same value.
pub padded_fraction :
    (n : ℕ)
    → n < 10000
    → let s = pad_start 4 b'0' (number_to_string n) in
      AllDigits s × (length s ≡ 4) × (digits_value 0 s ≡ n)
unfolding pad_start number_to_string
padded_fraction n h =
    let short = length-to_digits (suc n) 3 n [] h in
    let s = to_digits (suc n) n [] in
    (
      replicate-AllDigits (4 - length s) s (to_digits-AllDigits (suc n) n [] tt),
      omega (
        arith,
        short,
        length-append (replicate (4 - length s) b'0') s,
        length-replicate {A = ℕ} (4 - length s) b'0',
      ),
      digits_value-zeros (4 - length s) s ∙ digits_value-number_to_string n,
    )
