-- ===== src/Money/Round.antt =====
-- Half away from zero: what `round_div` of money.ts rounds to.
use native.Mathlib.Nat.{div-add-mod', div-eq_of_lt, div-eq_of_lt-le, mod-lt, zero-add}
use tridentpos.Prelude.{
  ℤ, pos, ℕ, zero, suc, ◌+◌, ◌*◌, ◌/◌, ◌%◌, ◌≤◌, ◌<◌, ◌≡◌, refl, ap, xor, negsuc, arith, mag,
  is_neg, neg, signed, mag-signed, leb, eq_ℤ, if◌then◌else◌, ◌*ℤ◌,
}
use tridentpos.Money.{
  ok, err, ◌>>=◌, division_by_zero, scale_factor, round_quotient, round_div,
  calculate_line_subtotal, calculate_tax_amount,
}

-- The independent description: the truncated quotient, one more if the rest is half the divisor or
-- above, with the sign of the exact quotient.
unfoldable pub half_away : ℕ → ℕ → ℕ
half_away m n = if leb n (2 * (m % n)) then m / n + 1 else m / n

module _ (m n : ℕ) (h : 0 < n) where
  up_bounds : n ≤ 2 * (m % n) → (m + n / 2) / n ≡ m / n + 1
  up_bounds le =
      div-eq_of_lt-le n (omega (arith, div-add-mod' m n, mod-lt m h))
        (omega (arith, div-add-mod' m n, mod-lt m h))

  down_bounds : 2 * (m % n) < n → (m + n / 2) / n ≡ m / n
  down_bounds lt =
      div-eq_of_lt-le n (omega (arith, div-add-mod' m n, mod-lt m h))
        (omega (arith, div-add-mod' m n, mod-lt m h))

  -- Adding half the divisor first and truncating is rounding half up.
  div_shift : (m + n / 2) / n ≡ half_away m n
  unfolding half_away
  div_shift = ground (arith, up_bounds, down_bounds)

-- Twice the rounding error is at most the divisor.
half_away_error :
    (m n : ℕ)
    → 0 < n
    → (2 * (half_away m n * n) ≤ 2 * m + n) × (2 * m ≤ 2 * (half_away m n * n) + n)
unfolding half_away
half_away_error m n h = grind (arith, div-add-mod' m n, mod-lt m h)

pub round_quotient-half_away :
    (a b : ℤ)
    → 0 < mag b
    → round_quotient a b ≡ signed (xor (is_neg a) (is_neg b)) (half_away (mag a) (mag b))
unfolding round_quotient
round_quotient-half_away a b h = ap (signed _) (div_shift (mag a) (mag b) h)

-- `round_div` refuses a divisor of zero, and for any other divisor returns the quotient of the
-- magnitudes, rounded to the nearest integer with halves upwards, under the sign of the quotient.
pub round_div-half_away :
    (a b : ℤ)
    → round_div a b ≡ (
        if eq_ℤ b (pos 0)
        then err division_by_zero
        else ok (signed (xor (is_neg a) (is_neg b)) (half_away (mag a) (mag b))))
unfolding round_div
round_div-half_away a (pos zero) = refl
round_div-half_away a (pos (suc n)) =
    ground (arith, round_quotient-half_away a (pos (suc n)) (omega arith))
round_div-half_away a (negsuc n) =
    ground (arith, round_quotient-half_away a (negsuc n) (omega arith))

round_div_ok :
    (a b : ℤ) {q : ℤ}
    → round_div a b ≡ ok q
    → (0 < mag b) × (q ≡ signed (xor (is_neg a) (is_neg b)) (half_away (mag a) (mag b)))
unfolding round_div
round_div_ok a (pos zero) e = absurd (cc)
round_div_ok a (pos (suc n)) e =
    (omega arith, ground (arith, round_quotient-half_away a (pos (suc n)) (omega arith)))
round_div_ok a (negsuc n) e =
    (omega arith, ground (arith, round_quotient-half_away a (negsuc n) (omega arith)))

-- A result q of `round_div a b` differs from a / b by at most one half: the sizes of q * b and of a
-- are at most half the size of b apart.
round_div_error :
    (a b : ℤ) {q : ℤ}
    → round_div a b ≡ ok q
    → (2 * (mag q * mag b) ≤ 2 * mag a + mag b) × (2 * mag a ≤ 2 * (mag q * mag b) + mag b)
round_div_error a b e =
    let (h, same) = round_div_ok a b e in rw (same, mag-signed) (half_away_error (mag a) (mag b) h)

half_below : (n : ℕ) → (n / 2) / n ≡ 0
half_below zero = refl
half_below (suc n) = div-eq_of_lt (omega arith)

round_quotient-neg : (a b : ℤ) → round_quotient (neg a) b ≡ neg (round_quotient a b)
unfolding round_quotient neg signed xor
round_quotient-neg (pos zero) b = rw (zero-add, half_below) (ground arith)
round_quotient-neg (pos (suc n)) b = ground arith
round_quotient-neg (negsuc n) b = ground arith

-- Rounding is odd: negating the dividend negates the result, and the error case stays.
pub round_div-neg : (a b : ℤ) → round_div (neg a) b ≡ (round_div a b >>= λ q. ok (neg q))
unfolding round_div
round_div-neg a b = ground (arith, round_quotient-neg a b)

-- The two line calculations are `round_div` by the scale factor, whose guard cannot fail there.
pub line_calculations_total :
    (x y : ℤ)
    → (round_div (x *ℤ y) scale_factor ≡ ok (calculate_line_subtotal x y))
      × (round_div (x *ℤ y) scale_factor ≡ ok (calculate_tax_amount x y))
unfolding round_div calculate_line_subtotal calculate_tax_amount
line_calculations_total x y = (refl, refl)
