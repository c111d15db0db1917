-- ===== src/Crm/Promotions/Bounds.antt =====
-- How much a promotion of packages/crm/src/loyalty-engine.ts takes off a ticket.
use native.Mathlib.Nat.{mul-le-mul_left}
use native.Mathlib.Numerals.{unary_clauses}
use tridentpos.Prelude.{
  ℕ, ◌*◌, ◌/◌, ◌≤◌, pos, ◌*ℤ◌, ◌/ℤ◌, ◌≡◌, refl, ap, ◌∙◌, arith, Option, codes, if◌then◌else◌,
  Option-cases, inl, inr, ltb, signed, xor,
}
use tridentpos.Prelude.Fallible.{ok}
use tridentpos.Money.Decimal.{scaled_to_decimal_string, number_to_string, pad_start, to_digits}
use tridentpos.Crm.Numerics.{from_scale4_big_int, multiply_scale4, divide_scale4}
use tridentpos.Crm.Numerics.RoundTrip.{
  to_scale4_big_int-from_scale4_big_int, compare_scale4-from_scale4_big_int,
}
use tridentpos.Crm.Loyalty.{zero_text}
use tridentpos.Crm.Promotions.{
  PromotionType, percentage, fixed_amount, birthday, percentage_of, capped_amount, discount_of,
  birthday_amount, Promotion, Evaluation, evaluated, evaluate_promotion, promotion_refusal, applied,
  refused,
}

hundred : codes "100.0000" ≡ from_scale4_big_int (pos 1000000)
unfolding from_scale4_big_int scaled_to_decimal_string number_to_string pad_start to_digits
hundred = refl

pos_times : (a b : ℕ) → pos a *ℤ pos b ≡ pos (a * b)
unfolding ◌*ℤ◌
pos_times a b = simp unary_clauses (ground arith)

pos_over : (a b : ℕ) → pos a /ℤ pos b ≡ pos (a / b)
unfolding ◌/ℤ◌ signed xor
pos_over a b = simp unary_clauses refl

divide_lem :
    (v : ℕ)
    → divide_scale4 (from_scale4_big_int (pos v)) (codes "100.0000")
      ≡ ok (from_scale4_big_int (pos (v / 100)))
unfolding divide_scale4
divide_lem v =
    rw
      (
        hundred,
        to_scale4_big_int-from_scale4_big_int (pos v),
        to_scale4_big_int-from_scale4_big_int (pos 1000000),
      )
      (ap (λ k. ok (from_scale4_big_int k))
        (ap (λ k. k /ℤ pos 1000000) (pos_times v 10000)
          ∙ pos_over (v * 10000) 1000000
          ∙ ap pos (omega arith)))

multiply_lem :
    (t r : ℕ)
    → multiply_scale4 (from_scale4_big_int (pos t)) (from_scale4_big_int (pos r))
      ≡ ok (from_scale4_big_int (pos (t * r / 10000)))
unfolding multiply_scale4
multiply_lem t r =
    rw
      (to_scale4_big_int-from_scale4_big_int (pos t), to_scale4_big_int-from_scale4_big_int (pos r))
      (ap (λ k. ok (from_scale4_big_int k))
        (ap (λ k. k /ℤ pos 10000) (pos_times t r) ∙ pos_over (t * r) 10000))

percentage_lem :
    (v t : ℕ)
    → percentage_of (from_scale4_big_int (pos v)) (from_scale4_big_int (pos t))
      ≡ ok (from_scale4_big_int (pos (t * (v / 100) / 10000)))
unfolding percentage_of
percentage_lem v t = rw (divide_lem v) (multiply_lem t (v / 100))

-- A part of at most the whole.
part_of_whole : (t r : ℕ) → r ≤ 10000 → t * r / 10000 ≤ t
part_of_whole t r h = let k : t * r ≤ t * 10000 = mul-le-mul_left t h in omega arith

capped_lem :
    (v t : ℕ)
    → capped_amount (from_scale4_big_int (pos v)) (from_scale4_big_int (pos t))
      ≡ ok (from_scale4_big_int (pos (if ltb v t then v else t)))
unfolding capped_amount
capped_lem v t = rw (compare_scale4-from_scale4_big_int (pos t) (pos v)) (ap ok (ground arith))

-- The discounts that stay within the ticket: a percentage of at most a hundred, on a birthday as well,
-- and a fixed amount of whatever size.
pub data Fair : PromotionType → ℕ → Type 0 where
  share : (v : ℕ) → v ≤ 1000000 → Fair percentage v
  amount : (v : ℕ) → Fair fixed_amount v
  birthday_share : (v : ℕ) → v ≤ 1000000 → Fair birthday v

discount_within :
    (kind : PromotionType) (v t : ℕ)
    → Fair kind v
    → (d : ℕ) × (discount_of kind (from_scale4_big_int (pos v)) (from_scale4_big_int (pos t))
        ≡ ok (from_scale4_big_int (pos d)))
      × (d ≤ t)
unfolding discount_of birthday_amount
discount_within _ v t (share _ h) = (_, percentage_lem v t, part_of_whole t (v / 100) (omega arith))
discount_within _ v t (amount _) = (_, capped_lem v t, ground arith)
discount_within _ v t (birthday_share _ h) = (
  _,
  rw (hundred, compare_scale4-from_scale4_big_int (pos v) (pos 1000000))
      (ground (arith, percentage_lem v t)),
  part_of_whole t (v / 100) (omega arith),
)

zero_text_lem : zero_text ≡ from_scale4_big_int (pos 0)
unfolding from_scale4_big_int scaled_to_decimal_string number_to_string pad_start to_digits
zero_text_lem = refl

-- A promotion by a percentage of at most a hundred, on a birthday or not, or by a fixed amount is
-- evaluated without an error on every ticket, and takes off at most the whole of the ticket.
pub evaluate_promotion_bounded :
    (p : Promotion) (birth_month : Option ℕ) (day month v t : ℕ)
    → p.discount_value ≡ from_scale4_big_int (pos v)
    → Fair p.promo_type v
    → (e : Evaluation) × (d : ℕ) × (evaluate_promotion p birth_month day month
          (from_scale4_big_int (pos t))
        ≡ ok e)
      × (e.discount_amount ≡ from_scale4_big_int (pos d))
      × (d ≤ t)
unfolding evaluate_promotion
evaluate_promotion_bounded p birth_month day month v t value fair =
    let (d, found, small) = discount_within p.promo_type v t fair in
    let discount =
      ap (λ s. discount_of p.promo_type s (from_scale4_big_int (pos t))) value ∙ found in
    elim (Option-cases (promotion_refusal p birth_month day month)) [
      | inl taken ↦ (
        applied (from_scale4_big_int (pos d)),
        d,
        ap (evaluated p (from_scale4_big_int (pos t))) taken ∙ rw discount refl,
        refl,
        small,
      )
      | inr (r, why) ↦ (
        refused r,
        0,
        ap (evaluated p (from_scale4_big_int (pos t))) why,
        zero_text_lem,
        omega arith,
      )
    ]
