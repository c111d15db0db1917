-- ===== src/Pos/Totals/Sums.antt =====
-- The totals of an account against plain sums over its lines.
use tridentpos.Prelude.{
  ℤ, pos, ◌+ℤ◌, ◌-ℤ◌, ◌≡◌, refl, ◌∙◌, ap, List, [], ◌∷◌, map, keep_if, not, arith, int_laws,
  if◌then◌else◌, pos_zero-+ℤ, +ℤ_assoc, Bool-cases, inl, inr,
}
use tridentpos.Money.{calculate_net_subtotal, calculate_line_total}
use tridentpos.Pos.Types.{CuentaItem, is_cancelado}
use tridentpos.Pos.Totals.{
  calculate_item_financials, recalculate_cuenta_totals, Accumulators, add_line, add_lines, no_lines,
}

abbrev pub sum : List ℤ → ℤ
sum [] = pos 0
sum (x ∷ xs) = x +ℤ sum xs

-- The lines that are not cancelled.
abbrev pub active_items : List CuentaItem → List CuentaItem
active_items = keep_if λ i. not (is_cancelado i.status)

abbrev pub sum_of : (CuentaItem → ℤ) → List CuentaItem → ℤ
sum_of f items = sum (map f (active_items items))

pub sum_of-cons :
    (f : CuentaItem → ℤ) (i : CuentaItem) (items : List CuentaItem)
    → sum_of f (i ∷ items)
      ≡ (if is_cancelado i.status then sum_of f items else f i +ℤ sum_of f items)
sum_of-cons f i items = elim (Bool-cases (is_cancelado i.status)) [
  | inl gone ↦ rw gone
  | inr kept ↦ rw kept
]

-- An amount that each line which is not cancelled adds to: the loop adds up exactly these.
module _ (part : Accumulators → ℤ) (f : CuentaItem → ℤ)
    (adds : (acc : Accumulators) (i : CuentaItem)
      → part (add_line acc i) ≡ (if is_cancelado i.status then part acc else part acc +ℤ f i)) where
  add_lines_sum :
      (acc : Accumulators) (items : List CuentaItem)
      → part (add_lines acc items) ≡ part acc +ℤ sum_of f items
  unfolding add_lines
  add_lines_sum acc [] = omega int_laws
  add_lines_sum acc (i ∷ items) = elim (Bool-cases (is_cancelado i.status)) [
    | inl gone ↦
        rw (add_lines_sum (add_line acc i) items, adds acc i, sum_of-cons f i items, gone) refl
    | inr kept ↦
        rw (add_lines_sum (add_line acc i) items, adds acc i, sum_of-cons f i items, kept)
          (+ℤ_assoc (part acc) (f i) (sum_of f items))
  ]

-- The loop returns the plain sums over the lines that are not cancelled, with the tips on top of the
-- total.
pub recalculate-sums :
    (items : List CuentaItem) (tips : ℤ)
    → let t = recalculate_cuenta_totals items tips in
      (t.subtotal ≡ sum_of (λ i. i.subtotal) items)
      × (t.tax_total ≡ sum_of (λ i. i.tax_amount_applied) items)
      × (t.discounts_total ≡ sum_of (λ i. i.discount_amount_applied) items)
      × (t.total_amount ≡ sum_of (λ i. i.total) items +ℤ tips)
unfolding recalculate_cuenta_totals add_line
recalculate-sums items tips = (
  add_lines_sum (λ a. a.subtotal) (λ i. i.subtotal) (λ acc i. ground arith) no_lines items
      ∙ pos_zero-+ℤ _,
  add_lines_sum (λ a. a.tax_total) (λ i. i.tax_amount_applied) (λ acc i. ground arith) no_lines
        items
      ∙ pos_zero-+ℤ _,
  add_lines_sum (λ a. a.discounts_total) (λ i. i.discount_amount_applied) (λ acc i. ground arith)
        no_lines items
      ∙ pos_zero-+ℤ _,
  ap (λ t. t +ℤ tips)
      (add_lines_sum (λ a. a.line_total_sum) (λ i. i.total) (λ acc i. ground arith) no_lines items
        ∙ pos_zero-+ℤ _),
)

-- A line whose total is its subtotal less the discount plus the tax.
abbrev pub IsPriced : CuentaItem → Type 0
IsPriced i = i.total ≡ i.subtotal -ℤ i.discount_amount_applied +ℤ i.tax_amount_applied

abbrev pub AllPriced : List CuentaItem → Type 0
AllPriced [] = Unit
AllPriced (i ∷ items) = IsPriced i × AllPriced items

sum_of_priced :
    (items : List CuentaItem)
    → AllPriced items
    → sum_of (λ i. i.total) items
      ≡ sum_of (λ i. i.subtotal) items
        -ℤ sum_of (λ i. i.discount_amount_applied) items
        +ℤ sum_of (λ i. i.tax_amount_applied) items
sum_of_priced [] h = omega int_laws
sum_of_priced (i ∷ items) (h, hs) = elim (Bool-cases (is_cancelado i.status)) [
  | inl gone ↦ rw gone (sum_of_priced items hs)
  | inr kept ↦ rw (kept, h, sum_of_priced items hs) (omega int_laws)
]

-- Where every line is priced, an account's total is its subtotal less the discounts, plus the taxes
-- and the tips.
pub recalculate_identity :
    (items : List CuentaItem) (tips : ℤ)
    → AllPriced items
    → let t = recalculate_cuenta_totals items tips in
      t.total_amount ≡ t.subtotal -ℤ t.discounts_total +ℤ t.tax_total +ℤ tips
recalculate_identity items tips h =
    let (s, x, d, t) = recalculate-sums items tips in rw (s, x, d, t, sum_of_priced items h) refl

-- The figures that the code computes for a line are priced.
pub calculate_item_financials_priced :
    (price quantity rate discount : ℤ)
    → let f = calculate_item_financials price quantity rate discount in
      f.total ≡ f.subtotal -ℤ discount +ℤ f.tax_amount
unfolding calculate_item_financials calculate_net_subtotal calculate_line_total
calculate_item_financials_priced price quantity rate discount = refl
