-- ===== src/Pos/Split/Ratio.antt =====
-- A split by ratio hands out exactly the amounts of the account: each part but the last is rounded
-- down, and the last takes the rest.
use tridentpos.Prelude.{
  ℤ, pos, ℕ, suc, ◌+◌, ◌+ℤ◌, ◌-ℤ◌, ◌≡◌, refl, sym, ap, ◌∙◌, arith, int_laws, +ℤ_assoc, pos_zero-+ℤ,
  List, [], ◌∷◌, length,
}
use tridentpos.Pos.Types.{Cuenta, CuentaItem}
use tridentpos.Pos.Errors.{ok}
use tridentpos.Pos.Split.{
  SplitPartitionPlan, Amounts, amounts_of, no_amounts, add_amounts, sub_amounts, scale_amounts,
  ratio_of, sub_cuenta, ratio_parts, split_by_ratio, sum_ratios,
}

-- The amounts of several accounts together.
abbrev pub sum_amounts : List Cuenta → Amounts
sum_amounts [] = no_amounts
sum_amounts (c ∷ cs) = add_amounts (amounts_of c) (sum_amounts cs)

add_amounts_assoc :
    (a b c : Amounts) → add_amounts (add_amounts a b) c ≡ add_amounts a (add_amounts b c)
add_amounts_assoc a b c = λ i. record {
  subtotal = +ℤ_assoc a.subtotal b.subtotal c.subtotal i;
  tax_total = +ℤ_assoc a.tax_total b.tax_total c.tax_total i;
  discounts_total = +ℤ_assoc a.discounts_total b.discounts_total c.discounts_total i;
  tips_total = +ℤ_assoc a.tips_total b.tips_total c.tips_total i;
  total_amount = +ℤ_assoc a.total_amount b.total_amount c.total_amount i;
}

rest_completes : (x y : ℤ) → x +ℤ (y -ℤ x +ℤ pos 0) ≡ y
rest_completes x y = omega int_laws

sub_amounts_completes :
    (running a : Amounts) → add_amounts running (add_amounts (sub_amounts a running) no_amounts) ≡ a
sub_amounts_completes r a = λ i. record {
  subtotal = rest_completes r.subtotal a.subtotal i;
  tax_total = rest_completes r.tax_total a.tax_total i;
  discounts_total = rest_completes r.discounts_total a.discounts_total i;
  tips_total = rest_completes r.tips_total a.tips_total i;
  total_amount = rest_completes r.total_amount a.total_amount i;
}

add_no_amounts : (a : Amounts) → add_amounts no_amounts a ≡ a
add_no_amounts a = λ i. record {
  subtotal = pos_zero-+ℤ a.subtotal i;
  tax_total = pos_zero-+ℤ a.tax_total i;
  discounts_total = pos_zero-+ℤ a.discounts_total i;
  tips_total = pos_zero-+ℤ a.tips_total i;
  total_amount = pos_zero-+ℤ a.total_amount i;
}

amounts_of-sub_cuenta :
    (original : Cuenta) (now i id : ℕ) (a : Amounts) (items : List CuentaItem)
    → amounts_of (sub_cuenta original now i id a items) ≡ a
unfolding sub_cuenta
amounts_of-sub_cuenta original now i id a items = refl

module _ (original : Cuenta) (now : ℕ) (total_ratio : ℤ) where
  -- What has been handed out before index i and what the loop hands out from there make the whole.
  ratio_parts_complete :
      (i : ℕ) (running : Amounts) (p : SplitPartitionPlan) (ps : List SplitPartitionPlan)
      → add_amounts running (sum_amounts (ratio_parts original now total_ratio i running (p ∷ ps)))
        ≡ amounts_of original
  unfolding ratio_parts
  ratio_parts_complete i running p [] = sub_amounts_completes running (amounts_of original)
  ratio_parts_complete i running p (q ∷ ps) =
      let part = scale_amounts (amounts_of original) (ratio_of p) total_ratio in
      sym (add_amounts_assoc running part _)
      ∙ ratio_parts_complete (i + 1) (add_amounts running part) q ps

  length-ratio_parts :
      (i : ℕ) (running : Amounts) (ps : List SplitPartitionPlan)
      → length (ratio_parts original now total_ratio i running ps) ≡ length ps
  unfolding ratio_parts
  length-ratio_parts i running [] = refl
  length-ratio_parts i running (p ∷ []) = refl
  length-ratio_parts i running (p ∷ q ∷ ps) = ap suc (length-ratio_parts (i + 1) _ (q ∷ ps))

-- A split by ratio into one part or more that succeeds yields one account for each partition, and
-- their subtotals, taxes, discounts, tips and totals add up to those of the account exactly.
pub split_by_ratio_conserves :
    (c : Cuenta) (p : SplitPartitionPlan) (ps : List SplitPartitionPlan) (now : ℕ)
    {subs : List Cuenta}
    → split_by_ratio c (p ∷ ps) now ≡ ok subs
    → (sum_amounts subs ≡ amounts_of c) × (length subs ≡ length (p ∷ ps))
unfolding split_by_ratio
split_by_ratio_conserves c p ps now {subs} e =
    let ratio = sum_ratios (pos 0) (p ∷ ps) in
    let made : subs ≡ ratio_parts c now ratio 0 no_amounts (p ∷ ps) = ground arith in
    rw made (
      sym (add_no_amounts _) ∙ ratio_parts_complete c now ratio 0 no_amounts p ps,
      length-ratio_parts c now ratio 0 no_amounts (p ∷ ps),
    )
