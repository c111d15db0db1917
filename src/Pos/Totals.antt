-- ===== src/Pos/Totals.antt =====
-- `calculateItemFinancials` and `recalculateCuentaTotals` of packages/pos/src/dining-service.ts.
pub mod Sums
use tridentpos.Prelude.{ℤ, pos, ◌+ℤ◌, Bool, List, [], ◌∷◌, if◌then◌else◌}
use tridentpos.Money.{
  calculate_line_subtotal, calculate_net_subtotal, calculate_tax_amount, calculate_line_total,
}
use tridentpos.Pos.Types.{CuentaItem, is_cancelado}

pub record ItemFinancials : Type 0 where
  pub subtotal : ℤ
  pub tax_amount : ℤ
  pub total : ℤ

unfoldable pub calculate_item_financials : ℤ → ℤ → ℤ → ℤ → ItemFinancials
calculate_item_financials unit_price quantity tax_rate discount =
    let subtotal = calculate_line_subtotal unit_price quantity in
    let net_subtotal = calculate_net_subtotal subtotal discount in
    let tax_amount = calculate_tax_amount net_subtotal tax_rate in
    let total = calculate_line_total net_subtotal tax_amount in
    record { subtotal = subtotal; tax_amount = tax_amount; total = total }

pub record CuentaTotals : Type 0 where
  pub subtotal : ℤ
  pub tax_total : ℤ
  pub discounts_total : ℤ
  pub total_amount : ℤ

-- The four accumulators of the loop, the last being `lineTotalSum`.
pub record Accumulators : Type 0 where
  pub subtotal : ℤ
  pub tax_total : ℤ
  pub discounts_total : ℤ
  pub line_total_sum : ℤ

add_line : Accumulators → CuentaItem → Accumulators
add_line acc item = if is_cancelado item.status then acc else record {
  subtotal = acc.subtotal +ℤ item.subtotal;
  tax_total = acc.tax_total +ℤ item.tax_amount_applied;
  discounts_total = acc.discounts_total +ℤ item.discount_amount_applied;
  line_total_sum = acc.line_total_sum +ℤ item.total;
}

add_lines : Accumulators → List CuentaItem → Accumulators
unfolding add_line
add_lines acc [] = acc
add_lines acc (item ∷ items) = add_lines (add_line acc item) items

abbrev no_lines : Accumulators
no_lines = record {
  subtotal = pos 0;
  tax_total = pos 0;
  discounts_total = pos 0;
  line_total_sum = pos 0;
}

unfoldable pub recalculate_cuenta_totals : List CuentaItem → ℤ → CuentaTotals
unfolding add_lines
recalculate_cuenta_totals items tips_total =
    let acc = add_lines no_lines items in
    record {
      subtotal = acc.subtotal;
      tax_total = acc.tax_total;
      discounts_total = acc.discounts_total;
      total_amount = acc.line_total_sum +ℤ tips_total;
    }
