-- ===== src/Pos/Shift/Breakdown.antt =====
-- `computeBreakdown` of packages/pos/src/cash-shift-service.ts. The map of the operators is the list of
-- its entries, in the order in which they were set.
pub mod Sums
use tridentpos.Prelude.{ℤ, pos, ℕ, ◌+◌, ◌+ℤ◌, ◌-ℤ◌, ◌==◌, List, [], ◌∷◌, if◌then◌else◌}
use tridentpos.Pos.Shift.{
  MovimientoCaja, MovimientoCajaType, OperatorBreakdown, ingreso, egreso, venta_efectivo,
  devolucion_efectivo, fondo_inicial,
}

abbrev pub no_stats : ℕ → OperatorBreakdown
no_stats operator = record {
  operator_user_id = operator;
  total_ingresos = pos 0;
  total_egresos = pos 0;
  total_ventas_efectivo = pos 0;
  net_cash = pos 0;
  movements_count = 0;
}

-- The cases of the `switch` on one operator's figures.
unfoldable pub add_amount : MovimientoCajaType → ℤ → OperatorBreakdown → OperatorBreakdown
add_amount ingreso amount stats = record stats {
  total_ingresos = stats.total_ingresos +ℤ amount;
  net_cash = stats.net_cash +ℤ amount;
}
add_amount venta_efectivo amount stats = record stats {
  total_ventas_efectivo = stats.total_ventas_efectivo +ℤ amount;
  net_cash = stats.net_cash +ℤ amount;
}
add_amount egreso amount stats = record stats {
  total_egresos = stats.total_egresos +ℤ amount;
  net_cash = stats.net_cash -ℤ amount;
}
add_amount devolucion_efectivo amount stats = record stats {
  total_egresos = stats.total_egresos +ℤ amount;
  net_cash = stats.net_cash -ℤ amount;
}
add_amount fondo_inicial amount stats = stats

unfoldable pub count_movement : MovimientoCaja → OperatorBreakdown → OperatorBreakdown
unfolding add_amount
count_movement mov stats =
    add_amount mov.movement_type mov.amount
      (record stats { movements_count = stats.movements_count + 1 })

-- The entry of the movement's operator is changed, or made at the end.
unfoldable pub update_operator : MovimientoCaja → List OperatorBreakdown → List OperatorBreakdown
unfolding count_movement
update_operator mov [] = count_movement mov (no_stats mov.operator_user_id) ∷ []
update_operator mov (s ∷ ss) =
    if s.operator_user_id == mov.operator_user_id
    then count_movement mov s ∷ ss
    else s ∷ update_operator mov ss

pub record ShiftTotals : Type 0 where
  pub total_ingresos : ℤ
  pub total_egresos : ℤ
  pub total_ventas_efectivo : ℤ

unfoldable pub add_total : MovimientoCajaType → ℤ → ShiftTotals → ShiftTotals
add_total ingreso amount t = record t { total_ingresos = t.total_ingresos +ℤ amount }
add_total venta_efectivo amount t = record t {
  total_ventas_efectivo = t.total_ventas_efectivo +ℤ amount;
}
add_total egreso amount t = record t { total_egresos = t.total_egresos +ℤ amount }
add_total devolucion_efectivo amount t = record t { total_egresos = t.total_egresos +ℤ amount }
add_total fondo_inicial amount t = t

-- The loop over the movements: the totals, and the map of the operators.
unfoldable pub total_movements : ShiftTotals → List MovimientoCaja → ShiftTotals
unfolding add_total
total_movements t [] = t
total_movements t (m ∷ movs) = total_movements (add_total m.movement_type m.amount t) movs

unfoldable pub operator_map : List OperatorBreakdown → List MovimientoCaja → List OperatorBreakdown
unfolding update_operator
operator_map ops [] = ops
operator_map ops (m ∷ movs) = operator_map (update_operator m ops) movs

abbrev pub no_totals : ShiftTotals
no_totals = record { total_ingresos = pos 0; total_egresos = pos 0; total_ventas_efectivo = pos 0 }

pub record Breakdown : Type 0 where
  pub total_ingresos : ℤ
  pub total_egresos : ℤ
  pub total_ventas_efectivo : ℤ
  pub total_calculado : ℤ
  pub desglose_operadores : List OperatorBreakdown

unfoldable pub compute_breakdown : ℤ → List MovimientoCaja → Breakdown
unfolding total_movements operator_map
compute_breakdown opening_cash_float movements =
    let t = total_movements no_totals movements in
    record {
      total_ingresos = t.total_ingresos;
      total_egresos = t.total_egresos;
      total_ventas_efectivo = t.total_ventas_efectivo;
      total_calculado =
          opening_cash_float +ℤ t.total_ingresos +ℤ t.total_ventas_efectivo -ℤ t.total_egresos;
      desglose_operadores = operator_map [] movements;
    }
