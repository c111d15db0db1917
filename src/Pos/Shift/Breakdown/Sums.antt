-- ===== src/Pos/Shift/Breakdown/Sums.antt =====
-- The totals of a cash shift against plain sums over its movements.
use tridentpos.Prelude.{
  ℤ, pos, ℕ, ◌+◌, ◌+ℤ◌, ◌-ℤ◌, ◌≡◌, refl, sym, ◌∙◌, arith, int_laws, List, [], ◌∷◌, map, keep_if,
  length, ◌==◌, if◌then◌else◌, Bool-cases, inl, inr, pos_zero-+ℤ, +ℤ_assoc,
}
use tridentpos.Pos.Totals.Sums.{sum}
use tridentpos.Pos.Shift.{
  MovimientoCaja, MovimientoCajaType, OperatorBreakdown, ingreso, egreso, venta_efectivo,
  devolucion_efectivo, fondo_inicial,
}
use tridentpos.Pos.Shift.Breakdown.{
  ShiftTotals, add_total, no_totals, no_stats, count_movement, update_operator, total_movements,
  operator_map, compute_breakdown,
}

-- What a movement does to the cash in the drawer, the initial float not counted.
abbrev pub effect : MovimientoCaja → ℤ
effect m = elim m.movement_type [
  | ingreso ↦ m.amount
  | venta_efectivo ↦ m.amount
  | egreso ↦ pos 0 -ℤ m.amount
  | devolucion_efectivo ↦ pos 0 -ℤ m.amount
  | fondo_inicial ↦ pos 0
]

abbrev cash : ShiftTotals → ℤ
cash t = t.total_ingresos +ℤ t.total_ventas_efectivo -ℤ t.total_egresos

cash-add_total :
    (k : MovimientoCajaType) (m : MovimientoCaja) (t : ShiftTotals)
    → m.movement_type ≡ k
    → cash (add_total m.movement_type m.amount t) ≡ cash t +ℤ effect m
unfolding add_total
cash-add_total ingreso m t e = rw e (omega int_laws)
cash-add_total egreso m t e = rw e (omega int_laws)
cash-add_total venta_efectivo m t e = rw e (omega int_laws)
cash-add_total devolucion_efectivo m t e = rw e (omega int_laws)
cash-add_total fondo_inicial m t e = rw e (omega int_laws)

cash-total_movements :
    (t : ShiftTotals) (movs : List MovimientoCaja)
    → cash (total_movements t movs) ≡ cash t +ℤ sum (map effect movs)
unfolding total_movements
cash-total_movements t [] = omega int_laws
cash-total_movements t (m ∷ movs) =
    rw
      (
        cash-total_movements (add_total m.movement_type m.amount t) movs,
        cash-add_total m.movement_type m t refl,
      )
      (+ℤ_assoc (cash t) (effect m) _)

-- One operator's net cash, zero where the operator has no entry.
abbrev pub net_of : ℕ → List OperatorBreakdown → ℤ
net_of u [] = pos 0
net_of u (s ∷ ss) = if s.operator_user_id == u then s.net_cash else net_of u ss

abbrev pub movements_of : ℕ → List MovimientoCaja → List MovimientoCaja
movements_of u = keep_if λ m. m.operator_user_id == u

count_movement_net :
    (k : MovimientoCajaType) (m : MovimientoCaja) (s : OperatorBreakdown)
    → m.movement_type ≡ k
    → ((count_movement m s).net_cash ≡ s.net_cash +ℤ effect m)
      × ((count_movement m s).operator_user_id ≡ s.operator_user_id)
      × ((count_movement m s).movements_count ≡ s.movements_count + 1)
unfolding count_movement
count_movement_net ingreso m s e = rw e (refl, refl, refl)
count_movement_net egreso m s e = rw e (omega int_laws, refl, refl)
count_movement_net venta_efectivo m s e = rw e (refl, refl, refl)
count_movement_net devolucion_efectivo m s e = rw e (omega int_laws, refl, refl)
count_movement_net fondo_inicial m s e = rw e (omega int_laws, refl, refl)

module _ (u : ℕ) (m : MovimientoCaja) where
  net_of-count_movement :
      (s : OperatorBreakdown) (ss : List OperatorBreakdown)
      → net_of u (count_movement m s ∷ ss)
        ≡ (if s.operator_user_id == u then s.net_cash +ℤ effect m else net_of u ss)
  net_of-count_movement s ss =
      let (net, same, count) = count_movement_net m.movement_type m s refl in rw (net, same) refl

  net_of-update_operator :
      (ops : List OperatorBreakdown)
      → net_of u (update_operator m ops)
        ≡ (if m.operator_user_id == u then net_of u ops +ℤ effect m else net_of u ops)
  unfolding update_operator
  net_of-update_operator [] = net_of-count_movement (no_stats m.operator_user_id) []
  net_of-update_operator (s ∷ ss) = elim (Bool-cases (s.operator_user_id == m.operator_user_id)) [
    | inl same ↦ rw same (net_of-count_movement s ss ∙ ground (arith, same))
    | inr other ↦ rw other (ground (arith, other, net_of-update_operator ss))
  ]

net_of-operator_map :
    (u : ℕ) (ops : List OperatorBreakdown) (movs : List MovimientoCaja)
    → net_of u (operator_map ops movs) ≡ net_of u ops +ℤ sum (map effect (movements_of u movs))
unfolding operator_map
net_of-operator_map u ops [] = omega int_laws
net_of-operator_map u ops (m ∷ movs) = elim (Bool-cases (m.operator_user_id == u)) [
  | inl same ↦
      rw (net_of-operator_map u (update_operator m ops) movs, net_of-update_operator u m ops, same)
        (+ℤ_assoc (net_of u ops) (effect m) _)
  | inr other ↦
      rw (net_of-operator_map u (update_operator m ops) movs, net_of-update_operator u m ops, other)
        refl
]

abbrev pub total_net : List OperatorBreakdown → ℤ
total_net [] = pos 0
total_net (s ∷ ss) = s.net_cash +ℤ total_net ss

abbrev pub total_count : List OperatorBreakdown → ℕ
total_count [] = 0
total_count (s ∷ ss) = s.movements_count + total_count ss

update_operator_totals :
    (m : MovimientoCaja) (ops : List OperatorBreakdown)
    → (total_net (update_operator m ops) ≡ total_net ops +ℤ effect m)
      × (total_count (update_operator m ops) ≡ total_count ops + 1)
unfolding update_operator
update_operator_totals m [] =
    let (net, same, count) =
      count_movement_net m.movement_type m (no_stats m.operator_user_id) refl in
    (rw net (omega int_laws), rw count refl)
update_operator_totals m (s ∷ ss) = elim (Bool-cases (s.operator_user_id == m.operator_user_id)) [
  | inl same ↦
      let (net, _, count) = count_movement_net m.movement_type m s refl in
      rw same (rw net (omega int_laws), rw count (omega arith))
  | inr other ↦
      let (net, count) = update_operator_totals m ss in
      rw other (rw net (omega int_laws), rw count (omega arith))
]

operator_map_totals :
    (ops : List OperatorBreakdown) (movs : List MovimientoCaja)
    → (total_net (operator_map ops movs) ≡ total_net ops +ℤ sum (map effect movs))
      × (total_count (operator_map ops movs) ≡ total_count ops + length movs)
unfolding operator_map
operator_map_totals ops [] = (omega int_laws, omega arith)
operator_map_totals ops (m ∷ movs) =
    let (net, count) = operator_map_totals (update_operator m ops) movs in
    let (net', count') = update_operator_totals m ops in
    (net ∙ rw net' (+ℤ_assoc (total_net ops) (effect m) _), count ∙ rw count' (omega arith))

regroup : (opening i v e s : ℤ) → i +ℤ v -ℤ e ≡ s → opening +ℤ i +ℤ v -ℤ e ≡ opening +ℤ s
regroup opening i v e s h = rw (sym h) (omega int_laws)

cash-no_totals : (s : ℤ) → cash no_totals +ℤ s ≡ s
cash-no_totals s = omega int_laws

-- The calculated cash of a shift is its opening float with the effect of each movement: incomes and
-- cash sales in, expenses and refunds out, and the movement of the float itself not counted again.
pub compute_breakdown-sums :
    (opening : ℤ) (movs : List MovimientoCaja)
    → (compute_breakdown opening movs).total_calculado ≡ opening +ℤ sum (map effect movs)
unfolding compute_breakdown
compute_breakdown-sums opening movs =
    let t = total_movements no_totals movs in
    regroup opening t.total_ingresos t.total_ventas_efectivo t.total_egresos _
      (cash-total_movements no_totals movs ∙ cash-no_totals _)

-- The figures by operator split those of the shift: the net cash of an operator is the effect of that
-- operator's movements, the net cash of all makes the calculated cash less the opening float, and
-- their movements are all movements.
pub compute_breakdown_operators :
    (opening : ℤ) (movs : List MovimientoCaja) (u : ℕ)
    → let b = compute_breakdown opening movs in
      (net_of u b.desglose_operadores ≡ sum (map effect (movements_of u movs)))
      × (opening +ℤ total_net b.desglose_operadores ≡ b.total_calculado)
      × (total_count b.desglose_operadores ≡ length movs)
unfolding compute_breakdown
compute_breakdown_operators opening movs u =
    let (net, count) = operator_map_totals [] movs in
    (
      net_of-operator_map u [] movs ∙ pos_zero-+ℤ _,
      rw (net, pos_zero-+ℤ) (sym (compute_breakdown-sums opening movs)),
      count ∙ omega arith,
    )
