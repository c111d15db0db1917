-- ===== src/Pos/Shift/Tests.antt =====
-- Runs of the cash shifts of packages/pos, and the theorems on them at concrete movements.
use tridentpos.Prelude.{
  ℤ, pos, neg, ℕ, ◌+ℤ◌, ◌-ℤ◌, ◌==◌, ◌||◌, ◌≡◌, refl, arith, Bool, true, false, Option, none, some,
  List, [], ◌∷◌, map, codes, Text,
}
use tridentpos.Pos.Errors.{Result, ok, err}
use tridentpos.Pos.Shift.{
  MovimientoCaja, MovimientoCajaType, ingreso, egreso, venta_efectivo, fondo_inicial, TurnoRow,
  TurnoCaja, TurnoCajaStatus, abierto, corte_z_emitido, ArqueoCiego, CorteCaja, corte_z,
}
use tridentpos.Pos.Shift.Breakdown.{compute_breakdown}
use tridentpos.Pos.Shift.Breakdown.Sums.{
  net_of, total_net, total_count, compute_breakdown_operators,
}
use tridentpos.Pos.Shift.Repository.{CashDb, get_shift_by_id, list_movements}
use tridentpos.Pos.Shift.Service.{
  RealizarArqueoCiegoCommand, GenerarCorteXCommand, GenerarCorteZCommand, realizar_arqueo_ciego,
  generar_corte_z, new_corte,
}
use tridentpos.Pos.Shift.Proofs.{
  consultar, contar, is_refused, ShiftStep, run_shift, run_shift_locked, run_shift-ShiftStep,
}
use tridentpos.Pos.Shift.Proofs.Counting.{corte_z_reports_count}

abbrev movement : ℕ → ℕ → MovimientoCajaType → ℤ → MovimientoCaja
movement id operator kind amount = record {
  id = id;
  turno_caja_id = 1;
  operator_user_id = operator;
  movement_type = kind;
  amount = amount;
  reason = codes "cash";
  reference_id = none;
  created_at = id;
}

-- A float of 100.00; operator 11 sells for 250.00 and pays 30.00 out, operator 12 brings 20.00.
abbrev day : List MovimientoCaja
day =
    movement 1 11 fondo_inicial (pos 1_000_000)
    ∷ movement 2 11 venta_efectivo (pos 2_500_000)
    ∷ movement 3 12 ingreso (pos 200_000)
    ∷ movement 4 11 egreso (pos 300_000)
    ∷ []

compute_breakdown_operators_example :
    let b = compute_breakdown (pos 1_000_000) day in
    (net_of 11 b.desglose_operadores ≡ pos 2_200_000)
    × (pos 1_000_000 +ℤ total_net b.desglose_operadores ≡ b.total_calculado)
    × (total_count b.desglose_operadores ≡ 4)
unfolding ◌+ℤ◌ tridentpos.Prelude.◌-ℤ◌
compute_breakdown_operators_example = compute_breakdown_operators (pos 1_000_000) day 11

abbrev turno : TurnoCajaStatus → TurnoRow
turno status = record {
  id = 1;
  organization_id = 2;
  branch_id = 3;
  station_id = 4;
  responsible_user_id = 11;
  opened_by_user_id = 11;
  shift_number = 1;
  opening_cash_float = pos 1_000_000;
  closing_declared_cash = none;
  calculated_cash_total = none;
  cash_difference = none;
  status = status;
  assignment_strategy = 1;
  opened_at = 1;
  closed_at = none;
  version = 5;
  updated_at = 4;
}

abbrev drawer : TurnoCajaStatus → CashDb
drawer status = record {
  turnos = turno status ∷ [];
  operadores =
      record { turno_caja_id = 1; operator_user_id = 11; added_by_user_id = 11; added_at = 1 } ∷ [];
  movimientos = day;
  arqueos = [];
  cortes = [];
  audits = [];
  outbox = [];
}

abbrev shift : TurnoCajaStatus → TurnoCaja
shift status = record { row = turno status; participating_operators = 11 ∷ [] }

abbrev is_empty : ℕ → Bool
is_empty id = id == 0

abbrev right_pin : ℕ → Text → ℕ → Bool
right_pin user pin station = true

abbrev count : ℕ → RealizarArqueoCiegoCommand
count version = record {
  shift_id = 1;
  performed_by_user_id = 11;
  declared_cash = pos 3_390_000;
  expected_version = version;
  performed_by_pin = some (codes "1234");
}

abbrev finish : GenerarCorteZCommand
finish = record {
  shift_id = 1;
  closed_by_user_id = 11;
  expected_version = 6;
  closed_by_pin = some (codes "1234");
}

run_shift_locked_example :
    let ran = run_shift is_empty right_pin (contar (count 5)) 9 10 (drawer corte_z_emitido) in
    (ran.1 ≡ drawer corte_z_emitido) × ((false || is_refused ran.0) ≡ true)
unfolding get_shift_by_id tridentpos.Pos.Shift.Repository.get_turno_row
    tridentpos.Pos.Table.find_row tridentpos.Pos.Shift.Repository.participating_operators_of
    tridentpos.Pos.Table.order_rows
run_shift_locked_example =
    run_shift_locked is_empty right_pin (contar (count 5)) 9 10 (drawer corte_z_emitido)
      {shift = shift corte_z_emitido} refl refl

run_shift-ShiftStep_example :
    (after : TurnoCaja) × (get_shift_by_id 1
        (run_shift is_empty right_pin (contar (count 5)) 9 10 (drawer abierto)).1
      ≡ some after)
    × ShiftStep (contar (count 5)) abierto after.status
unfolding get_shift_by_id tridentpos.Pos.Shift.Repository.get_turno_row
    tridentpos.Pos.Table.find_row tridentpos.Pos.Shift.Repository.participating_operators_of
    tridentpos.Pos.Table.order_rows run_shift realizar_arqueo_ciego tridentpos.Prelude.is_blank
    tridentpos.Pos.Shift.Strategy.can_operate tridentpos.Pos.Shift.Repository.save_arqueo_ciego
run_shift-ShiftStep_example =
    run_shift-ShiftStep is_empty right_pin (contar (count 5)) 9 10 (drawer abierto)
      {shift = shift abierto} refl refl

-- A Corte X of a shift that is closed already is answered.
abbrev look : GenerarCorteXCommand
look = record { shift_id = 1; requested_by_user_id = 11; requested_by_pin = some (codes "1234") }

corte_x_after_close :
    run_shift is_empty right_pin (consultar look) 9 10 (drawer corte_z_emitido)
    ≡ (ok tt, drawer corte_z_emitido)
unfolding get_shift_by_id tridentpos.Pos.Shift.Repository.get_turno_row
    tridentpos.Pos.Table.find_row tridentpos.Pos.Shift.Repository.participating_operators_of
    tridentpos.Pos.Table.order_rows run_shift tridentpos.Pos.Shift.Service.generar_corte_x
    tridentpos.Prelude.is_blank tridentpos.Pos.Shift.Strategy.can_operate
corte_x_after_close = refl

abbrev counted_result : Result (TurnoCaja × ArqueoCiego) → TurnoCaja
counted_result (ok r) = r.0
counted_result (err e) = shift abierto

abbrev arqueo_result : Result (TurnoCaja × ArqueoCiego) → ArqueoCiego
arqueo_result (ok r) = r.1
arqueo_result (err e) = record {
  id = 0;
  turno_caja_id = 0;
  performed_by_user_id = 0;
  declared_cash = pos 0;
  calculated_cash = pos 0;
  difference = pos 0;
  created_at = 0;
}

abbrev counting : Result (TurnoCaja × ArqueoCiego) × CashDb
counting = realizar_arqueo_ciego is_empty right_pin (count 5) 9 10 (drawer abierto)

abbrev counted : TurnoCaja
counted = counted_result counting.0

abbrev arqueo : ArqueoCiego
arqueo = arqueo_result counting.0

abbrev final_result : Result (TurnoCaja × CorteCaja) → TurnoCaja
final_result (ok r) = r.0
final_result (err e) = shift abierto

abbrev corte_result : Result (TurnoCaja × CorteCaja) → CorteCaja
corte_result (ok r) = r.1
corte_result (err e) = new_corte 0 corte_z 0 (shift abierto) (compute_breakdown (pos 0) []) 0

abbrev closing : Result (TurnoCaja × CorteCaja) × CashDb
closing = generar_corte_z is_empty right_pin finish 19 20 counting.1

corte_z_reports_count_example :
    ((corte_result closing.0).total_calculado ≡ arqueo.calculated_cash)
    × ((corte_result closing.0).total_declarado ≡ some (pos 3_390_000))
    × ((corte_result closing.0).diferencia ≡ some (pos 3_390_000 -ℤ arqueo.calculated_cash))
unfolding get_shift_by_id tridentpos.Pos.Shift.Repository.get_turno_row
    tridentpos.Pos.Table.find_row tridentpos.Pos.Shift.Repository.participating_operators_of
    tridentpos.Pos.Table.order_rows realizar_arqueo_ciego tridentpos.Prelude.is_blank
    tridentpos.Pos.Shift.Strategy.can_operate tridentpos.Pos.Shift.Repository.save_arqueo_ciego
    run_shift generar_corte_z tridentpos.Pos.Table.put_row tridentpos.Pos.Shift.Strategy.can_close
    tridentpos.Pos.Shift.Repository.save_corte_z
corte_z_reports_count_example =
    corte_z_reports_count is_empty right_pin (count 5) finish 9 19 10 20 (drawer abierto)
      {shift = shift abierto} {counted = counted} {final = final_result closing.0} {arqueo = arqueo}
      {corte = corte_result closing.0} refl refl refl refl

-- The drawer is short by 1.00: the difference is stored and audited.
audits_shortage : (map (λ a. a.cash_difference) closing.1.audits) ≡ neg (pos 10_000) ∷ []
unfolding generar_corte_z get_shift_by_id tridentpos.Pos.Shift.Repository.get_turno_row
    tridentpos.Pos.Table.find_row realizar_arqueo_ciego tridentpos.Prelude.is_blank
    tridentpos.Pos.Shift.Strategy.can_operate tridentpos.Pos.Shift.Repository.save_arqueo_ciego
    tridentpos.Pos.Table.put_row tridentpos.Pos.Shift.Strategy.can_close
    tridentpos.Pos.Shift.Repository.save_corte_z new_corte ◌-ℤ◌
    tridentpos.Pos.Shift.Service.breakdown_of compute_breakdown ◌+ℤ◌ list_movements
    tridentpos.Pos.Shift.Breakdown.add_amount tridentpos.Pos.Shift.Breakdown.add_total
    tridentpos.Pos.Shift.Breakdown.count_movement tridentpos.Pos.Shift.Breakdown.operator_map
    tridentpos.Pos.Shift.Breakdown.total_movements tridentpos.Pos.Shift.Breakdown.update_operator
    tridentpos.Pos.Shift.Repository.audit_difference
    tridentpos.Pos.Shift.Repository.participating_operators_of
    tridentpos.Pos.Shift.Repository.update_turno tridentpos.Pos.Shift.Service.require_shift
    tridentpos.Pos.Shift.Service.validate_pin tridentpos.Pos.Table.insert_ordered
    tridentpos.Pos.Table.order_rows tridentpos.Pos.Table.order_rows_onto tridentpos.Prelude.is_white
    tridentpos.Prelude.trim tridentpos.Prelude.trim_start neg
audits_shortage = refl
