-- ===== src/Pos/Shift.antt =====
-- Cash shifts: packages/pos/src/cash-shift-types.ts. Amounts are at scale 4. A shift is its row in the
-- table of shifts with its operators, which are rows of another table.
pub mod Breakdown
pub mod Strategy
pub mod Repository
pub mod Service
pub mod Proofs
mod Tests
use tridentpos.Prelude.{ℤ, ℕ, List, Option, Text}

pub data TurnoCajaStatus : Type 0 where
  abierto cerrado_arqueo corte_z_emitido : TurnoCajaStatus

pub data MovimientoCajaType : Type 0 where
  ingreso egreso venta_efectivo devolucion_efectivo fondo_inicial : MovimientoCajaType

pub record TurnoRow : Type 0 where
  pub id : ℕ
  pub organization_id : ℕ
  pub branch_id : ℕ
  pub station_id : ℕ
  pub responsible_user_id : ℕ
  pub opened_by_user_id : ℕ
  pub shift_number : ℕ
  pub opening_cash_float : ℤ
  pub closing_declared_cash : Option ℤ
  pub calculated_cash_total : Option ℤ
  pub cash_difference : Option ℤ
  pub status : TurnoCajaStatus
  pub assignment_strategy : ℕ
  pub opened_at : ℕ
  pub closed_at : Option ℕ
  pub version : ℕ
  pub updated_at : ℕ

pub record TurnoCaja : Type 0 where
  pub row : TurnoRow
  pub open row use *
  pub participating_operators : List ℕ

pub record MovimientoCaja : Type 0 where
  pub id : ℕ
  pub turno_caja_id : ℕ
  pub operator_user_id : ℕ
  pub movement_type : MovimientoCajaType
  pub amount : ℤ
  pub reason : Text
  pub reference_id : Option ℕ
  pub created_at : ℕ

pub record OperatorBreakdown : Type 0 where
  pub operator_user_id : ℕ
  pub total_ingresos : ℤ
  pub total_egresos : ℤ
  pub total_ventas_efectivo : ℤ
  pub net_cash : ℤ
  pub movements_count : ℕ

pub record ArqueoCiego : Type 0 where
  pub id : ℕ
  pub turno_caja_id : ℕ
  pub performed_by_user_id : ℕ
  pub declared_cash : ℤ
  pub calculated_cash : ℤ
  pub difference : ℤ
  pub created_at : ℕ

pub data CorteCajaType : Type 0 where
  corte_x corte_z : CorteCajaType

pub record CorteCaja : Type 0 where
  pub id : ℕ
  pub turno_caja_id : ℕ
  pub tipo_corte : CorteCajaType
  pub generated_by_user_id : ℕ
  pub opening_cash_float : ℤ
  pub total_ingresos : ℤ
  pub total_egresos : ℤ
  pub total_ventas_efectivo : ℤ
  pub total_calculado : ℤ
  pub total_declarado : Option ℤ
  pub diferencia : Option ℤ
  pub desglose_operadores : List OperatorBreakdown
  pub generated_at : ℕ
