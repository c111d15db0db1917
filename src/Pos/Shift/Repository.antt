-- ===== src/Pos/Shift/Repository.antt =====
-- packages/pos-edge-runtime/src/cash-shift-sqlite-repository.ts over the tables of
-- cash-shift-schema.ts. A save runs in one transaction, so that an error leaves the tables as they
-- were. The identifiers of new movements, counts and reports are fresh, and their rows are appended.
use tridentpos.Prelude.{
  ℤ, pos, ℕ, ◌==◌, ◌&&◌, eq_ℤ, Bool, true, false, Option, none, some, List, [], ◌∷◌, ◌++◌, map,
  keep_if, any, find_first, if◌then◌else◌,
}
use tridentpos.Pos.Errors.{
  Action, ok, err, missing_tenant_identity, duplicate_shift, shift_already_open, occ_conflict,
}
use tridentpos.Pos.Table.{find_row, put_row, order_rows}
use tridentpos.Pos.Shift.{
  TurnoCajaStatus, abierto, corte_z_emitido, TurnoRow, TurnoCaja, MovimientoCaja, ArqueoCiego,
  CorteCaja,
}

-- A row of `turnos_caja_operadores`; there is one for a shift and an operator at most.
pub record OperadorRow : Type 0 where
  pub turno_caja_id : ℕ
  pub operator_user_id : ℕ
  pub added_by_user_id : ℕ
  pub added_at : ℕ

-- What an audit of a cash difference records.
pub record CashDifferenceAudit : Type 0 where
  pub shift_id : ℕ
  pub actor_id : ℕ
  pub declared_cash : Option ℤ
  pub calculated_cash : ℤ
  pub cash_difference : ℤ

-- The tables of the shifts, and the entries that a Corte Z adds to the audit trail and to the outbox.
pub record CashDb : Type 0 where
  pub turnos : List TurnoRow
  pub operadores : List OperadorRow
  pub movimientos : List MovimientoCaja
  pub arqueos : List ArqueoCiego
  pub cortes : List CorteCaja
  pub audits : List CashDifferenceAudit
  pub outbox : List CorteCaja

abbrev pub Cash : Type 0 → Type 0
Cash = Action CashDb

abbrev pub turno_id : TurnoRow → ℕ
turno_id t = t.id

unfoldable pub get_turno_row : ℕ → CashDb → Option TurnoRow
get_turno_row id db = find_row turno_id id db.turnos

unfoldable pub participating_operators_of : ℕ → CashDb → List ℕ
participating_operators_of id db =
    map (λ o. o.operator_user_id)
      (order_rows (λ o. o.added_at) (keep_if (λ o. o.turno_caja_id == id) db.operadores))

abbrev pub map_turno_row : CashDb → TurnoRow → TurnoCaja
map_turno_row db row = record {
  row = row;
  participating_operators = participating_operators_of row.id db;
}

abbrev pub map_found : CashDb → Option TurnoRow → Option TurnoCaja
map_found db none = none
map_found db (some row) = some (map_turno_row db row)

unfoldable pub get_shift_by_id : ℕ → CashDb → Option TurnoCaja
get_shift_by_id id db = map_found db (get_turno_row id db)

-- `status IN ('ABIERTO', 'CERRADO_ARQUEO')`
abbrev pub is_unfinished : TurnoCajaStatus → Bool
is_unfinished corte_z_emitido = false
is_unfinished _ = true

abbrev pub is_open : TurnoCajaStatus → Bool
is_open abierto = true
is_open _ = false

unfoldable pub get_active_shift : ℕ → CashDb → Option TurnoCaja
get_active_shift station db =
    map_found db (find_first (λ t. t.station_id == station && is_unfinished t.status) db.turnos)

-- INSERT OR IGNORE of one operator.
unfoldable pub add_operador : OperadorRow → List OperadorRow → List OperadorRow
add_operador o rows =
    if any (λ r. r.turno_caja_id == o.turno_caja_id && r.operator_user_id == o.operator_user_id)
      rows
    then rows
    else rows ++ (o ∷ [])

unfoldable pub add_operadores : ℕ → ℕ → ℕ → List ℕ → List OperadorRow → List OperadorRow
unfolding add_operador
add_operadores shift by at [] rows = rows
add_operadores shift by at (op ∷ ops) rows = add_operadores shift by at ops (
    add_operador
      (record {
        turno_caja_id = shift;
        operator_user_id = op;
        added_by_user_id = by;
        added_at = at;
      })
      rows)

-- The unique index of the open shifts of a station.
unfoldable pub has_open_shift : TurnoRow → List TurnoRow → Bool
has_open_shift row rows =
    any
      (λ t.
        is_open t.status
        && (t.organization_id == row.organization_id
            && (t.branch_id == row.branch_id && t.station_id == row.station_id)))
      rows

-- `UPDATE turnos_caja SET … WHERE id = ? AND version = ?`, and what is then written in the same
-- transaction.
unfoldable pub update_turno :
    {A : Type 0} → ℕ → ℕ → (TurnoRow → TurnoRow) → (CashDb → CashDb) → A → Cash A
update_turno id expected change then_write result db = elim (get_turno_row id db) [
  | none ↦ (err (occ_conflict id expected 0), db)
  | some current ↦
      if current.version == expected
      then (
        ok result,
        then_write (record db { turnos = put_row turno_id (change current) db.turnos }),
      )
      else (err (occ_conflict id expected current.version), db)
]

module _ (blank : ℕ → Bool) where
  -- An insertion, for version 0.
  unfoldable pub insert_shift : TurnoCaja → Cash TurnoCaja
  unfolding add_operadores has_open_shift
  insert_shift shift db = elim (get_turno_row shift.id db) [
    | some _ ↦ (err duplicate_shift, db)
    | none ↦
        if is_open shift.status && has_open_shift shift.row db.turnos
        then (err shift_already_open, db)
        else (
          ok shift,
          record db {
            turnos = db.turnos ++ (shift.row ∷ []);
            operadores =
                add_operadores shift.id shift.opened_by_user_id shift.opened_at
                  shift.participating_operators db.operadores;
          },
        )
  ]

  unfoldable pub save_shift : TurnoCaja → ℕ → Cash TurnoCaja
  unfolding insert_shift update_turno
  save_shift shift expected db =
      if blank shift.organization_id
      then (err missing_tenant_identity, db)
      else if blank shift.branch_id
      then (err missing_tenant_identity, db)
      else if expected == 0
      then insert_shift shift db
      else update_turno shift.id expected
          (λ row. record row {
            closing_declared_cash = shift.closing_declared_cash;
            calculated_cash_total = shift.calculated_cash_total;
            cash_difference = shift.cash_difference;
            status = shift.status;
            closed_at = shift.closed_at;
            version = shift.version;
            updated_at = shift.updated_at;
          })
          (λ d. record d {
            operadores =
                add_operadores shift.id shift.responsible_user_id shift.updated_at
                  shift.participating_operators d.operadores;
          })
          shift db

unfoldable pub add_movement : MovimientoCaja → TurnoCaja → ℕ → Cash MovimientoCaja
unfolding update_turno
add_movement movement shift expected =
    update_turno shift.id expected
      (λ row. record row { version = shift.version; updated_at = shift.updated_at })
      (λ d. record d { movimientos = d.movimientos ++ (movement ∷ []) }) movement

unfoldable pub list_movements : ℕ → CashDb → List MovimientoCaja
list_movements shift db =
    order_rows (λ m. m.created_at) (keep_if (λ m. m.turno_caja_id == shift) db.movimientos)

unfoldable pub save_arqueo_ciego : ArqueoCiego → TurnoCaja → ℕ → Cash ArqueoCiego
unfolding update_turno
save_arqueo_ciego arqueo shift expected =
    update_turno shift.id expected
      (λ row. record row {
        closing_declared_cash = shift.closing_declared_cash;
        calculated_cash_total = shift.calculated_cash_total;
        cash_difference = shift.cash_difference;
        status = shift.status;
        version = shift.version;
        updated_at = shift.updated_at;
      })
      (λ d. record d { arqueos = d.arqueos ++ (arqueo ∷ []) }) arqueo

-- The audit of a Corte Z whose difference is known and not zero.
unfoldable pub audit_difference :
    CorteCaja → TurnoCaja → Option ℤ → List CashDifferenceAudit → List CashDifferenceAudit
audit_difference corte shift none audits = audits
audit_difference corte shift (some difference) audits =
    if eq_ℤ difference (pos 0)
    then audits
    else audits
      ++ (record {
        shift_id = shift.id;
        actor_id = corte.generated_by_user_id;
        declared_cash = corte.total_declarado;
        calculated_cash = corte.total_calculado;
        cash_difference = difference;
      }
          ∷ [])

module _ (blank : ℕ → Bool) where
  unfoldable pub save_corte_z : CorteCaja → TurnoCaja → ℕ → Cash CorteCaja
  unfolding update_turno audit_difference
  save_corte_z corte shift expected db =
      if blank shift.organization_id
      then (err missing_tenant_identity, db)
      else if blank shift.branch_id
      then (err missing_tenant_identity, db)
      else update_turno shift.id expected
          (λ row. record row {
            status = shift.status;
            closed_at = shift.closed_at;
            version = shift.version;
            updated_at = shift.updated_at;
          })
          (λ d. record d {
            cortes = d.cortes ++ (corte ∷ []);
            audits = audit_difference corte shift corte.diferencia d.audits;
            outbox = d.outbox ++ (corte ∷ []);
          })
          corte db
