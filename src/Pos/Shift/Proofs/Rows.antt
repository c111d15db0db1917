-- ===== src/Pos/Shift/Proofs/Rows.antt =====
-- The state of a shift as its row in the table of packages/pos-edge-runtime/src/
-- cash-shift-sqlite-repository.ts has it.
use tridentpos.Prelude.{ℕ, ◌≡◌, ◌∙◌, ap, arith, none, some, Option, List, Option-cases, inl, inr}
use tridentpos.Pos.Table.{find_row, put_row, find_row-put_row}
use tridentpos.Pos.Shift.{TurnoCajaStatus, TurnoRow, TurnoCaja}
use tridentpos.Pos.Shift.Repository.{
  CashDb, turno_id, map_turno_row, get_shift_by_id, get_turno_row,
}

unfoldable status_of : Option TurnoRow → Option TurnoCajaStatus
status_of none = none
status_of (some row) = some row.status

pub turno_status : ℕ → List TurnoRow → Option TurnoCajaStatus
turno_status id rows = status_of (find_row turno_id id rows)

pub put_status :
    (id : ℕ) (r : TurnoRow) (rows : List TurnoRow)
    → r.id ≡ id
    → turno_status id (put_row turno_id r rows) ≡ some r.status
unfolding turno_status status_of
put_status id r rows same =
    let e : find_row turno_id id (put_row turno_id r rows) ≡ some r =
      find_row-put_row turno_id id r rows ∙ ground (arith, same) in
    ap status_of e

pub row_status :
    (id : ℕ) (db : CashDb) {row : TurnoRow}
    → get_turno_row id db ≡ some row
    → turno_status id db.turnos ≡ some row.status
unfolding turno_status status_of get_turno_row
row_status id db there = ap status_of there

pub read_shift :
    (id : ℕ) (db : CashDb) {s : TurnoCajaStatus}
    → turno_status id db.turnos ≡ some s
    → (shift : TurnoCaja) × (get_shift_by_id id db ≡ some shift) × (shift.status ≡ s)
unfolding turno_status status_of get_shift_by_id get_turno_row
read_shift id db e = elim (Option-cases (find_row turno_id id db.turnos)) [
  | inl missing ↦ absurd (ground (arith, missing))
  | inr (row, found) ↦ (map_turno_row db row, ground (arith, found), ground (arith, found))
]
