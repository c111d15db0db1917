-- ===== src/Pos/Shift/Proofs/Counting.antt =====
-- The blind count and the Corte Z of packages/pos/src/cash-shift-service.ts.
use tridentpos.Prelude.{
  ℤ, ℕ, ◌+◌, ◌+ℤ◌, ◌-ℤ◌, ◌≡◌, refl, ap, sym, ◌∙◌, arith, Bool, some, [], ◌∷◌, ◌++◌, map, Text,
  Option-cases, inl, inr,
}
use tridentpos.Pos.Errors.{ok}
use tridentpos.Pos.Table.{put_row, find_row-put_row, find_row_key}
use tridentpos.Pos.Totals.Sums.{sum}
use tridentpos.Pos.Shift.{cerrado_arqueo, TurnoRow, TurnoCaja, ArqueoCiego, CorteCaja}
use tridentpos.Pos.Shift.Breakdown.Sums.{effect, compute_breakdown-sums}
use tridentpos.Pos.Shift.Repository.{
  CashDb, turno_id, get_shift_by_id, get_turno_row, list_movements, save_arqueo_ciego, save_corte_z,
  update_turno,
}
use tridentpos.Pos.Shift.Service.{
  RealizarArqueoCiegoCommand, GenerarCorteZCommand, realizar_arqueo_ciego, generar_corte_z,
  breakdown_of, new_corte,
}

module _ (blank : ℕ → Bool) (valid : ℕ → Text → ℕ → Bool) where
  -- A blind count that succeeds calculates the opening float with the effect of every movement of the
  -- shift, and stores the difference of the declared cash from it, in the count and in the shift.
  realizar_arqueo_ciego-sums :
      (command : RealizarArqueoCiegoCommand) (id now : ℕ) (db : CashDb) {shift counted : TurnoCaja}
      {arqueo : ArqueoCiego}
      → get_shift_by_id command.shift_id db ≡ some shift
      → (realizar_arqueo_ciego blank valid command id now db).0 ≡ ok (counted, arqueo)
      → (arqueo.calculated_cash
          ≡ shift.opening_cash_float +ℤ sum (map effect (list_movements shift.id db)))
        × (arqueo.difference ≡ command.declared_cash -ℤ arqueo.calculated_cash)
        × (counted.calculated_cash_total ≡ some arqueo.calculated_cash)
        × (counted.cash_difference ≡ some arqueo.difference)
        × (counted.closing_declared_cash ≡ some command.declared_cash)
  unfolding realizar_arqueo_ciego save_arqueo_ciego update_turno breakdown_of
  realizar_arqueo_ciego-sums command id now db {shift} found done =
      ground
        (arith, found, compute_breakdown-sums shift.opening_cash_float (list_movements shift.id db))

abbrev counted_row : TurnoRow → ℤ → ℤ → ℕ → TurnoRow
counted_row row declared calculated now = record row {
  closing_declared_cash = some declared;
  calculated_cash_total = some calculated;
  cash_difference = some (declared -ℤ calculated);
  status = cerrado_arqueo;
  version = row.version + 1;
  updated_at = now;
}

pub turno_row_id :
    (id : ℕ) (db : CashDb) {row : TurnoRow} → get_turno_row id db ≡ some row → row.id ≡ id
unfolding get_turno_row
turno_row_id id db there = find_row_key turno_id id db.turnos there

pub shift_row :
    (id : ℕ) (db : CashDb) {shift : TurnoCaja}
    → get_shift_by_id id db ≡ some shift
    → (get_turno_row id db ≡ some shift.row) × (shift.id ≡ id)
unfolding get_shift_by_id
shift_row id db {shift} found = elim (Option-cases (get_turno_row id db)) [
  | inl missing ↦ absurd (ground (arith, missing))
  | inr (row, there) ↦
      let same : shift.row ≡ row = ground (arith, there) in
      (there ∙ ap some (sym same), ap turno_id same ∙ turno_row_id id db there)
]

module _ (blank : ℕ → Bool) (valid : ℕ → Text → ℕ → Bool) where
  after_count :
      (command : RealizarArqueoCiegoCommand) (id now : ℕ) (db : CashDb) {shift counted : TurnoCaja}
      {arqueo : ArqueoCiego}
      → get_shift_by_id command.shift_id db ≡ some shift
      → (realizar_arqueo_ciego blank valid command id now db).0 ≡ ok (counted, arqueo)
      → (realizar_arqueo_ciego blank valid command id now db).1 ≡ record db {
        turnos =
            put_row turno_id
              (counted_row shift.row command.declared_cash arqueo.calculated_cash now)
              db.turnos;
        arqueos = db.arqueos ++ (arqueo ∷ []);
      }
  unfolding realizar_arqueo_ciego save_arqueo_ciego update_turno
  after_count command id now db {shift} found done =
      let (there, same) = shift_row command.shift_id db found in
      ground (arith, found, ap (λ i. get_turno_row i db) same ∙ there)

  corte_z_fields :
      (command : GenerarCorteZCommand) (id now : ℕ) (db : CashDb) {final : TurnoCaja}
      {corte : CorteCaja}
      → (generar_corte_z blank valid command id now db).0 ≡ ok (final, corte)
      → (shift : TurnoCaja) × (get_shift_by_id command.shift_id db ≡ some shift)
        × (corte.total_calculado ≡ (breakdown_of shift db).total_calculado)
        × (corte.total_declarado ≡ shift.closing_declared_cash)
        × (corte.diferencia ≡ shift.cash_difference)
  unfolding generar_corte_z save_corte_z update_turno new_corte
  corte_z_fields command id now db done =
      elim (Option-cases (get_shift_by_id command.shift_id db)) [
        | inl missing ↦ absurd (ground (arith, missing))
        | inr (shift, there) ↦
            (shift, there, ground (arith, there), ground (arith, there), ground (arith, there))
      ]

  count_total :
      (command : RealizarArqueoCiegoCommand) (id now : ℕ) (db : CashDb) {shift counted : TurnoCaja}
      {arqueo : ArqueoCiego}
      → get_shift_by_id command.shift_id db ≡ some shift
      → (realizar_arqueo_ciego blank valid command id now db).0 ≡ ok (counted, arqueo)
      → (arqueo.calculated_cash ≡ (breakdown_of shift db).total_calculado)
        × (arqueo.difference ≡ command.declared_cash -ℤ arqueo.calculated_cash)
  unfolding realizar_arqueo_ciego save_arqueo_ciego update_turno
  count_total command id now db found done = ground (arith, found)

-- The row of a shift after it was counted, and its movements.
module _ (db : CashDb) (row : TurnoRow) (declared calculated : ℤ) (now : ℕ)
    (arqueo : ArqueoCiego) where
  counted_db : CashDb
  counted_db = record db {
    turnos = put_row turno_id (counted_row row declared calculated now) db.turnos;
    arqueos = db.arqueos ++ (arqueo ∷ []);
  }

  counted_db_row : get_turno_row row.id counted_db ≡ some (counted_row row declared calculated now)
  unfolding get_turno_row counted_db
  counted_db_row =
      find_row-put_row turno_id row.id (counted_row row declared calculated now) db.turnos
      ∙ ground arith

  breakdown_of-counted_db :
      (shift before : TurnoCaja)
      → before.row ≡ row
      → shift.row ≡ counted_row row declared calculated now
      → breakdown_of shift counted_db ≡ breakdown_of before db
  unfolding breakdown_of counted_db list_movements
  breakdown_of-counted_db shift before e f = rw (e, f) refl

-- The Corte Z that is issued right after the blind count of a shift reports that count: the cash that
-- was calculated then, the cash that was declared, and their difference.
pub corte_z_reports_count :
    (blank : ℕ → Bool) (valid : ℕ → Text → ℕ → Bool) (count : RealizarArqueoCiegoCommand)
    (close : GenerarCorteZCommand) (id corte_id now later : ℕ) (db : CashDb)
    {shift counted final : TurnoCaja} {arqueo : ArqueoCiego} {corte : CorteCaja}
    → close.shift_id ≡ count.shift_id
    → get_shift_by_id count.shift_id db ≡ some shift
    → (realizar_arqueo_ciego blank valid count id now db).0 ≡ ok (counted, arqueo)
    → let after = (realizar_arqueo_ciego blank valid count id now db).1 in
      (generar_corte_z blank valid close corte_id later after).0 ≡ ok (final, corte)
      → (corte.total_calculado ≡ arqueo.calculated_cash)
        × (corte.total_declarado ≡ some count.declared_cash)
        × (corte.diferencia ≡ some (count.declared_cash -ℤ arqueo.calculated_cash))
unfolding counted_db
corte_z_reports_count blank valid count close id corte_id now later db {shift} {arqueo = arqueo}
      {corte = corte} same found done closed =
    let d = count.declared_cash in
    let a = arqueo.calculated_cash in
    let db1 = counted_db db shift.row d a now arqueo in
    let after : (realizar_arqueo_ciego blank valid count id now db).1 ≡ db1 =
      after_count blank valid count id now db found done in
    let closed1 =
      ap (λ s. (generar_corte_z blank valid close corte_id later s).0) (sym after) ∙ closed in
    let (shift1, there, total, declared, difference) =
      corte_z_fields blank valid close corte_id later db1 closed1 in
    let (there_row, at) = shift_row close.shift_id db1 there in
    let (row, sid) = shift_row count.shift_id db found in
    let e : shift1.row ≡ counted_row shift.row d a now = ground (
      arith,
      there_row,
      ap (λ i. get_turno_row i db1) (same ∙ sym sid) ∙ counted_db_row db shift.row d a now arqueo,
    ) in
    let (calculated, _) = count_total blank valid count id now db found done in
    (
      total
          ∙ ap (λ b. b.total_calculado)
              (breakdown_of-counted_db db shift.row d a now arqueo shift1 shift refl e)
          ∙ sym calculated,
      declared ∙ ap (λ r. r.closing_declared_cash) e,
      difference ∙ ap (λ r. r.cash_difference) e,
    )
