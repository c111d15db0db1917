-- ===== src/Pos/Shift/Proofs.antt =====
-- The life of a cash shift by packages/pos/src/cash-shift-service.ts: the states it goes through.
pub mod Counting
pub mod Rows
use tridentpos.Prelude.{
  ℕ, ◌≡◌, refl, ap, sym, subst, ◌∙◌, arith, Bool, true, false, none, some, Option, List, [], ◌∷◌,
  ◌||◌, Text, Bool-cases, inl, inr, contains, ◌+◌, ◌++◌,
}
use tridentpos.Pos.Errors.{Result, ok, err}
use tridentpos.Pos.Shift.{
  TurnoCajaStatus, abierto, cerrado_arqueo, corte_z_emitido, TurnoRow, TurnoCaja, MovimientoCaja,
  ArqueoCiego, CorteCaja,
}
use tridentpos.Pos.Shift.Repository.{
  CashDb, save_shift, insert_shift, add_movement, save_arqueo_ciego, save_corte_z, update_turno,
  get_shift_by_id, get_turno_row,
}
use tridentpos.Pos.Shift.Service.{
  AgregarOperadorCommand, RegistrarMovimientoCommand, GenerarCorteXCommand,
  RealizarArqueoCiegoCommand, GenerarCorteZCommand, agregar_operador, registrar_movimiento,
  generar_corte_x, realizar_arqueo_ciego, generar_corte_z,
}
use tridentpos.Pos.Shift.Proofs.Counting.{shift_row, turno_row_id}
use tridentpos.Pos.Shift.Proofs.Rows.{turno_status, put_status, row_status, read_shift}

-- The commands on a stored shift; `consultar` is a Corte X.
pub data ShiftCommand : Type 0 where
  agregar : AgregarOperadorCommand → ShiftCommand
  registrar : RegistrarMovimientoCommand → ShiftCommand
  consultar : GenerarCorteXCommand → ShiftCommand
  contar : RealizarArqueoCiegoCommand → ShiftCommand
  cerrar : GenerarCorteZCommand → ShiftCommand

abbrev pub shift_of : ShiftCommand → ℕ
shift_of (agregar c) = c.shift_id
shift_of (registrar c) = c.shift_id
shift_of (consultar c) = c.shift_id
shift_of (contar c) = c.shift_id
shift_of (cerrar c) = c.shift_id

abbrev pub is_corte_x : ShiftCommand → Bool
is_corte_x (consultar c) = true
is_corte_x _ = false

abbrev done : {A : Type 0} → Result A × CashDb → Result (Unit {0}) × CashDb
done (ok a, db) = (ok tt, db)
done (err e, db) = (err e, db)

done_ok :
    {A : Type 0} (w : Result A × CashDb)
    → (done w).0 ≡ ok tt
    → (a : A) × (w.0 ≡ ok a) × ((done w).1 ≡ w.1)
done_ok (ok a, db) ran = (a, refl, refl)
done_ok (err e, db) ran = absurd (ground arith)

-- Runs a command, for the error that it raises or the tables that it leaves; `id` is the fresh
-- identifier.
unfoldable pub run_shift :
    (ℕ → Bool) → (ℕ → Text → ℕ → Bool) → ShiftCommand → ℕ → ℕ → CashDb → Result (Unit {0}) × CashDb
run_shift blank valid (agregar c) id now db = done (agregar_operador blank valid c now db)
run_shift blank valid (registrar c) id now db = done (registrar_movimiento blank valid c id now db)
run_shift blank valid (consultar c) id now db = done (generar_corte_x blank valid c id now db)
run_shift blank valid (contar c) id now db = done (realizar_arqueo_ciego blank valid c id now db)
run_shift blank valid (cerrar c) id now db = done (generar_corte_z blank valid c id now db)

abbrev pub is_refused : {A : Type 0} → Result A → Bool
is_refused (ok a) = false
is_refused (err e) = true

-- What each command may make of the state of a shift.
pub data ShiftStep : ShiftCommand → TurnoCajaStatus → TurnoCajaStatus → Type 0 where
  joins : {c : AgregarOperadorCommand} → ShiftStep (agregar c) abierto abierto
  moves : {c : RegistrarMovimientoCommand} → ShiftStep (registrar c) abierto abierto
  reads : {c : GenerarCorteXCommand} {s : TurnoCajaStatus} → ShiftStep (consultar c) s s
  counts : {c : RealizarArqueoCiegoCommand} → ShiftStep (contar c) abierto cerrado_arqueo
  closes : {c : GenerarCorteZCommand} → ShiftStep (cerrar c) cerrado_arqueo corte_z_emitido

module _ (blank : ℕ → Bool) (valid : ℕ → Text → ℕ → Bool) where
  -- A shift whose Corte Z is issued is frozen: no command on it changes any table, and every command
  -- but a Corte X, which only reads, is refused.
  pub run_shift_locked :
      (k : ShiftCommand) (id now : ℕ) (db : CashDb) {shift : TurnoCaja}
      → get_shift_by_id (shift_of k) db ≡ some shift
      → shift.status ≡ corte_z_emitido
      → ((run_shift blank valid k id now db).1 ≡ db)
        × ((is_corte_x k || is_refused (run_shift blank valid k id now db).0) ≡ true)
  unfolding run_shift agregar_operador registrar_movimiento generar_corte_x realizar_arqueo_ciego
      generar_corte_z
  run_shift_locked (agregar c) id now db found locked = ground arith
  run_shift_locked (registrar c) id now db found locked = ground arith
  run_shift_locked (consultar c) id now db found locked = ground arith
  run_shift_locked (contar c) id now db found locked = ground arith
  run_shift_locked (cerrar c) id now db found locked = ground arith

  -- The state that each command succeeds in, and the one that is stored then.
  agregar_status :
      (c : AgregarOperadorCommand) (now : ℕ) (db : CashDb) {shift : TurnoCaja} {r : TurnoCaja}
      → get_shift_by_id c.shift_id db ≡ some shift
      → get_turno_row shift.id db ≡ some shift.row
      → (agregar_operador blank valid c now db).0 ≡ ok r
      → (shift.status ≡ abierto)
        × (turno_status shift.id (agregar_operador blank valid c now db).1.turnos ≡ some abierto)
  unfolding agregar_operador save_shift insert_shift update_turno
  agregar_status c now db found there ran = grind (arith, put_status, row_status)

  registrar_status :
      (c : RegistrarMovimientoCommand) (id now : ℕ) (db : CashDb) {shift : TurnoCaja}
      {r : TurnoCaja × MovimientoCaja}
      → get_shift_by_id c.shift_id db ≡ some shift
      → get_turno_row shift.id db ≡ some shift.row
      → (registrar_movimiento blank valid c id now db).0 ≡ ok r
      → (shift.status ≡ abierto)
        × (turno_status shift.id (registrar_movimiento blank valid c id now db).1.turnos
            ≡ some abierto)
  unfolding registrar_movimiento add_movement update_turno
  registrar_status c id now db found there ran = grind (arith, put_status, row_status)

  contar_status :
      (c : RealizarArqueoCiegoCommand) (id now : ℕ) (db : CashDb) {shift : TurnoCaja}
      {r : TurnoCaja × ArqueoCiego}
      → get_shift_by_id c.shift_id db ≡ some shift
      → get_turno_row shift.id db ≡ some shift.row
      → (realizar_arqueo_ciego blank valid c id now db).0 ≡ ok r
      → (shift.status ≡ abierto)
        × (turno_status shift.id (realizar_arqueo_ciego blank valid c id now db).1.turnos
            ≡ some cerrado_arqueo)
  unfolding realizar_arqueo_ciego save_arqueo_ciego update_turno
  contar_status c id now db found there ran = grind (arith, put_status, row_status)

  cerrar_status :
      (c : GenerarCorteZCommand) (id now : ℕ) (db : CashDb) {shift : TurnoCaja}
      {r : TurnoCaja × CorteCaja}
      → get_shift_by_id c.shift_id db ≡ some shift
      → get_turno_row shift.id db ≡ some shift.row
      → (generar_corte_z blank valid c id now db).0 ≡ ok r
      → (shift.status ≡ cerrado_arqueo)
        × (turno_status shift.id (generar_corte_z blank valid c id now db).1.turnos
            ≡ some corte_z_emitido)
  unfolding generar_corte_z save_corte_z update_turno
  cerrar_status c id now db found there ran = grind (arith, put_status, row_status)

  step_to :
      (k : ShiftCommand) (shift : TurnoCaja) (db' after : CashDb) {s t : TurnoCajaStatus}
      → shift.id ≡ shift_of k
      → db' ≡ after
      → ShiftStep k s t
      → (shift.status ≡ s) × (turno_status shift.id after.turnos ≡ some t)
      → (shift' : TurnoCaja) × (get_shift_by_id (shift_of k) db' ≡ some shift')
        × ShiftStep k shift.status shift'.status
  step_to k shift db' after {s} {t} named same step (from, to) =
      let (shift', there, status) = read_shift (shift_of k) db' (
        ap (λ d. turno_status (shift_of k) d.turnos) same
        ∙ ap (λ i. turno_status i after.turnos) (sym named)
        ∙ to) in
      (
        shift',
        there,
        subst (λ a. ShiftStep k a shift'.status) (sym from)
            (subst (ShiftStep k s) (sym status) step),
      )

  corte_x_keeps :
      (c : GenerarCorteXCommand) (id now : ℕ) (db : CashDb)
      → (done (generar_corte_x blank valid c id now db)).1 ≡ db
  unfolding generar_corte_x
  corte_x_keeps c id now db = ground arith

  run_step :
      (k : ShiftCommand) (id now : ℕ) (db : CashDb) {shift : TurnoCaja}
      → get_shift_by_id (shift_of k) db ≡ some shift
      → get_turno_row shift.id db ≡ some shift.row
      → shift.id ≡ shift_of k
      → (run_shift blank valid k id now db).0 ≡ ok tt
      → (shift' : TurnoCaja) × (get_shift_by_id (shift_of k) (run_shift blank valid k id now db).1
          ≡ some shift')
        × ShiftStep k shift.status shift'.status
  unfolding run_shift
  run_step (agregar c) id now db {shift} found there named ran =
      let (r, run, same) = done_ok (agregar_operador blank valid c now db) ran in
      step_to (agregar c) shift _ _ named same joins (agregar_status c now db found there run)
  run_step (registrar c) id now db {shift} found there named ran =
      let (r, run, same) = done_ok (registrar_movimiento blank valid c id now db) ran in
      step_to (registrar c) shift _ _ named same moves
        (registrar_status c id now db found there run)
  run_step (consultar c) id now db {shift} found there named ran =
      (shift, ap (get_shift_by_id c.shift_id) (corte_x_keeps c id now db) ∙ found, reads)
  run_step (contar c) id now db {shift} found there named ran =
      let (r, run, same) = done_ok (realizar_arqueo_ciego blank valid c id now db) ran in
      step_to (contar c) shift _ _ named same counts (contar_status c id now db found there run)
  run_step (cerrar c) id now db {shift} found there named ran =
      let (r, run, same) = done_ok (generar_corte_z blank valid c id now db) ran in
      step_to (cerrar c) shift _ _ named same closes (cerrar_status c id now db found there run)

  -- A command that succeeds on a stored shift leaves it stored in the state that the command brings:
  -- adding an operator and recording a movement keep an open shift open, the blind count makes an open
  -- one counted, the Corte Z closes a counted one, and a Corte X leaves it in the state that it has,
  -- whichever that is. No count is skipped, and none is taken back.
  pub run_shift-ShiftStep :
      (k : ShiftCommand) (id now : ℕ) (db : CashDb) {shift : TurnoCaja}
      → get_shift_by_id (shift_of k) db ≡ some shift
      → (run_shift blank valid k id now db).0 ≡ ok tt
      → (shift' : TurnoCaja) × (get_shift_by_id (shift_of k) (run_shift blank valid k id now db).1
          ≡ some shift')
        × ShiftStep k shift.status shift'.status
  run_shift-ShiftStep k id now db {shift} found ran =
      let (there, named) = shift_row (shift_of k) db found in
      let stored = ap (λ i. get_turno_row i db) named ∙ there in
      run_step k id now db found stored named ran
