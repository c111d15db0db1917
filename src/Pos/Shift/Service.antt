-- ===== src/Pos/Shift/Service.antt =====
-- `CashShiftDomainService` of packages/pos/src/cash-shift-service.ts, with the shared strategy. Each
-- method awaits its calls; an operation is taken as one step, since its save compares the version that
-- it has read. The instant and the fresh identifiers are arguments. The pulse to the cash drawer, whose
-- failure is ignored, is left out.
use tridentpos.Prelude.{
  is_some, codes, ℤ, pos, ℕ, ◌+◌, ◌-ℤ◌, ◌==◌, leb_ℤ, ltb_ℤ, not, contains, Bool, Option, none, some,
  [], ◌∷◌, ◌++◌, if◌then◌else◌, Text, is_blank, trim,
}
use tridentpos.Pos.Errors.{
  pure, raise, gets, or_raise, raise_if, ◌>>=◌, ◌>>◌, missing_tenant_identity, shift_already_open,
  shift_not_found, shift_locked, shift_invalid_status, blind_count_required,
  unauthorized_shift_operator, invalid_cash_movement, invalid_opening_float, invalid_declared_cash,
  invalid_operator_pin, occ_conflict,
}
use tridentpos.Pos.Shift.{
  TurnoCajaStatus, abierto, cerrado_arqueo, corte_z_emitido, TurnoCaja, MovimientoCaja,
  MovimientoCajaType, fondo_inicial, ArqueoCiego, CorteCaja, CorteCajaType, corte_x, corte_z,
}
use tridentpos.Pos.Shift.Breakdown.{Breakdown, compute_breakdown}
use tridentpos.Pos.Shift.Strategy.{can_operate, can_add_operator, can_close}
use tridentpos.Pos.Shift.Repository.{
  Cash, CashDb, get_shift_by_id, get_active_shift, save_shift, add_movement, list_movements,
  save_arqueo_ciego, save_corte_z,
}

pub record AbrirTurnoCommand : Type 0 where
  pub organization_id : ℕ
  pub branch_id : ℕ
  pub station_id : ℕ
  pub responsible_user_id : ℕ
  pub opened_by_user_id : Option ℕ
  pub opening_cash_float : ℤ
  pub shift_number : Option ℕ
  pub assignment_strategy : Option ℕ
  pub operator_pin : Option Text

pub record AgregarOperadorCommand : Type 0 where
  pub shift_id : ℕ
  pub operator_user_id : ℕ
  pub requesting_user_id : ℕ
  pub expected_version : ℕ
  pub requesting_pin : Option Text

pub record RegistrarMovimientoCommand : Type 0 where
  pub shift_id : ℕ
  pub operator_user_id : ℕ
  pub movement_type : MovimientoCajaType
  pub amount : ℤ
  pub reason : Text
  pub reference_id : Option ℕ
  pub expected_version : ℕ
  pub operator_pin : Option Text

pub record GenerarCorteXCommand : Type 0 where
  pub shift_id : ℕ
  pub requested_by_user_id : ℕ
  pub requested_by_pin : Option Text

pub record RealizarArqueoCiegoCommand : Type 0 where
  pub shift_id : ℕ
  pub performed_by_user_id : ℕ
  pub declared_cash : ℤ
  pub expected_version : ℕ
  pub performed_by_pin : Option Text

pub record GenerarCorteZCommand : Type 0 where
  pub shift_id : ℕ
  pub closed_by_user_id : ℕ
  pub expected_version : ℕ
  pub closed_by_pin : Option Text

abbrev pub or_default : ℕ → Option ℕ → ℕ
or_default d none = d
or_default d (some n) = n

-- The name `COMPARTIDO`.
abbrev pub compartido : ℕ
compartido = 1

unfoldable pub require_shift : ℕ → ℕ → Cash TurnoCaja
require_shift id expected = do
  shift ← or_raise (← gets (get_shift_by_id id)) shift_not_found
  raise_if (not (shift.version == expected)) (occ_conflict shift.id expected shift.version)
  pure shift

-- Only an open shift goes on.
abbrev pub check_abierto : TurnoCajaStatus → Cash (Unit {0})
check_abierto abierto = pure tt
check_abierto cerrado_arqueo = raise shift_invalid_status
check_abierto corte_z_emitido = raise shift_locked

-- Only a counted shift goes on.
abbrev pub check_counted : TurnoCajaStatus → Cash (Unit {0})
check_counted abierto = raise blind_count_required
check_counted cerrado_arqueo = pure tt
check_counted corte_z_emitido = raise shift_locked

unfoldable pub new_corte : ℕ → CorteCajaType → ℕ → TurnoCaja → Breakdown → ℕ → CorteCaja
new_corte id kind user shift b now = record {
  id = id;
  turno_caja_id = shift.id;
  tipo_corte = kind;
  generated_by_user_id = user;
  opening_cash_float = shift.opening_cash_float;
  total_ingresos = b.total_ingresos;
  total_egresos = b.total_egresos;
  total_ventas_efectivo = b.total_ventas_efectivo;
  total_calculado = b.total_calculado;
  total_declarado = shift.closing_declared_cash;
  diferencia = shift.cash_difference;
  desglose_operadores = b.desglose_operadores;
  generated_at = now;
}

-- The breakdown of the stored movements of a shift.
unfoldable pub breakdown_of : TurnoCaja → CashDb → Breakdown
breakdown_of shift db = compute_breakdown shift.opening_cash_float (list_movements shift.id db)

abbrev pub counted_shift : TurnoCaja → ℤ → ℤ → ℕ → TurnoCaja
counted_shift shift declared calculated now = record shift {
  row = record shift.row {
    status = cerrado_arqueo;
    closing_declared_cash = some declared;
    calculated_cash_total = some calculated;
    cash_difference = some (declared -ℤ calculated);
    version = shift.version + 1;
    updated_at = now;
  };
}

module _ (blank : ℕ → Bool) (valid_pin : ℕ → Text → ℕ → Bool) where
  -- A pin is always asked for, and awaited.
  unfoldable pub validate_pin : ℕ → Option Text → ℕ → Cash (Unit {0})
  validate_pin user none station = raise invalid_operator_pin
  validate_pin user (some pin) station = do
    raise_if (is_blank pin) invalid_operator_pin
    raise_if (not (valid_pin user pin station)) invalid_operator_pin

  unfoldable pub new_shift : AbrirTurnoCommand → ℕ → ℕ → TurnoCaja
  new_shift command id now = record {
    row = record {
      id = id;
      organization_id = command.organization_id;
      branch_id = command.branch_id;
      station_id = command.station_id;
      responsible_user_id = command.responsible_user_id;
      opened_by_user_id = or_default command.responsible_user_id command.opened_by_user_id;
      shift_number = or_default 1 command.shift_number;
      opening_cash_float = command.opening_cash_float;
      closing_declared_cash = none;
      calculated_cash_total = none;
      cash_difference = none;
      status = abierto;
      assignment_strategy = or_default compartido command.assignment_strategy;
      opened_at = now;
      closed_at = none;
      version = 1;
      updated_at = now;
    };
    participating_operators = command.responsible_user_id ∷ [];
  }

  -- The movement of an initial float that is not zero.
  unfoldable pub record_float : TurnoCaja → ℕ → ℕ → ℕ → Cash (Unit {0})
  record_float saved operator movement_id now =
      if ltb_ℤ (pos 0) saved.opening_cash_float
      then (do
        add_movement
            (record {
              id = movement_id;
              turno_caja_id = saved.id;
              operator_user_id = operator;
              movement_type = fondo_inicial;
              amount = saved.opening_cash_float;
              reason = codes "Fondo inicial de apertura de turno";
              reference_id = none;
              created_at = now;
            })
            saved saved.version
        pure tt)
      else pure tt

  unfoldable pub abrir_turno : AbrirTurnoCommand → ℕ → ℕ → ℕ → Cash TurnoCaja
  unfolding validate_pin new_shift record_float
  abrir_turno command id movement_id now = do
    raise_if (blank command.organization_id) missing_tenant_identity
    raise_if (blank command.branch_id) missing_tenant_identity
    raise_if (is_some (← gets (get_active_shift command.station_id))) shift_already_open
    raise_if (ltb_ℤ command.opening_cash_float (pos 0)) invalid_opening_float
    validate_pin command.responsible_user_id command.operator_pin command.station_id
    saved ← save_shift blank (new_shift command id now) 0
    record_float saved command.responsible_user_id movement_id now
    pure saved

  -- An operator that takes part already is not added again.
  unfoldable pub agregar_operador : AgregarOperadorCommand → ℕ → Cash TurnoCaja
  unfolding require_shift validate_pin
  agregar_operador command now = do
    shift ← require_shift command.shift_id command.expected_version
    check_abierto shift.status
    validate_pin command.requesting_user_id command.requesting_pin shift.station_id
    raise_if
        (not (can_add_operator blank shift command.operator_user_id command.requesting_user_id))
        unauthorized_shift_operator
    if contains command.operator_user_id shift.participating_operators
        then pure shift
        else save_shift blank
            (record {
              row = record shift.row { version = shift.version + 1; updated_at = now };
              participating_operators =
                  shift.participating_operators ++ (command.operator_user_id ∷ []);
            })
            shift.version

  unfoldable pub registrar_movimiento :
      RegistrarMovimientoCommand → ℕ → ℕ → Cash (TurnoCaja × MovimientoCaja)
  unfolding require_shift validate_pin
  registrar_movimiento command id now = do
    shift ← require_shift command.shift_id command.expected_version
    check_abierto shift.status
    validate_pin command.operator_user_id command.operator_pin shift.station_id
    raise_if (not (can_operate blank shift command.operator_user_id)) unauthorized_shift_operator
    raise_if (leb_ℤ command.amount (pos 0)) invalid_cash_movement
    raise_if (is_blank command.reason) invalid_cash_movement
    let movement : MovimientoCaja = record {
      id = id;
      turno_caja_id = shift.id;
      operator_user_id = command.operator_user_id;
      movement_type = command.movement_type;
      amount = command.amount;
      reason = trim command.reason;
      reference_id = command.reference_id;
      created_at = now;
    }
    let updated = record shift {
      row = record shift.row { version = shift.version + 1; updated_at = now };
    }
    saved ← add_movement movement updated shift.version
    pure (updated, saved)

  -- A Corte X reads only.
  unfoldable pub generar_corte_x : GenerarCorteXCommand → ℕ → ℕ → Cash CorteCaja
  unfolding validate_pin
  generar_corte_x command id now = do
    shift ← or_raise (← gets (get_shift_by_id command.shift_id)) shift_not_found
    validate_pin command.requested_by_user_id command.requested_by_pin shift.station_id
    raise_if (not (can_operate blank shift command.requested_by_user_id))
        unauthorized_shift_operator
    b ← gets (breakdown_of shift)
    pure (new_corte id corte_x command.requested_by_user_id shift b now)

  unfoldable pub realizar_arqueo_ciego :
      RealizarArqueoCiegoCommand → ℕ → ℕ → Cash (TurnoCaja × ArqueoCiego)
  unfolding require_shift validate_pin
  realizar_arqueo_ciego command id now = do
    shift ← require_shift command.shift_id command.expected_version
    check_abierto shift.status
    raise_if (ltb_ℤ command.declared_cash (pos 0)) invalid_declared_cash
    validate_pin command.performed_by_user_id command.performed_by_pin shift.station_id
    raise_if (not (can_operate blank shift command.performed_by_user_id))
        unauthorized_shift_operator
    b ← gets (breakdown_of shift)
    let updated = counted_shift shift command.declared_cash b.total_calculado now
    saved ←
        save_arqueo_ciego
          (record {
            id = id;
            turno_caja_id = shift.id;
            performed_by_user_id = command.performed_by_user_id;
            declared_cash = command.declared_cash;
            calculated_cash = b.total_calculado;
            difference = command.declared_cash -ℤ b.total_calculado;
            created_at = now;
          })
          updated shift.version
    pure (updated, saved)

  unfoldable pub generar_corte_z : GenerarCorteZCommand → ℕ → ℕ → Cash (TurnoCaja × CorteCaja)
  unfolding require_shift validate_pin
  generar_corte_z command id now = do
    shift ← require_shift command.shift_id command.expected_version
    check_counted shift.status
    validate_pin command.closed_by_user_id command.closed_by_pin shift.station_id
    raise_if (not (can_close blank shift command.closed_by_user_id)) unauthorized_shift_operator
    b ← gets (breakdown_of shift)
    let final = record shift {
      row = record shift.row {
        status = corte_z_emitido;
        closed_at = some now;
        version = shift.version + 1;
        updated_at = now;
      };
    }
    saved ←
        save_corte_z blank (new_corte id corte_z command.closed_by_user_id shift b now) final
          shift.version
    pure (final, saved)
