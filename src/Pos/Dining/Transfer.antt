-- ===== src/Pos/Dining/Transfer.antt =====
-- `transferCuentaSync` of packages/pos/src/dining-service.ts.
use tridentpos.Prelude.{ℕ, ◌+◌, not, true, some, Text}
use tridentpos.Pos.Types.{Mesa, Cuenta}
use tridentpos.Pos.Errors.{
  pure, raise_if, ◌>>=◌, ◌>>◌, invalid_target_waiter_pin, source_mesa_not_found,
  target_mesa_not_found, transfer_disallowed,
}
use tridentpos.Pos.Repository.{Dining, save_cuenta, save_mesa}
use tridentpos.Pos.Policies.{validate_transfer}
use tridentpos.Pos.Dining.{
  Validator, truthy, require_cuenta, require_mesa, check_version, freed_mesa,
}
use tridentpos.Pos.Dining.Mesas.{occupied_mesa}

pub record TransferCuentaInput : Type 0 where
  pub cuenta_id : ℕ
  pub expected_version : ℕ
  pub source_mesa_id : ℕ
  pub target_mesa_id : ℕ
  pub source_waiter_user_id : ℕ
  pub target_waiter_user_id : ℕ
  pub target_waiter_pin : Text

abbrev pub moved_cuenta : Cuenta → ℕ → ℕ → ℕ → Cuenta
moved_cuenta cuenta mesa_id waiter now = record cuenta {
  row = record cuenta.row {
    mesa_id = some mesa_id;
    current_waiter_user_id = some waiter;
    version = cuenta.version + 1;
    updated_at = now;
  };
}

module _ (validate_pin : Validator) where
  -- What is written once the transfer is allowed: the source, the target and the account, in turn.
  unfoldable pub write_transfer :
      TransferCuentaInput → ℕ → Cuenta → Mesa → Mesa → Dining (Cuenta × Mesa × Mesa)
  write_transfer input now cuenta source target = do
    saved_source ← save_mesa (freed_mesa source now) source.version
    saved_target ← save_mesa (occupied_mesa target cuenta.id now) target.version
    saved ←
        save_cuenta (moved_cuenta cuenta target.id input.target_waiter_user_id now)
          input.expected_version
    pure (saved, saved_source, saved_target)

  unfoldable pub transfer_cuenta : TransferCuentaInput → ℕ → Dining (Cuenta × Mesa × Mesa)
  unfolding require_cuenta require_mesa check_version
  transfer_cuenta input now = do
    raise_if (not (truthy (validate_pin input.target_waiter_user_id input.target_waiter_pin)))
        invalid_target_waiter_pin
    cuenta ← require_cuenta input.cuenta_id
    check_version cuenta input.cuenta_id input.expected_version
    source ← require_mesa input.source_mesa_id source_mesa_not_found
    target ← require_mesa input.target_mesa_id target_mesa_not_found
    raise_if
        (not (
          validate_transfer source target cuenta (record {
            target_waiter_user_id = some input.target_waiter_user_id;
            target_waiter_pin_provided = true;
          })))
        transfer_disallowed
    write_transfer input now cuenta source target
