-- ===== src/Pos/Dining/Closing.antt =====
-- The end of an account: `closeCuentaSync`, `cancelCuentaSync` and `splitCuentaSync` of
-- packages/pos/src/dining-service.ts.
use tridentpos.Prelude.{
  ℤ, pos, ℕ, ◌+◌, ◌||◌, not, eq_ℤ, ◌+ℤ◌, Option, none, some, List, [], ◌∷◌, Text, is_blank,
}
use tridentpos.Pos.Types.{Mesa, Cuenta, CuentaStatus, pagada, anulada, impresa, is_active}
use tridentpos.Pos.Errors.{
  pure, raise, gets, lift, raise_if, ◌>>=◌, ◌>>◌, invalid_account_status, already_cancelled,
  missing_reason, invalid_operator_pin, manager_pin_required, invalid_manager_pin,
  split_invariant_violation,
}
use tridentpos.Pos.Repository.{Dining, get_mesa, save_cuenta}
use tridentpos.Pos.Split.{SplitPartitionPlan, prorate_split}
use tridentpos.Pos.Dining.{
  Validator, truthy, given_id, given_text, manager_user, gerente_user, require_cuenta,
  check_version, free_table, save_some,
}

-- `closedStatus: 'PAGADA' | 'ANULADA'`
pub data ClosedStatus : Type 0 where
  as_pagada as_anulada : ClosedStatus

abbrev pub status_of : ClosedStatus → CuentaStatus
status_of as_pagada = pagada
status_of as_anulada = anulada

abbrev pub closed_cuenta : Cuenta → CuentaStatus → ℕ → Cuenta
closed_cuenta cuenta status now = record cuenta {
  row = record cuenta.row {
    status = status;
    closed_at = some now;
    version = cuenta.version + 1;
    updated_at = now;
  };
}

unfoldable pub close_cuenta : ℕ → ℕ → ClosedStatus → ℕ → Dining (Cuenta × Option Mesa)
unfolding require_cuenta check_version
close_cuenta cuenta_id expected_version closed_status now = do
  cuenta ← require_cuenta cuenta_id
  raise_if (not (is_active cuenta.status)) invalid_account_status
  check_version cuenta cuenta_id expected_version
  saved ← save_cuenta (closed_cuenta cuenta (status_of closed_status) now) expected_version
  mesa ← free_table saved cuenta_id now
  pure (saved, mesa)

pub record CancelCuentaInput : Type 0 where
  pub cuenta_id : ℕ
  pub expected_version : ℕ
  pub reason : Text
  pub requested_by_user_id : ℕ
  pub requested_by_pin : Text
  pub manager_pin : Option Text

pub record SplitCuentaInput : Type 0 where
  pub cuenta_id : ℕ
  pub expected_version : ℕ
  pub partitions : List SplitPartitionPlan
  pub performed_by_user_id : ℕ
  pub operator_pin : Text

-- `PAGADA` and `ANULADA` are refused, by different codes.
abbrev pub check_cancellable : CuentaStatus → Dining (Unit {0})
check_cancellable pagada = raise invalid_account_status
check_cancellable anulada = raise already_cancelled
check_cancellable _ = pure tt

-- `subCuentas.reduce((sum, c) => sum + c.totalAmount, 0n)`
unfoldable pub sum_total_amounts : ℤ → List Cuenta → ℤ
sum_total_amounts sum [] = sum
sum_total_amounts sum (c ∷ cs) = sum_total_amounts (sum +ℤ c.total_amount) cs

unfoldable pub save_sub_cuentas : List Cuenta → Dining (Unit {0})
save_sub_cuentas [] = pure tt
save_sub_cuentas (sub ∷ subs) = do save_cuenta sub 0; save_sub_cuentas subs

link_first : List Cuenta → ℕ → Option Mesa → Dining (Option Mesa)
link_first [] now mesa = pure none
link_first (sub ∷ subs) now none = pure none
link_first (sub ∷ subs) now (some mesa) =
    save_some
      (record mesa {
        current_account_id = some sub.id;
        version = mesa.version + 1;
        updated_at = now;
      })
      mesa.version

-- The table of the account is linked to the first part.
unfoldable pub link_table : List Cuenta → ℕ → Option ℕ → Dining (Option Mesa)
unfolding link_first
link_table subs now none = pure none
link_table subs now (some mesa_id) = do link_first subs now (← gets (get_mesa mesa_id))

module _ (validate_pin : Validator) where
  unfoldable pub check_manager : ℕ → Option Text → Dining (Unit {0})
  check_manager requester none = raise manager_pin_required
  check_manager requester (some pin) =
      raise_if
        (not (
          truthy (validate_pin manager_user pin)
          || (truthy (validate_pin gerente_user pin) || truthy (validate_pin requester pin))))
        invalid_manager_pin

  -- A printed account needs the pin of a manager.
  unfoldable pub check_printed : CuentaStatus → ℕ → Option Text → Dining (Unit {0})
  unfolding check_manager
  check_printed impresa requester pin = check_manager requester (given_text pin)
  check_printed _ requester pin = pure tt

  unfoldable pub cancel_cuenta : CancelCuentaInput → ℕ → Dining (Cuenta × Option Mesa)
  unfolding require_cuenta check_version check_printed
  cancel_cuenta input now = do
    raise_if (is_blank input.reason) missing_reason
    raise_if (not (truthy (validate_pin input.requested_by_user_id input.requested_by_pin)))
        invalid_operator_pin
    cuenta ← require_cuenta input.cuenta_id
    check_cancellable cuenta.status
    check_version cuenta input.cuenta_id input.expected_version
    check_printed cuenta.status input.requested_by_user_id input.manager_pin
    saved ← save_cuenta (closed_cuenta cuenta anulada now) input.expected_version
    mesa ← free_table saved saved.id now
    pure (saved, mesa)

  -- The parts are stored before the account is marked, each by a statement of its own.
  unfoldable pub split_cuenta : SplitCuentaInput → ℕ → Dining (Cuenta × List Cuenta × Option Mesa)
  unfolding require_cuenta check_version
  split_cuenta input now = do
    raise_if (not (truthy (validate_pin input.performed_by_user_id input.operator_pin)))
        invalid_operator_pin
    cuenta ← require_cuenta input.cuenta_id
    raise_if (not (is_active cuenta.status)) invalid_account_status
    check_version cuenta input.cuenta_id input.expected_version
    subs ← lift (prorate_split cuenta input.partitions now)
    raise_if (not (eq_ℤ (sum_total_amounts (pos 0) subs) cuenta.total_amount))
        split_invariant_violation
    save_sub_cuentas subs
    saved ← save_cuenta (closed_cuenta cuenta anulada now) input.expected_version
    mesa ← link_table subs now (given_id cuenta.mesa_id)
    pure (saved, subs, mesa)
