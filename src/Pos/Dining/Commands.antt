-- ===== src/Pos/Dining/Commands.antt =====
-- The commands on an open account of packages/pos/src/dining-service.ts: `reassignWaiterSync`,
-- `changeGuestCountSync` and `requestCheckSync`.
use tridentpos.Prelude.{ℤ, pos, ℕ, ◌+◌, ◌/◌, not, ltb_ℤ, Option, none, some, Text}
use tridentpos.Pos.Types.{Mesa, Cuenta, en_cuenta, impresa, is_active}
use tridentpos.Pos.Errors.{
  pure, gets, raise_if, ◌>>=◌, ◌>>◌, invalid_account_status, invalid_operator_pin,
  invalid_guest_count,
}
use tridentpos.Pos.Repository.{Dining, get_mesa, save_cuenta}
use tridentpos.Pos.Dining.{
  Validator, truthy, given_id, given_text, require_cuenta, check_version, save_some,
}

pub record ReassignWaiterInput : Type 0 where
  pub cuenta_id : ℕ
  pub expected_version : ℕ
  pub new_waiter_user_id : ℕ
  pub requesting_user_id : ℕ
  pub requesting_pin : Text

pub record ChangeGuestCountInput : Type 0 where
  pub cuenta_id : ℕ
  pub expected_version : ℕ
  pub guest_count : ℤ
  pub performed_by_user_id : ℕ
  pub operator_pin : Option Text

pub record RequestCheckInput : Type 0 where
  pub cuenta_id : ℕ
  pub expected_version : ℕ
  pub requested_by_user_id : ℕ
  pub operator_pin : Option Text
  pub next_folio_number : Option ℕ

-- `cuenta.folioNumber ?? input.nextFolioNumber ?? Math.floor(Date.now() / 1000)`
abbrev pub folio_of : Option ℕ → Option ℕ → ℕ → ℕ
folio_of (some n) next now = n
folio_of none (some n) now = n
folio_of none none now = now / 1000

unfoldable pub printed_cuenta : Cuenta → Option ℕ → ℕ → Cuenta
printed_cuenta cuenta next_folio now = record cuenta {
  row = record cuenta.row {
    folio_number = some (folio_of cuenta.folio_number next_folio now);
    status = impresa;
    printed_at = elim cuenta.printed_at [ none ↦ some now | some t ↦ some t ];
    version = cuenta.version + 1;
    updated_at = now;
  };
}

check_found : ℕ → Option Mesa → Dining (Option Mesa)
check_found now none = pure none
check_found now (some mesa) =
    save_some (record mesa { status = en_cuenta; version = mesa.version + 1; updated_at = now })
      mesa.version

unfoldable pub check_table : ℕ → Option ℕ → Dining (Option Mesa)
unfolding check_found
check_table now none = pure none
check_table now (some mesa_id) = do check_found now (← gets (get_mesa mesa_id))

module _ (validate_pin : Validator) where
  -- A pin that is left out is not asked for.
  unfoldable pub check_optional_pin : ℕ → Option Text → Dining (Unit {0})
  check_optional_pin user none = pure tt
  check_optional_pin user (some pin) =
      raise_if (not (truthy (validate_pin user pin))) invalid_operator_pin

  unfoldable pub reassign_waiter : ReassignWaiterInput → ℕ → Dining Cuenta
  unfolding require_cuenta check_version
  reassign_waiter input now = do
    raise_if (not (truthy (validate_pin input.requesting_user_id input.requesting_pin)))
        invalid_operator_pin
    cuenta ← require_cuenta input.cuenta_id
    raise_if (not (is_active cuenta.status)) invalid_account_status
    check_version cuenta input.cuenta_id input.expected_version
    save_cuenta
        (record cuenta {
          row = record cuenta.row {
            current_waiter_user_id = some input.new_waiter_user_id;
            version = cuenta.version + 1;
            updated_at = now;
          };
        })
        input.expected_version

  unfoldable pub change_guest_count : ChangeGuestCountInput → ℕ → Dining Cuenta
  unfolding require_cuenta check_version check_optional_pin
  change_guest_count input now = do
    raise_if (ltb_ℤ input.guest_count (pos 1)) invalid_guest_count
    check_optional_pin input.performed_by_user_id (given_text input.operator_pin)
    cuenta ← require_cuenta input.cuenta_id
    raise_if (not (is_active cuenta.status)) invalid_account_status
    check_version cuenta input.cuenta_id input.expected_version
    save_cuenta
        (record cuenta {
          row = record cuenta.row {
            guest_count = some input.guest_count;
            version = cuenta.version + 1;
            updated_at = now;
          };
        })
        input.expected_version

  unfoldable pub request_check : RequestCheckInput → ℕ → Dining (Cuenta × Option Mesa)
  unfolding require_cuenta check_version check_optional_pin check_table
  request_check input now = do
    check_optional_pin input.requested_by_user_id (given_text input.operator_pin)
    cuenta ← require_cuenta input.cuenta_id
    raise_if (not (is_active cuenta.status)) invalid_account_status
    check_version cuenta input.cuenta_id input.expected_version
    saved ← save_cuenta (printed_cuenta cuenta input.next_folio_number now) input.expected_version
    mesa ← check_table now (given_id saved.mesa_id)
    pure (saved, mesa)
