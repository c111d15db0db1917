-- ===== src/Pos/Dining/Lines.antt =====
-- The lines of an account: `addItemToCuentaSync` and `cancelItemSync` of
-- packages/pos/src/dining-service.ts.
use tridentpos.Prelude.{
  ℤ, pos, ℕ, ◌+◌, ◌==◌, ◌||◌, not, Bool, true, false, Option, none, some, List, [], ◌∷◌, ◌++◌, map,
  if◌then◌else◌, Text, codes, is_blank,
}
use tridentpos.Pos.Types.{
  Cuenta, CuentaItem, CuentaItemModificador, CuentaItemStatus, ordenado, en_cocina, preparado,
  entregado, cancelado, is_abierta, is_cancelado,
}
use tridentpos.Pos.Errors.{
  Result, ok, err, pure, lift, or_raise, raise_if, ◌>>=◌, ◌>>◌, invalid_account_status,
  missing_reason, invalid_operator_pin, item_not_found, item_already_cancelled,
  invalid_supervisor_pin, cancellation_disallowed,
}
use tridentpos.Pos.Repository.{Dining, save_cuenta}
use tridentpos.Pos.Totals.{calculate_item_financials, recalculate_cuenta_totals}
use tridentpos.Pos.Policies.{can_cancel_item}
use tridentpos.Pos.Dining.{
  Validator, truthy, given_text, supervisor_user, require_cuenta, check_version,
}

pub record AddItemModifierInput : Type 0 where
  pub id : ℕ
  pub modifier_id : ℕ
  pub modifier_name_snapshot : ℕ
  pub modifier_price_applied : ℤ

pub record AddItemInput : Type 0 where
  pub id : ℕ
  pub product_id : ℕ
  pub product_name_snapshot : ℕ
  pub unit_price_applied : ℤ
  pub quantity : ℤ
  pub tax_rate_applied : ℤ
  pub discount_amount_applied : Option ℤ
  pub modifiers : List AddItemModifierInput

-- `itemInput.discountAmountApplied ?? 0n`
abbrev pub discount_of : AddItemInput → ℤ
discount_of input = elim input.discount_amount_applied [ none ↦ pos 0 | some d ↦ d ]

abbrev modificador_of : ℕ → AddItemModifierInput → CuentaItemModificador
modificador_of item mod_input = record {
  id = mod_input.id;
  cuenta_item_id = item;
  modifier_id = mod_input.modifier_id;
  modifier_name_snapshot = mod_input.modifier_name_snapshot;
  modifier_price_applied = mod_input.modifier_price_applied;
}

unfoldable pub new_item : ℕ → AddItemInput → ℕ → CuentaItem
new_item cuenta_id input now =
    let discount = discount_of input in
    let f =
      calculate_item_financials input.unit_price_applied input.quantity input.tax_rate_applied
        discount in
    record {
      row = record {
        id = input.id;
        cuenta_id = cuenta_id;
        product_id = input.product_id;
        product_name_snapshot = input.product_name_snapshot;
        unit_price_applied = input.unit_price_applied;
        quantity = input.quantity;
        tax_rate_applied = input.tax_rate_applied;
        tax_amount_applied = f.tax_amount;
        discount_amount_applied = discount;
        subtotal = f.subtotal;
        total = f.total;
        status = ordenado;
        cancellation_reason = none;
        cancelled_by_user_id = none;
        cancelled_at = none;
        requires_waste_record = false;
        created_at = now;
      };
      modifiers = map (modificador_of input.id) input.modifiers;
    }

-- The account with other lines: the totals are computed from all of them, and the version goes up.
unfoldable pub with_items : Cuenta → List CuentaItem → ℕ → Cuenta
with_items cuenta items now =
    let totals = recalculate_cuenta_totals items cuenta.tips_total in
    record {
      row = record cuenta.row {
        subtotal = totals.subtotal;
        tax_total = totals.tax_total;
        discounts_total = totals.discounts_total;
        total_amount = totals.total_amount;
        version = cuenta.version + 1;
        updated_at = now;
      };
      items = items;
    }

unfoldable pub add_item_to_cuenta : ℕ → ℕ → AddItemInput → ℕ → Dining Cuenta
unfolding require_cuenta check_version
add_item_to_cuenta cuenta_id expected_version input now = do
  cuenta ← require_cuenta cuenta_id
  raise_if (not (is_abierta cuenta.status)) invalid_account_status
  check_version cuenta cuenta_id expected_version
  let items = cuenta.items ++ (new_item cuenta_id input now ∷ [])
  save_cuenta (with_items cuenta items now) expected_version

pub record CancelItemInput : Type 0 where
  pub cuenta_id : ℕ
  pub item_id : ℕ
  pub expected_version : ℕ
  pub operator_user_id : ℕ
  pub operator_pin : Text
  pub supervisor_pin : Option Text
  pub kitchen_status : Option Text
  pub reason : Text

-- The text of a status, which `input.kitchenStatus ?? item.status` falls back on.
abbrev pub status_text : CuentaItemStatus → Text
status_text ordenado = codes "ORDENADO"
status_text en_cocina = codes "EN_COCINA"
status_text preparado = codes "PREPARADO"
status_text entregado = codes "ENTREGADO"
status_text cancelado = codes "CANCELADO"

abbrev pub kitchen_status_of : CancelItemInput → CuentaItem → Text
kitchen_status_of input item = elim input.kitchen_status [
  | none ↦ status_text item.status
  | some s ↦ s
]

-- `cuenta.items.find`, and the list with the first item of that identifier replaced, which is
-- `updatedItems[itemIndex] = updatedItem`.
unfoldable pub find_item : ℕ → List CuentaItem → Option CuentaItem
find_item id [] = none
find_item id (i ∷ items) = if i.id == id then some i else find_item id items

unfoldable pub replace_item : ℕ → CuentaItem → List CuentaItem → List CuentaItem
replace_item id item [] = []
replace_item id item (i ∷ items) =
    if i.id == id then item ∷ items else i ∷ replace_item id item items

abbrev pub cancelled_item : CuentaItem → CancelItemInput → Bool → ℕ → CuentaItem
cancelled_item item input waste now = record item {
  row = record item.row {
    status = cancelado;
    cancellation_reason = some input.reason;
    cancelled_by_user_id = some input.operator_user_id;
    cancelled_at = some now;
    requires_waste_record = waste;
  };
}

-- The end of `cancelItemSync`, once the item is found and the supervisor's pin, if any, checked.
unfoldable pub finish_cancellation :
    CancelItemInput → ℕ → Cuenta → CuentaItem → Bool → Dining (Cuenta × CuentaItem × Bool)
finish_cancellation input now cuenta item authorized = do
  let check = can_cancel_item (record {
    kitchen_status = kitchen_status_of input item;
    has_supervisor_authorization = authorized;
    reason = input.reason;
  })
  raise_if (not check.allowed) cancellation_disallowed
  let updated = cancelled_item item input check.requires_waste_record now
  let items = replace_item input.item_id updated cuenta.items
  saved ← save_cuenta (with_items cuenta items now) input.expected_version
  pure (saved, updated, check.requires_waste_record)

module _ (validate_pin : Validator) where
  -- A supervisor pin that is given has to be valid, for the supervisor or for the operator.
  unfoldable pub supervisor_authorization : ℕ → Option Text → Result Bool
  supervisor_authorization operator none = ok false
  supervisor_authorization operator (some pin) =
      if truthy (validate_pin supervisor_user pin) || truthy (validate_pin operator pin)
      then ok true
      else err invalid_supervisor_pin

  unfoldable pub cancel_item : CancelItemInput → ℕ → Dining (Cuenta × CuentaItem × Bool)
  unfolding require_cuenta check_version
  cancel_item input now = do
    raise_if (is_blank input.reason) missing_reason
    raise_if (not (truthy (validate_pin input.operator_user_id input.operator_pin)))
        invalid_operator_pin
    cuenta ← require_cuenta input.cuenta_id
    check_version cuenta input.cuenta_id input.expected_version
    item ← or_raise (find_item input.item_id cuenta.items) item_not_found
    raise_if (is_cancelado item.status) item_already_cancelled
    authorized ←
        lift (supervisor_authorization input.operator_user_id (given_text input.supervisor_pin))
    finish_cancellation input now cuenta item authorized
