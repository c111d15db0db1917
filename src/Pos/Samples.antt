-- ===== src/Pos/Samples.antt =====
-- Concrete tables and accounts for the tests.
use tridentpos.Prelude.{ℤ, pos, ℕ, Option, none, some, [], ◌∷◌, false}
use tridentpos.Pos.Types.{
  Mesa, MesaStatus, disponible, ocupada, Cuenta, CuentaRow, CuentaItem, CuentaItemRow,
  CuentaItemStatus, ordenado, entregado, CuentaStatus, comedor,
}
use tridentpos.Pos.Repository.{DiningDb}
use tridentpos.Pos.Dining.{Validator, now_known}
use tridentpos.Prelude.{true}

abbrev pub item_row : ℕ → CuentaItemStatus → ℤ → ℤ → ℤ → ℤ → CuentaItemRow
item_row id status subtotal discount tax total = record {
  id = id;
  cuenta_id = 5;
  product_id = 30;
  product_name_snapshot = 31;
  unit_price_applied = subtotal;
  quantity = pos 10_000;
  tax_rate_applied = pos 1_600;
  tax_amount_applied = tax;
  discount_amount_applied = discount;
  subtotal = subtotal;
  total = total;
  status = status;
  cancellation_reason = none;
  cancelled_by_user_id = none;
  cancelled_at = none;
  requires_waste_record = false;
  created_at = id;
}

-- A soup for 100.00 and a dish for 200.00 less 50.00, with 16% tax.
abbrev pub soup : CuentaItemRow
soup = item_row 61 ordenado (pos 1_000_000) (pos 0) (pos 160_000) (pos 1_160_000)

abbrev pub dish : CuentaItemRow
dish = item_row 62 entregado (pos 2_000_000) (pos 500_000) (pos 240_000) (pos 1_740_000)

abbrev pub line : CuentaItemRow → CuentaItem
line row = record { row = row; modifiers = [] }

abbrev pub account_row : CuentaStatus → CuentaRow
account_row status = record {
  id = 5;
  folio_number = none;
  epoch_id = 1;
  mesa_id = some 7;
  account_type = comedor;
  status = status;
  subtotal = pos 3_000_000;
  tax_total = pos 400_000;
  discounts_total = pos 500_000;
  tips_total = pos 100_000;
  total_amount = pos 3_000_000;
  opened_by_user_id = 11;
  current_waiter_user_id = some 11;
  guest_count = some (pos 2);
  opened_at = 100;
  printed_at = none;
  closed_at = none;
  parent_cuenta_id = none;
  split_sequence = none;
  version = 3;
  updated_at = 200;
}

abbrev pub account : CuentaStatus → Cuenta
account status = record { row = account_row status; items = line soup ∷ line dish ∷ [] }

abbrev pub mesa_of : ℕ → MesaStatus → Option ℕ → Mesa
mesa_of id status holder = record {
  id = id;
  room_name = 1;
  table_number = id;
  status = status;
  current_account_id = holder;
  pos_x = none;
  pos_y = none;
  capacity = none;
  version = 2;
  updated_at = 100;
}

-- Account 5 at table 7, and table 8 available.
abbrev pub taken : Mesa
taken = mesa_of 7 ocupada (some 5)

abbrev pub empty : Mesa
empty = mesa_of 8 disponible none

abbrev pub tables : CuentaStatus → DiningDb
tables status = record {
  mesas = taken ∷ empty ∷ [];
  cuentas = account_row status ∷ [];
  cuenta_items = soup ∷ dish ∷ [];
  modificadores = [];
}

-- Every pin is right, and none is.
abbrev pub accept : Validator
accept user pin = now_known true

abbrev pub refuse : Validator
refuse user pin = now_known false
