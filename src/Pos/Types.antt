-- ===== src/Pos/Types.antt =====
-- packages/pos/src/types.ts. An identifier is a number, since the code only compares them: 0 is the
-- empty string, which JavaScript takes for false. An instant is a number of milliseconds. A record of
-- the source that is stored in a table and its parts in another is its row with the parts added.
use tridentpos.Prelude.{ℤ, ℕ, Bool, true, false, List, Option, Text}

pub data MesaStatus : Type 0 where
  disponible ocupada en_cuenta bloqueada : MesaStatus

pub data AccountType : Type 0 where
  comedor mostrador rappi uber domicilio : AccountType

pub data CuentaStatus : Type 0 where
  abierta impresa pagada anulada : CuentaStatus

pub data CuentaItemStatus : Type 0 where
  ordenado en_cocina preparado entregado cancelado : CuentaItemStatus

pub record Mesa : Type 0 where
  pub id : ℕ
  pub room_name : ℕ
  pub table_number : ℕ
  pub status : MesaStatus
  pub current_account_id : Option ℕ
  pub pos_x : Option ℤ
  pub pos_y : Option ℤ
  pub capacity : Option ℤ
  pub version : ℕ
  pub updated_at : ℕ

pub record CuentaItemModificador : Type 0 where
  pub id : ℕ
  pub cuenta_item_id : ℕ
  pub modifier_id : ℕ
  pub modifier_name_snapshot : ℕ
  pub modifier_price_applied : ℤ

-- The columns of `cuenta_items`.
pub record CuentaItemRow : Type 0 where
  pub id : ℕ
  pub cuenta_id : ℕ
  pub product_id : ℕ
  pub product_name_snapshot : ℕ
  pub unit_price_applied : ℤ
  pub quantity : ℤ
  pub tax_rate_applied : ℤ
  pub tax_amount_applied : ℤ
  pub discount_amount_applied : ℤ
  pub subtotal : ℤ
  pub total : ℤ
  pub status : CuentaItemStatus
  pub cancellation_reason : Option Text
  pub cancelled_by_user_id : Option ℕ
  pub cancelled_at : Option ℕ
  pub requires_waste_record : Bool
  pub created_at : ℕ

pub record CuentaItem : Type 0 where
  pub row : CuentaItemRow
  pub open row use *
  pub modifiers : List CuentaItemModificador

-- The columns of `cuentas`.
pub record CuentaRow : Type 0 where
  pub id : ℕ
  pub folio_number : Option ℕ
  pub epoch_id : ℕ
  pub mesa_id : Option ℕ
  pub account_type : AccountType
  pub status : CuentaStatus
  pub subtotal : ℤ
  pub tax_total : ℤ
  pub discounts_total : ℤ
  pub tips_total : ℤ
  pub total_amount : ℤ
  pub opened_by_user_id : ℕ
  pub current_waiter_user_id : Option ℕ
  pub guest_count : Option ℤ
  pub opened_at : ℕ
  pub printed_at : Option ℕ
  pub closed_at : Option ℕ
  pub parent_cuenta_id : Option ℕ
  pub split_sequence : Option ℕ
  pub version : ℕ
  pub updated_at : ℕ

pub record Cuenta : Type 0 where
  pub row : CuentaRow
  pub open row use *
  pub items : List CuentaItem

abbrev pub is_disponible : MesaStatus → Bool
is_disponible disponible = true
is_disponible _ = false

abbrev pub is_cancelado : CuentaItemStatus → Bool
is_cancelado cancelado = true
is_cancelado _ = false

abbrev pub is_abierta : CuentaStatus → Bool
is_abierta abierta = true
is_abierta _ = false

-- `status === 'ABIERTA' || status === 'IMPRESA'`
abbrev pub is_active : CuentaStatus → Bool
is_active abierta = true
is_active impresa = true
is_active _ = false
