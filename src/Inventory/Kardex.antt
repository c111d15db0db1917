-- ===== src/Inventory/Kardex.antt =====
-- The stock ledger's own rules: packages/inventory/src/kardex-domain.ts, with the types of types.ts.
use tridentpos.Prelude.{
  ℕ, ℤ, pos, Option, none, some, List, [], ◌∷◌, Text, codes, text_eq, is_blank, leb_ℤ, ◌==◌,
  if◌then◌else◌,
}
use tridentpos.Prelude.Fallible.{ok, ◌>>=◌, ◌>>◌, raise_if}
use tridentpos.Pos.Table.{order_rows}
use tridentpos.Inventory.{
  Inv, parse_decimal12x4, add_scale4, invalid_waste_command, invalid_quantity_delta,
}

pub data StockMovementType : Type 0 where
  compra consumo_kds merma ajuste_fisico transferencia : StockMovementType

-- The fields of `RegisterWasteCommand` that are checked.
pub record RegisterWasteCommand : Type 0 where
  pub command_id : Text
  pub organization_id : Text
  pub branch_id : Text
  pub warehouse_id : Text
  pub ingredient_id : Text
  pub quantity : Text
  pub reason_code : Text
  pub photo_attachment_url : Text

-- `!field || field.trim().length === 0`
abbrev require_text : Text → Inv (Unit {0})
require_text field = raise_if (is_blank field) invalid_waste_command

unfoldable pub validate_waste_command : RegisterWasteCommand → Inv (Unit {0})
validate_waste_command command = do
  require_text command.command_id
  require_text command.organization_id
  require_text command.branch_id
  require_text command.warehouse_id
  require_text command.ingredient_id
  require_text command.reason_code
  require_text command.photo_attachment_url
  quantity ← parse_decimal12x4 command.quantity
  raise_if (leb_ℤ quantity (pos 0)) invalid_quantity_delta

-- The movement that a text names, or none, which is the error.
unfoldable pub validate_movement_type : Text → Option StockMovementType
validate_movement_type s =
    if text_eq s (codes "COMPRA")
    then some compra
    else if text_eq s (codes "CONSUMO_KDS")
    then some consumo_kds
    else if text_eq s (codes "MERMA")
    then some merma
    else if text_eq s (codes "AJUSTE_FISICO")
    then some ajuste_fisico
    else if text_eq s (codes "TRANSFERENCIA")
    then some transferencia
    else none

-- An amount of an ingredient, and the total of one.
pub record GrossQuantity : Type 0 where
  pub ingredient_id : ℕ
  pub gross_scaled : ℤ

-- `map.set(id, addScale4(map.get(id) ?? 0n, gross))`, the map as its entries in the order of their setting.
unfoldable pub add_gross : GrossQuantity → List GrossQuantity → Inv (List GrossQuantity)
add_gross item [] = do
  sum ← add_scale4 (pos 0) item.gross_scaled
  ok (record item { gross_scaled = sum } ∷ [])
add_gross item (e ∷ es) =
    let rest = add_gross item es in
    if e.ingredient_id == item.ingredient_id
    then add_scale4 e.gross_scaled item.gross_scaled
      >>= (λ sum. ok (record e { gross_scaled = sum } ∷ es))
    else rest >>= (λ later. ok (e ∷ later))

unfoldable pub add_all_gross : List GrossQuantity → List GrossQuantity → Inv (List GrossQuantity)
add_all_gross [] totals = ok totals
add_all_gross (item ∷ items) totals = add_gross item totals >>= add_all_gross items

unfoldable pub aggregate_ingredient_quantities : List GrossQuantity → Inv (List GrossQuantity)
aggregate_ingredient_quantities items =
    add_all_gross items [] >>= (λ totals. ok (order_rows (λ e. e.ingredient_id) totals))
