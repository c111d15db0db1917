-- ===== src/Inventory.antt =====
-- Inventory and recipes: packages/inventory/src/types.ts, errors.ts and numerics.ts. Quantities are
-- decimal texts in the data and bigints at scale 4 in the computations.
pub mod Explosion
pub mod Cost
pub mod Kardex
mod Tests
use tridentpos.Prelude.{
  ℕ, ℤ, pos, ◌+ℤ◌, ◌-ℤ◌, ◌*ℤ◌, neg, Bool, true, false, ◌||◌, Option, none, some, List, Text, trim,
  ltb_ℤ, eq_ℤ, if◌then◌else◌,
}
use tridentpos.Prelude.Fallible.{Fallible, ok, err}
use tridentpos.Money
use tridentpos.Money.{round_quotient, scale_factor, min_scale4, max_scale4}
use tridentpos.Money.Decimal.{decimal_string_to_scaled, scaled_to_decimal_string}

pub record RecipeItem : Type 0 where
  pub id : ℕ
  pub ingredient_id : Option ℕ
  pub sub_recipe_id : Option ℕ
  pub quantity : Text
  pub gross_quantity : Text

pub record Recipe : Type 0 where
  pub id : ℕ
  pub yield_quantity : Text
  pub items : List RecipeItem

-- The errors by their codes, with the path of a cycle; `out_of_fuel` is the model's own.
pub data InventoryError : Type 0 where
  range_error zero_divisor invalid_recipe_item invalid_waste_command : InventoryError
  invalid_quantity_delta out_of_fuel : InventoryError
  recipe_not_found : ℕ → InventoryError
  cycle_detected : List ℕ → InventoryError

abbrev pub Inv : Type 0 → Type 0
Inv = Fallible InventoryError

abbrev pub of_money : {A : Type 0} → Money.Result A → Inv A
of_money (Money.ok a) = ok a
of_money (Money.err e) = err range_error

unfoldable pub parse_decimal12x4 : Text → Inv ℤ
unfolding trim decimal_string_to_scaled
parse_decimal12x4 input = of_money (decimal_string_to_scaled (trim input))

abbrev pub out_of_range : ℤ → Bool
out_of_range a = ltb_ℤ a min_scale4 || ltb_ℤ max_scale4 a

unfoldable pub format_decimal12x4 : ℤ → Inv Text
unfolding scaled_to_decimal_string
format_decimal12x4 scaled =
    if out_of_range scaled then err range_error else ok (scaled_to_decimal_string scaled)

-- `roundDiv` by the scale factor, whose guard cannot fail.
unfoldable pub multiply_scale4 : ℤ → ℤ → ℤ
unfolding round_quotient ◌*ℤ◌
multiply_scale4 a b = round_quotient (a *ℤ b) scale_factor

unfoldable pub divide_scale4 : ℤ → ℤ → Inv ℤ
unfolding round_quotient ◌*ℤ◌
divide_scale4 a b =
    if eq_ℤ b (pos 0) then err range_error else ok (round_quotient (a *ℤ scale_factor) b)

abbrev in_range : ℤ → Inv ℤ
in_range a = if out_of_range a then err range_error else ok a

unfoldable pub add_scale4 : ℤ → ℤ → Inv ℤ
add_scale4 a b = in_range (a +ℤ b)

unfoldable pub subtract_scale4 : ℤ → ℤ → Inv ℤ
subtract_scale4 a b = in_range (a -ℤ b)

unfoldable pub negate_scale4 : ℤ → Inv ℤ
negate_scale4 a = in_range (neg a)

unfoldable pub abs_scale4 : ℤ → ℤ
abs_scale4 a = if ltb_ℤ a (pos 0) then neg a else a
