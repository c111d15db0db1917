-- ===== src/Inventory/Tests.antt =====
-- Explosions by packages/inventory/src/recipe-engine.ts.
use tridentpos.Prelude.{
  ℕ, suc, pos, ◌<◌, ◌≡◌, ◌≢◌, refl, arith, Option, none, some, List, [], ◌∷◌, codes, ◌==◌,
  if◌then◌else◌, inl, inr, Text, contains, Bool, true, false,
}
use tridentpos.Prelude.Fallible.{ok, err}
use tridentpos.Pos.Table.{find_row}
use tridentpos.Pos.Table.Order.{IsOrdered}
use tridentpos.Inventory.{
  invalid_waste_command, invalid_quantity_delta, Recipe, RecipeItem, cycle_detected, out_of_fuel,
}
use tridentpos.Inventory.Kardex.{
  GrossQuantity, aggregate_ingredient_quantities, RegisterWasteCommand, validate_waste_command,
}
use tridentpos.Inventory.Cost.{cost_line, calculate_recipe_cost}
use tridentpos.Inventory.Cost.Ends.{IsCosted, calculate_recipe_cost-Costs}
use tridentpos.Inventory.Explosion.{ingredient, sub_recipe, explode_ingredients, ExplodedIngredient}
use tridentpos.Inventory.Explosion.Depth.{Knows, HasFuel, explode_ingredients_terminates}
use tridentpos.Inventory.Explosion.Cycles.{stop, down, Fresh, explode_ingredients-Fresh}
use tridentpos.Inventory.Explosion.Leaves.{recipe_leaves}
use tridentpos.Inventory.Explosion.Leaves.Totals.{
  row_id, written, share_of, explode_ingredients-share_of,
}

abbrev of_ingredient : ℕ → ℕ → Text → RecipeItem
of_ingredient id i quantity = record {
  id = id;
  ingredient_id = some i;
  sub_recipe_id = none;
  quantity = quantity;
  gross_quantity = quantity;
}

abbrev of_recipe : ℕ → ℕ → Text → RecipeItem
of_recipe id r quantity = record {
  id = id;
  ingredient_id = none;
  sub_recipe_id = some r;
  quantity = quantity;
  gross_quantity = quantity;
}

-- Two units of sauce are of three units of tomato and one of salt.
abbrev sauce : Recipe
sauce = record {
  id = 2;
  yield_quantity = codes "2.0000";
  items = of_ingredient 21 101 (codes "3.0000") ∷ of_ingredient 22 100 (codes "1.0000") ∷ [];
}

abbrev pasta : Recipe
pasta = record {
  id = 1;
  yield_quantity = codes "1.0000";
  items = of_recipe 11 2 (codes "1.0000") ∷ of_ingredient 12 100 (codes "0.2500") ∷ [];
}

abbrev book : ℕ → Option Recipe
book r = if r == 2 then some sauce else if r == 1 then some pasta else none

abbrev total : ℕ → Text → ExplodedIngredient
total i quantity = record {
  ingredient_id = i;
  total_quantity = quantity;
  total_gross_quantity = quantity;
}

abbrev pasta_totals : List ExplodedIngredient
pasta_totals = total 100 (codes "0.7500") ∷ total 101 (codes "1.5000") ∷ []

pasta_explodes : explode_ingredients book 3 pasta ≡ ok pasta_totals
unfolding explode_ingredients tridentpos.Inventory.Explosion.positive_yield
    tridentpos.Inventory.parse_decimal12x4 tridentpos.Money.Decimal.is_decimal_string
    tridentpos.Money.Decimal.unsigned_decimal tridentpos.Money.Decimal.drop_minus
    tridentpos.Money.Decimal.digits_then_fraction tridentpos.Money.Decimal.four_digits
    tridentpos.Money.Decimal.unchecked_value tridentpos.Money.Decimal.starts_minus
    tridentpos.Prelude.◌+ℤ◌ tridentpos.Prelude.◌*ℤ◌ tridentpos.Money.Decimal.Digits.digits_value
    tridentpos.Money.Decimal.whole_part tridentpos.Money.Decimal.fraction_part
    tridentpos.Prelude.neg tridentpos.Inventory.Explosion.validate_recipe_item
    tridentpos.Prelude.xor tridentpos.Inventory.Explosion.add_entry
    tridentpos.Inventory.Explosion.effective tridentpos.Inventory.Explosion.explode_item
    tridentpos.Inventory.Explosion.explode_items tridentpos.Inventory.Explosion.explode_recursive
    tridentpos.Inventory.Explosion.explode_target tridentpos.Inventory.Explosion.format_entries
    tridentpos.Inventory.divide_scale4 tridentpos.Inventory.format_decimal12x4
    tridentpos.Inventory.multiply_scale4 tridentpos.Money.Decimal.Digits.number_to_string
    tridentpos.Money.Decimal.Digits.pad_start tridentpos.Money.Decimal.Digits.to_digits
    tridentpos.Money.Decimal.decimal_string_to_scaled
    tridentpos.Money.Decimal.scaled_to_decimal_string tridentpos.Money.round_quotient
    tridentpos.Pos.Table.insert_ordered tridentpos.Pos.Table.order_rows
    tridentpos.Pos.Table.order_rows_onto tridentpos.Prelude.signed tridentpos.Prelude.is_digit
    tridentpos.Prelude.is_white tridentpos.Prelude.trim tridentpos.Prelude.trim_start
pasta_explodes = refl

-- The sauce made of pasta made of the sauce.
abbrev loop : ℕ → Option Recipe
loop r =
    if r == 2 then some (record sauce { items = of_recipe 21 1 (codes "1.0000") ∷ [] }) else book r

cycle_found : explode_ingredients loop 4 pasta ≡ err (cycle_detected (1 ∷ 2 ∷ 1 ∷ []))
unfolding explode_ingredients tridentpos.Inventory.Explosion.positive_yield
    tridentpos.Inventory.parse_decimal12x4 tridentpos.Money.Decimal.is_decimal_string
    tridentpos.Money.Decimal.unsigned_decimal tridentpos.Money.Decimal.drop_minus
    tridentpos.Money.Decimal.digits_then_fraction tridentpos.Money.Decimal.four_digits
    tridentpos.Money.Decimal.unchecked_value tridentpos.Money.Decimal.starts_minus
    tridentpos.Prelude.◌+ℤ◌ tridentpos.Prelude.◌*ℤ◌ tridentpos.Money.Decimal.Digits.digits_value
    tridentpos.Money.Decimal.whole_part tridentpos.Money.Decimal.fraction_part
    tridentpos.Prelude.neg tridentpos.Inventory.Explosion.validate_recipe_item
    tridentpos.Prelude.xor tridentpos.Inventory.Explosion.add_entry
    tridentpos.Inventory.Explosion.effective tridentpos.Inventory.Explosion.explode_item
    tridentpos.Inventory.Explosion.explode_items tridentpos.Inventory.Explosion.explode_recursive
    tridentpos.Inventory.Explosion.explode_target tridentpos.Inventory.Explosion.format_entries
    tridentpos.Inventory.divide_scale4 tridentpos.Inventory.format_decimal12x4
    tridentpos.Inventory.multiply_scale4 tridentpos.Money.Decimal.Digits.number_to_string
    tridentpos.Money.Decimal.Digits.pad_start tridentpos.Money.Decimal.Digits.to_digits
    tridentpos.Money.Decimal.decimal_string_to_scaled
    tridentpos.Money.Decimal.scaled_to_decimal_string tridentpos.Money.round_quotient
    tridentpos.Pos.Table.insert_ordered tridentpos.Pos.Table.order_rows
    tridentpos.Pos.Table.order_rows_onto tridentpos.Prelude.signed tridentpos.Prelude.is_digit
    tridentpos.Prelude.is_white tridentpos.Prelude.trim tridentpos.Prelude.trim_start
cycle_found = refl

book-Knows : Knows (1 ∷ 2 ∷ []) book
book-Knows r recipe h = ground arith

explode_ingredients_terminates_example :
    HasFuel (explode_ingredients book 9 pasta)
    × (explode_ingredients book 9 pasta ≡ explode_ingredients book 3 pasta)
explode_ingredients_terminates_example =
    explode_ingredients_terminates book (1 ∷ 2 ∷ []) pasta 9 book-Knows (omega arith)

explode_ingredients-Fresh_example : Fresh (1 ∷ []) (2 ∷ [])
unfolding tridentpos.Inventory.Explosion.validate_recipe_item
explode_ingredients-Fresh_example =
    explode_ingredients-Fresh book 3 pasta {out = pasta_totals} pasta_explodes
      (down sauce (of_recipe 11 2 (codes "1.0000")) (inl refl) refl refl stop)

explode_ingredients-share_of_example :
    (leaves : List tridentpos.Inventory.Explosion.IngredientEntry) × (recipe_leaves book 3 pasta
        (pos 10000)
        (1 ∷ [])
      ≡ ok leaves)
    × IsOrdered row_id pasta_totals
    × (find_row row_id 100 pasta_totals ≡ written 100 (share_of 100 leaves))
explode_ingredients-share_of_example =
    explode_ingredients-share_of book 3 pasta 100 {out = pasta_totals} pasta_explodes

-- The tomato is of 20 and the salt of 5.
abbrev prices : ℕ → Option Text
prices i =
    if i == 101 then some (codes "20.0000") else if i == 100 then some (codes "5.0000") else none

pasta_costs :
    calculate_recipe_cost prices book 3 pasta
    ≡ ok (record {
      recipe_id = 1;
      total_cost = codes "33.7500";
      unit_cost = codes "33.7500";
      yield_quantity = codes "1.0000";
      line_items =
          cost_line
            (of_recipe 11 2 (codes "1.0000"))
            (sub_recipe 2)
            (codes "32.5000")
            (codes "32.5000")
          ∷ cost_line
              (of_ingredient 12 100 (codes "0.2500"))
              (ingredient 100)
              (codes "5.0000")
              (codes "1.2500")
          ∷ [];
    })
unfolding calculate_recipe_cost tridentpos.Inventory.Cost.calculate_cost_recursive
    tridentpos.Inventory.Cost.cost_items tridentpos.Inventory.Cost.cost_item
    tridentpos.Inventory.Cost.cost_target tridentpos.Inventory.Explosion.positive_yield
    tridentpos.Inventory.parse_decimal12x4 tridentpos.Money.Decimal.is_decimal_string
    tridentpos.Money.Decimal.unsigned_decimal tridentpos.Money.Decimal.drop_minus
    tridentpos.Money.Decimal.digits_then_fraction tridentpos.Money.Decimal.four_digits
    tridentpos.Money.Decimal.unchecked_value tridentpos.Money.Decimal.starts_minus
    tridentpos.Prelude.◌+ℤ◌ tridentpos.Prelude.◌*ℤ◌ tridentpos.Money.Decimal.Digits.digits_value
    tridentpos.Money.Decimal.whole_part tridentpos.Money.Decimal.fraction_part
    tridentpos.Prelude.neg tridentpos.Inventory.Explosion.validate_recipe_item
    tridentpos.Prelude.xor tridentpos.Inventory.Explosion.add_entry
    tridentpos.Inventory.Explosion.effective tridentpos.Inventory.Explosion.explode_item
    tridentpos.Inventory.Explosion.explode_items tridentpos.Inventory.Explosion.explode_recursive
    tridentpos.Inventory.Explosion.explode_target tridentpos.Inventory.Explosion.format_entries
    tridentpos.Inventory.divide_scale4 tridentpos.Inventory.format_decimal12x4
    tridentpos.Inventory.multiply_scale4 tridentpos.Money.Decimal.Digits.number_to_string
    tridentpos.Money.Decimal.Digits.pad_start tridentpos.Money.Decimal.Digits.to_digits
    tridentpos.Money.Decimal.decimal_string_to_scaled
    tridentpos.Money.Decimal.scaled_to_decimal_string tridentpos.Money.round_quotient
    tridentpos.Pos.Table.insert_ordered tridentpos.Pos.Table.order_rows
    tridentpos.Pos.Table.order_rows_onto tridentpos.Prelude.signed tridentpos.Prelude.is_digit
    tridentpos.Prelude.is_white tridentpos.Prelude.trim tridentpos.Prelude.trim_start
pasta_costs = refl

calculate_recipe_cost-Costs_example :
    IsCosted prices book pasta (calculate_recipe_cost prices book 3 pasta)
calculate_recipe_cost-Costs_example =
    calculate_recipe_cost-Costs prices book (1 ∷ 2 ∷ []) pasta 3 book-Knows (omega arith)

abbrev gross : ℕ → ℕ → GrossQuantity
gross i n = record { ingredient_id = i; gross_scaled = pos n }

aggregated :
    aggregate_ingredient_quantities (gross 9 100 ∷ gross 4 20 ∷ gross 9 7 ∷ [])
    ≡ ok (gross 4 20 ∷ gross 9 107 ∷ [])
unfolding aggregate_ingredient_quantities tridentpos.Inventory.Kardex.add_all_gross
    tridentpos.Inventory.Kardex.add_gross tridentpos.Inventory.add_scale4 tridentpos.Prelude.◌+ℤ◌
    tridentpos.Prelude.neg tridentpos.Pos.Table.order_rows
aggregated = refl

-- Waste without a reason, and waste of nothing.
abbrev waste : Text → Text → RegisterWasteCommand
waste reason quantity = record {
  command_id = codes "c";
  organization_id = codes "o";
  branch_id = codes "b";
  warehouse_id = codes "w";
  ingredient_id = codes "i";
  quantity = quantity;
  reason_code = reason;
  photo_attachment_url = codes "p";
}

no_reason : validate_waste_command (waste (codes "  ") (codes "1.0000")) ≡ err invalid_waste_command
unfolding validate_waste_command tridentpos.Prelude.is_blank
no_reason = refl

no_quantity :
    validate_waste_command (waste (codes "r") (codes "0.0000")) ≡ err invalid_quantity_delta
unfolding validate_waste_command tridentpos.Prelude.is_blank tridentpos.Inventory.parse_decimal12x4
    tridentpos.Money.Decimal.is_decimal_string tridentpos.Money.Decimal.unsigned_decimal
    tridentpos.Money.Decimal.drop_minus tridentpos.Money.Decimal.digits_then_fraction
    tridentpos.Money.Decimal.four_digits tridentpos.Money.Decimal.unchecked_value
    tridentpos.Money.Decimal.starts_minus tridentpos.Prelude.◌+ℤ◌ tridentpos.Prelude.◌*ℤ◌
    tridentpos.Money.Decimal.Digits.digits_value tridentpos.Money.Decimal.whole_part
    tridentpos.Money.Decimal.fraction_part tridentpos.Prelude.neg
no_quantity = refl
