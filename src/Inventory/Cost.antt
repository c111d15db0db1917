-- ===== src/Inventory/Cost.antt =====
-- The theoretical cost of a recipe: `RecipeEngine.calculateRecipeCost` of packages/inventory/src/
-- recipe-engine.ts. The two resolvers are parameters, functions to the answers that are awaited; an
-- ingredient without a cost is `none`. The recursion takes fuel for its depth.
pub mod Sums
pub mod Ends
use tridentpos.Prelude.{
  ℕ, zero, suc, ℤ, pos, ◌+ℤ◌, Bool, Option, none, some, List, [], ◌∷◌, ◌++◌, Text, contains, ltb_ℤ,
  if◌then◌else◌,
}
use tridentpos.Prelude.Fallible.{Fallible, ok, err, ◌>>=◌, ◌>>◌, raise_if, or_raise}
use tridentpos.Inventory.{
  Inv, Recipe, RecipeItem, parse_decimal12x4, format_decimal12x4, multiply_scale4, divide_scale4,
  invalid_recipe_item, recipe_not_found, cycle_detected, out_of_fuel,
}
use tridentpos.Inventory.Explosion.{
  Target, ingredient, sub_recipe, validate_recipe_item, positive_yield, is_missing,
}

pub record RecipeItemCostBreakdown : Type 0 where
  pub id : ℕ
  pub target : Target
  pub gross_quantity : Text
  pub unit_cost : Text
  pub total_line_cost : Text

pub record RecipeCostCalculationResult : Type 0 where
  pub recipe_id : ℕ
  pub total_cost : Text
  pub unit_cost : Text
  pub yield_quantity : Text
  pub line_items : List RecipeItemCostBreakdown

abbrev pub cost_line : RecipeItem → Target → Text → Text → RecipeItemCostBreakdown
cost_line item target unit total = record {
  id = item.id;
  target = target;
  gross_quantity = item.gross_quantity;
  unit_cost = unit;
  total_line_cost = total;
}

-- The cost of a line and what is reported of it.
abbrev pub CostedLine : Type 0
CostedLine = ℤ × RecipeItemCostBreakdown

-- `costStr === undefined || costStr === null || costStr === ''`
abbrev pub stated_cost : Option Text → Option Text
stated_cost none = none
stated_cost (some s) = if is_missing s then none else some s

module _ (ingredient_cost : ℕ → Option Text) (resolver : ℕ → Option Recipe) where
  unfoldable pub cost_target :
      (Recipe → List ℕ → Inv RecipeCostCalculationResult)
      → List ℕ
      → RecipeItem
      → ℤ
      → Target
      → Inv CostedLine
  cost_target calculate visited item gross (ingredient i) = do
    cost ← or_raise (stated_cost (ingredient_cost i)) invalid_recipe_item
    unit ← parse_decimal12x4 cost
    raise_if (ltb_ℤ unit (pos 0)) invalid_recipe_item
    let line_cost = multiply_scale4 gross unit
    unit_text ← format_decimal12x4 unit
    total ← format_decimal12x4 line_cost
    ok (line_cost, cost_line item (ingredient i) unit_text total)
  cost_target calculate visited item gross (sub_recipe r) = do
    raise_if (contains r visited) (cycle_detected (visited ++ (r ∷ [])))
    recipe ← or_raise (resolver r) (recipe_not_found r)
    sub ← calculate recipe (visited ++ (r ∷ []))
    unit ← parse_decimal12x4 sub.unit_cost
    let line_cost = multiply_scale4 gross unit
    total ← format_decimal12x4 line_cost
    ok (line_cost, cost_line item (sub_recipe r) sub.unit_cost total)

  unfoldable pub cost_item :
      (Recipe → List ℕ → Inv RecipeCostCalculationResult) → List ℕ → RecipeItem → Inv CostedLine
  cost_item calculate visited item = do
    target ← validate_recipe_item item
    gross ← parse_decimal12x4 item.gross_quantity
    raise_if (ltb_ℤ gross (pos 0)) invalid_recipe_item
    cost_target calculate visited item gross target

  -- The total of the batch so far, and the lines in their order.
  unfoldable pub cost_items :
      (Recipe → List ℕ → Inv RecipeCostCalculationResult)
      → List ℕ
      → List RecipeItem
      → ℤ
      → Inv (ℤ × List RecipeItemCostBreakdown)
  cost_items calculate visited [] total = ok (total, [])
  cost_items calculate visited (item ∷ items) total = do
    line ← cost_item calculate visited item
    rest ← cost_items calculate visited items (total +ℤ line.0)
    ok (rest.0, line.1 ∷ rest.1)

  unfoldable pub calculate_cost_recursive : ℕ → Recipe → List ℕ → Inv RecipeCostCalculationResult
  calculate_cost_recursive zero recipe visited = err out_of_fuel
  calculate_cost_recursive (suc depth) recipe visited = do
    yield ← positive_yield recipe
    batch ← cost_items (calculate_cost_recursive depth) visited recipe.items (pos 0)
    unit ← divide_scale4 batch.0 yield
    total_cost ← format_decimal12x4 batch.0
    unit_cost ← format_decimal12x4 unit
    ok (record {
      recipe_id = recipe.id;
      total_cost = total_cost;
      unit_cost = unit_cost;
      yield_quantity = recipe.yield_quantity;
      line_items = batch.1;
    })

  unfoldable pub calculate_recipe_cost : ℕ → Recipe → Inv RecipeCostCalculationResult
  calculate_recipe_cost depth recipe = calculate_cost_recursive depth recipe (recipe.id ∷ [])
