-- ===== src/Inventory/Explosion.antt =====
-- The explosion of a recipe into ingredients: `RecipeEngine.explodeIngredients` of packages/inventory/
-- src/recipe-engine.ts. The resolver of recipes is a parameter, a function to the answer that is
-- awaited. The recursion takes fuel for its depth, and the map of the ingredients is the list of its
-- entries, in the order in which they were set.
pub mod Depth
pub mod Cycles
pub mod Leaves
use tridentpos.Prelude.{
  ℕ, zero, suc, ℤ, pos, ◌+ℤ◌, Bool, true, false, ◌&&◌, ◌||◌, not, Option, none, some, List, [], ◌∷◌,
  ◌++◌, Text, contains, leb_ℤ, ◌==◌, if◌then◌else◌,
}
use tridentpos.Prelude.Fallible.{Fallible, ok, err, ◌>>=◌, ◌>>◌, raise_if, or_raise}
use tridentpos.Pos.Table.{order_rows}
use tridentpos.Inventory.{
  Inv, Recipe, RecipeItem, parse_decimal12x4, format_decimal12x4, multiply_scale4, divide_scale4,
  zero_divisor, invalid_recipe_item, recipe_not_found, cycle_detected, out_of_fuel,
}

pub record IngredientEntry : Type 0 where
  pub ingredient_id : ℕ
  pub net_scaled : ℤ
  pub gross_scaled : ℤ

pub record ExplodedIngredient : Type 0 where
  pub ingredient_id : ℕ
  pub total_quantity : Text
  pub total_gross_quantity : Text

-- `Boolean(id)`: neither null nor the empty string.
abbrev pub given : Option ℕ → Option ℕ
given none = none
given (some id) = if id == 0 then none else some id

-- What an item is of, by its two identifiers: exactly one must be given.
pub data Target : Type 0 where
  ingredient sub_recipe : ℕ → Target

abbrev pub exclusive_target : Option ℕ → Option ℕ → Inv Target
exclusive_target (some i) none = ok (ingredient i)
exclusive_target none (some r) = ok (sub_recipe r)
exclusive_target none none = err invalid_recipe_item
exclusive_target (some i) (some r) = err invalid_recipe_item

unfoldable pub validate_recipe_item : RecipeItem → Inv Target
validate_recipe_item item = exclusive_target (given item.ingredient_id) (given item.sub_recipe_id)

abbrev pub is_missing : Text → Bool
is_missing [] = true
is_missing (_ ∷ _) = false

-- The yield that both algorithms divide by.
unfoldable pub positive_yield : Recipe → Inv ℤ
positive_yield recipe = do
  raise_if (is_missing recipe.yield_quantity) zero_divisor
  scaled ← parse_decimal12x4 recipe.yield_quantity
  raise_if (leb_ℤ scaled (pos 0)) zero_divisor
  ok scaled

-- `acc.set(id, existing + effective)`
unfoldable pub add_entry : ℕ → ℤ → ℤ → List IngredientEntry → List IngredientEntry
add_entry i net gross [] =
    record { ingredient_id = i; net_scaled = pos 0 +ℤ net; gross_scaled = pos 0 +ℤ gross } ∷ []
add_entry i net gross (e ∷ es) =
    if e.ingredient_id == i
    then record e { net_scaled = e.net_scaled +ℤ net; gross_scaled = e.gross_scaled +ℤ gross } ∷ es
    else e ∷ add_entry i net gross es

-- `factor * (quantity / yield)`
unfoldable pub effective : ℤ → ℤ → ℤ → Inv ℤ
effective factor quantity yield = divide_scale4 (multiply_scale4 factor quantity) yield

abbrev pub Entries : Type 0
Entries = List IngredientEntry

unfoldable pub format_entries : Entries → Inv (List ExplodedIngredient)
format_entries [] = ok []
format_entries (e ∷ es) = do
  net ← format_decimal12x4 e.net_scaled
  gross ← format_decimal12x4 e.gross_scaled
  rest ← format_entries es
  ok (
      record { ingredient_id = e.ingredient_id; total_quantity = net; total_gross_quantity = gross }
      ∷ rest)

module _ (resolver : ℕ → Option Recipe) where
  -- What is done with a target once the amounts are known; `explode` explodes a subrecipe.
  unfoldable pub explode_target :
      (Recipe → ℤ → List ℕ → Entries → Inv Entries)
      → List ℕ
      → ℤ
      → ℤ
      → Entries
      → Target
      → Inv Entries
  explode_target explode visited net gross acc (ingredient i) = ok (add_entry i net gross acc)
  explode_target explode visited net gross acc (sub_recipe r) = do
    raise_if (contains r visited) (cycle_detected (visited ++ (r ∷ [])))
    recipe ← or_raise (resolver r) (recipe_not_found r)
    explode recipe gross (visited ++ (r ∷ [])) acc

  unfoldable pub explode_item :
      (Recipe → ℤ → List ℕ → Entries → Inv Entries)
      → ℤ
      → ℤ
      → List ℕ
      → RecipeItem
      → Entries
      → Inv Entries
  unfolding explode_target
  explode_item explode yield factor visited item acc = do
    target ← validate_recipe_item item
    net ← parse_decimal12x4 item.quantity
    gross ← parse_decimal12x4 item.gross_quantity
    effective_net ← effective factor net yield
    effective_gross ← effective factor gross yield
    explode_target explode visited effective_net effective_gross acc target

  unfoldable pub explode_items :
      (Recipe → ℤ → List ℕ → Entries → Inv Entries)
      → ℤ
      → ℤ
      → List ℕ
      → List RecipeItem
      → Entries
      → Inv Entries
  unfolding explode_item
  explode_items explode yield factor visited [] acc = ok acc
  explode_items explode yield factor visited (item ∷ items) acc =
      explode_item explode yield factor visited item acc
      >>= explode_items explode yield factor visited items

  unfoldable pub explode_recursive : ℕ → Recipe → ℤ → List ℕ → Entries → Inv Entries
  unfolding explode_items
  explode_recursive zero recipe factor visited acc = err out_of_fuel
  explode_recursive (suc depth) recipe factor visited acc = do
    yield ← positive_yield recipe
    explode_items (explode_recursive depth) yield factor visited recipe.items acc

  unfoldable pub explode_ingredients : ℕ → Recipe → Inv (List ExplodedIngredient)
  unfolding explode_recursive format_entries
  explode_ingredients depth recipe = do
    entries ← explode_recursive depth recipe (pos 10000) (recipe.id ∷ []) []
    format_entries (order_rows (λ e. e.ingredient_id) entries)
