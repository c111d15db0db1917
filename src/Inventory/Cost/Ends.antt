-- ===== src/Inventory/Cost/Ends.antt =====
-- `calculateRecipeCost` of packages/inventory/src/recipe-engine.ts ends, and what it returns.
use tridentpos.Prelude.{
  ℕ, zero, suc, ◌<◌, ◌≡◌, ◌≢◌, refl, arith, ℤ, pos, ◌+ℤ◌, ltb_ℤ, Bool, true, false, Option, List,
  [], ◌∷◌, ◌++◌, Text, contains, length, Bool-cases, Option-cases, inl, inr,
}
use tridentpos.Prelude.Fallible.{ok, err, raise_if, or_raise, Fallible-cases}
use tridentpos.Inventory.{
  Inv, InventoryError, Recipe, RecipeItem, format_decimal12x4, divide_scale4, out_of_fuel,
  invalid_recipe_item,
}
use tridentpos.Inventory.Explosion.{Target}
use tridentpos.Inventory.Explosion.Depth.{
  Knows, HasFuel, off_stack, off_stack-lt, off_stack-le-length, parse_decimal12x4-HasFuel,
  positive_yield-HasFuel, validate_recipe_item-HasFuel, >>=-HasFuel,
}
use tridentpos.Inventory.Cost.{
  RecipeCostCalculationResult, stated_cost, cost_target, cost_item, cost_items,
  calculate_cost_recursive, calculate_recipe_cost,
}
use tridentpos.Inventory.Cost.Sums.{Reports, calculate_cost_recursive-Sound}

format_decimal12x4-HasFuel : (a : ℤ) → HasFuel (format_decimal12x4 a)
unfolding format_decimal12x4
format_decimal12x4-HasFuel a = ground arith

divide_scale4-HasFuel : (a b : ℤ) → HasFuel (divide_scale4 a b)
unfolding divide_scale4
divide_scale4-HasFuel a b = ground arith

or_raise-HasFuel :
    {A : Type 0} (o : Option A) (e : InventoryError) → e ≢ out_of_fuel → HasFuel (or_raise o e)
or_raise-HasFuel o e h = ground (arith, h)

raise_if-HasFuel : (b : Bool) (e : InventoryError) → e ≢ out_of_fuel → HasFuel (raise_if b e)
raise_if-HasFuel b e h = ground (arith, h)

ok-HasFuel : {A : Type 0} (a : A) → HasFuel (ok a)
ok-HasFuel a = ground arith

module _ (ingredient_cost : ℕ → Option Text) (resolver : ℕ → Option Recipe) (known : List ℕ)
    (knows : Knows known resolver) where
  -- A calculation that does not run out of fuel below this stack.
  abbrev Below : (Recipe → List ℕ → Inv RecipeCostCalculationResult) → List ℕ → Type 0
  Below g visited =
      (recipe : Recipe) (r : ℕ)
      → contains r known ≡ true
      → contains r visited ≡ false
      → HasFuel (g recipe (visited ++ (r ∷ [])))

  cost_target-HasFuel :
      (g : Recipe → List ℕ → Inv RecipeCostCalculationResult) (visited : List ℕ) (item : RecipeItem)
      (gross : ℤ) (t : Target)
      → Below g visited
      → HasFuel (cost_target ingredient_cost resolver g visited item gross t)
  unfolding cost_target
  cost_target-HasFuel g visited item gross (Target.ingredient i) below =
      >>=-HasFuel _ _
        (or_raise-HasFuel (stated_cost (ingredient_cost i)) invalid_recipe_item (ground arith))
        (λ cost. >>=-HasFuel _ _ (parse_decimal12x4-HasFuel cost) (λ unit.
          >>=-HasFuel _ _ (raise_if-HasFuel (ltb_ℤ unit (pos 0)) invalid_recipe_item (ground arith))
            (λ u.
              >>=-HasFuel _ _ (format_decimal12x4-HasFuel unit)
                (λ text. >>=-HasFuel _ _ (format_decimal12x4-HasFuel _) (λ total. ok-HasFuel _)))))
  cost_target-HasFuel g visited item gross (Target.sub_recipe r) below =
      elim (Option-cases (resolver r)) [
        | inl missing ↦ ground (arith, missing)
        | inr (recipe, found) ↦ elim (Bool-cases (contains r visited)) [
          | inl cycle ↦ ground (arith, cycle)
          | inr fresh ↦
              rw (fresh, found)
                (>>=-HasFuel _ _ (below recipe r (knows r recipe found) fresh) (λ sub.
                  >>=-HasFuel _ _ (parse_decimal12x4-HasFuel sub.unit_cost) (λ unit.
                    >>=-HasFuel _ _ (format_decimal12x4-HasFuel _) (λ total. ok-HasFuel _))))
        ]
      ]

  cost_items-HasFuel :
      (g : Recipe → List ℕ → Inv RecipeCostCalculationResult) (visited : List ℕ)
      (items : List RecipeItem) (total : ℤ)
      → Below g visited
      → HasFuel (cost_items ingredient_cost resolver g visited items total)
  unfolding cost_items cost_item
  cost_items-HasFuel g visited [] total below = ok-HasFuel _
  cost_items-HasFuel g visited (item ∷ items) total below =
      >>=-HasFuel _ _
        (>>=-HasFuel _ _ (validate_recipe_item-HasFuel item) (λ target.
          >>=-HasFuel _ _ (parse_decimal12x4-HasFuel item.gross_quantity) (λ gross.
            >>=-HasFuel _ _
              (raise_if-HasFuel (ltb_ℤ gross (pos 0)) invalid_recipe_item (ground arith))
              (λ u. cost_target-HasFuel g visited item gross target below))))
        (λ line.
          >>=-HasFuel _ _ (cost_items-HasFuel g visited items (total +ℤ line.0) below)
            (λ rest. ok-HasFuel _))

  calculate_cost_recursive-HasFuel :
      (depth : ℕ) (recipe : Recipe) (visited : List ℕ)
      → off_stack known visited < depth
      → HasFuel (calculate_cost_recursive ingredient_cost resolver depth recipe visited)
  unfolding calculate_cost_recursive
  calculate_cost_recursive-HasFuel zero recipe visited h = absurd (omega arith)
  calculate_cost_recursive-HasFuel (suc depth) recipe visited h =
      >>=-HasFuel _ _ (positive_yield-HasFuel recipe) (λ yield.
        >>=-HasFuel _ _
          (cost_items-HasFuel (calculate_cost_recursive ingredient_cost resolver depth) visited
            recipe.items (pos 0)
            (λ sub r there fresh.
              calculate_cost_recursive-HasFuel depth sub (visited ++ (r ∷ []))
                (omega (arith, off_stack-lt known visited r there fresh))))
          (λ out. >>=-HasFuel _ _ (divide_scale4-HasFuel out.0 yield) (λ unit.
            >>=-HasFuel _ _ (format_decimal12x4-HasFuel out.0)
              (λ total. >>=-HasFuel _ _ (format_decimal12x4-HasFuel unit) (λ text. ok-HasFuel _)))))

-- A result that reports the costs of the recipe, or an error of the code.
abbrev pub IsCosted :
    (ℕ → Option Text) → (ℕ → Option Recipe) → Recipe → Inv RecipeCostCalculationResult → Type 0
IsCosted ingredient_cost resolver recipe (ok result) =
    Reports ingredient_cost resolver recipe result
IsCosted ingredient_cost resolver recipe (err e) = e ≢ out_of_fuel

-- With resolvers that know finitely many recipes, at a depth above their number, the calculation ends:
-- it fails by an error of its own, or it reports as decimal texts the cost of the batch, which is the
-- sum of each gross quantity times its price or the unit cost of its subrecipe, and of a unit.
pub calculate_recipe_cost-Costs :
    (ingredient_cost : ℕ → Option Text) (resolver : ℕ → Option Recipe) (known : List ℕ)
    (recipe : Recipe) (depth : ℕ)
    → Knows known resolver
    → length known < depth
    → IsCosted ingredient_cost resolver recipe
        (calculate_recipe_cost ingredient_cost resolver depth recipe)
unfolding calculate_recipe_cost
calculate_recipe_cost-Costs ingredient_cost resolver known recipe depth knows h =
    let calculated =
      calculate_cost_recursive ingredient_cost resolver depth recipe (recipe.id ∷ []) in
    let ends : HasFuel calculated =
      calculate_cost_recursive-HasFuel ingredient_cost resolver known knows depth recipe
        (recipe.id ∷ []) (omega (arith, off_stack-le-length known (recipe.id ∷ []))) in
    elim (Fallible-cases calculated) [
      | inl (result, done) ↦ rw done (
          calculate_cost_recursive-Sound ingredient_cost resolver depth recipe (recipe.id ∷ [])
            result done)
      | inr (e, failed) ↦ rw failed (λ same. ends (rw (failed, same) refl))
    ]
