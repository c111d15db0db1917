-- ===== src/Inventory/Cost/Sums.antt =====
-- What `calculateRecipeCost` of packages/inventory/src/recipe-engine.ts adds up.
use tridentpos.Prelude.{
  ℕ, zero, suc, ℤ, pos, ◌+ℤ◌, +ℤ_assoc, +ℤ-pos_zero, pos_zero-+ℤ, ltb_ℤ, ◌≡◌, ap, sym, subst, ◌∙◌,
  arith, Option, none, some, List, [], ◌∷◌, ◌++◌, Text, contains,
}
use tridentpos.Prelude.Fallible.{ok, raise_if, or_raise, >>=-eq-ok}
use tridentpos.Money.{is_valid_scale4_range}
use tridentpos.Money.Decimal.{scaled_to_decimal_string}
use tridentpos.Money.Decimal.RoundTrip.{decimal_round_trip}
use tridentpos.Money.Decimal.Plain.{trim-scaled_to_decimal_string}
use tridentpos.Inventory.{
  Inv, Recipe, RecipeItem, parse_decimal12x4, format_decimal12x4, multiply_scale4, divide_scale4,
  of_money, invalid_recipe_item, recipe_not_found, cycle_detected,
}
use tridentpos.Inventory.Explosion.{
  Target, ingredient, sub_recipe, validate_recipe_item, positive_yield,
}
use tridentpos.Inventory.Cost.{
  RecipeCostCalculationResult, CostedLine, stated_cost, cost_target, cost_item, cost_items,
  calculate_cost_recursive, calculate_recipe_cost,
}

format_decimal12x4_ok :
    (a : ℤ) {t : Text} → format_decimal12x4 a ≡ ok t → t ≡ scaled_to_decimal_string a
unfolding format_decimal12x4
format_decimal12x4_ok a h = ground arith

-- A cost that was written is read back.
parse_decimal12x4-format_decimal12x4 :
    (a : ℤ) {t : Text} → format_decimal12x4 a ≡ ok t → parse_decimal12x4 t ≡ ok a
unfolding format_decimal12x4 parse_decimal12x4 is_valid_scale4_range
parse_decimal12x4-format_decimal12x4 a {t} h =
    let e = format_decimal12x4_ok a h in
    let trip = decimal_round_trip a in
    rw (e, trim-scaled_to_decimal_string a) (ground (arith, h, trip))

-- The cost of a recipe by its items, without texts in between, stacks or depths: a batch costs the sum of
-- its items, each its gross quantity times the price of its ingredient or the unit cost of its
-- subrecipe, and a unit costs the batch by the yield.
module _ (ingredient_cost : ℕ → Option Text) (resolver : ℕ → Option Recipe) where
  mutual
    pub data Costs : Recipe → ℤ → ℤ → Type 0 where
      batch :
          (recipe : Recipe) (yield total unit : ℤ)
          → positive_yield recipe ≡ ok yield
          → ItemsCost recipe.items total
          → divide_scale4 total yield ≡ ok unit
          → Costs recipe total unit

    pub data ItemsCost : List RecipeItem → ℤ → Type 0 where
      nothing : ItemsCost [] (pos 0)
      bought :
          (item : RecipeItem) (items : List RecipeItem) (i : ℕ) (cost : Text) (gross price rest : ℤ)
          → validate_recipe_item item ≡ ok (ingredient i)
          → parse_decimal12x4 item.gross_quantity ≡ ok gross
          → stated_cost (ingredient_cost i) ≡ some cost
          → parse_decimal12x4 cost ≡ ok price
          → ItemsCost items rest
          → ItemsCost (item ∷ items) (multiply_scale4 gross price +ℤ rest)
      prepared :
          (item : RecipeItem) (items : List RecipeItem) (r : ℕ) (sub : Recipe)
          (gross total unit rest : ℤ)
          → validate_recipe_item item ≡ ok (sub_recipe r)
          → parse_decimal12x4 item.gross_quantity ≡ ok gross
          → resolver r ≡ some sub
          → Costs sub total unit
          → ItemsCost items rest
          → ItemsCost (item ∷ items) (multiply_scale4 gross unit +ℤ rest)

or_raise_ok :
    {A : Type 0} (o : Option A) (e : tridentpos.Inventory.InventoryError) {a : A}
    → or_raise o e ≡ ok a
    → o ≡ some a
or_raise_ok none e h = cc
or_raise_ok (some b) e h = cc

ok_same : {A : Type 0} {a b : A} → ◌≡◌ {A = Inv A} (ok a) (ok b) → a ≡ b
ok_same h = cc

module _ (ingredient_cost : ℕ → Option Text) (resolver : ℕ → Option Recipe) where
  -- What a calculation reports, against the costs of the recipe.
  abbrev pub Reports : Recipe → RecipeCostCalculationResult → Type 0
  Reports recipe result =
      (total : ℤ) × (unit : ℤ) × Costs ingredient_cost resolver recipe total unit
      × (result.total_cost ≡ scaled_to_decimal_string total)
      × (result.unit_cost ≡ scaled_to_decimal_string unit)
      × (parse_decimal12x4 result.unit_cost ≡ ok unit)

  abbrev pub Sound : (Recipe → List ℕ → Inv RecipeCostCalculationResult) → Type 0
  Sound calculate =
      (recipe : Recipe) (visited : List ℕ) (result : RecipeCostCalculationResult)
      → calculate recipe visited ≡ ok result
      → Reports recipe result

  cost_target_sum :
      (calculate : Recipe → List ℕ → Inv RecipeCostCalculationResult) (visited : List ℕ)
      (item : RecipeItem) (gross : ℤ) (target : Target) (items : List RecipeItem) (rest : ℤ)
      {line : CostedLine}
      → Sound calculate
      → validate_recipe_item item ≡ ok target
      → parse_decimal12x4 item.gross_quantity ≡ ok gross
      → cost_target ingredient_cost resolver calculate visited item gross target ≡ ok line
      → ItemsCost ingredient_cost resolver items rest
      → ItemsCost ingredient_cost resolver (item ∷ items) (line.0 +ℤ rest)
  unfolding cost_target
  cost_target_sum calculate visited item gross (Target.ingredient i) items rest {line} sound valid
        read done more =
      let (cost, stated, rest1) =
        >>=-eq-ok (or_raise (stated_cost (ingredient_cost i)) invalid_recipe_item) _ done in
      let (unit, priced, rest2) = >>=-eq-ok (parse_decimal12x4 cost) _ rest1 in
      let (u, positive, rest3) =
        >>=-eq-ok (raise_if (ltb_ℤ unit (pos 0)) invalid_recipe_item) _ rest2 in
      let (text, written, rest4) = >>=-eq-ok (format_decimal12x4 unit) _ rest3 in
      let (total, totalled, rest5) =
        >>=-eq-ok (format_decimal12x4 (multiply_scale4 gross unit)) _ rest4 in
      let same : multiply_scale4 gross unit ≡ line.0 = cc in
      subst (λ k. ItemsCost ingredient_cost resolver (item ∷ items) (k +ℤ rest)) same
        (bought item items i cost gross unit rest valid read
          (or_raise_ok (stated_cost (ingredient_cost i)) invalid_recipe_item stated) priced more)
  cost_target_sum calculate visited item gross (Target.sub_recipe r) items rest {line} sound valid
        read done more =
      let (u, fresh, rest1) =
        >>=-eq-ok (raise_if (contains r visited) (cycle_detected (visited ++ (r ∷ [])))) _ done in
      let (sub, found, rest2) = >>=-eq-ok (or_raise (resolver r) (recipe_not_found r)) _ rest1 in
      let (result, calculated, rest3) = >>=-eq-ok (calculate sub (visited ++ (r ∷ []))) _ rest2 in
      let (unit, priced, rest4) = >>=-eq-ok (parse_decimal12x4 result.unit_cost) _ rest3 in
      let (total, totalled, rest5) =
        >>=-eq-ok (format_decimal12x4 (multiply_scale4 gross unit)) _ rest4 in
      let (sub_total, sub_unit, costs, as_total, as_unit, back) =
        sound sub (visited ++ (r ∷ [])) result calculated in
      let unit_same : unit ≡ sub_unit = cc in
      let same : multiply_scale4 gross sub_unit ≡ line.0 =
        ap (multiply_scale4 gross) (sym unit_same) ∙ cc in
      subst (λ k. ItemsCost ingredient_cost resolver (item ∷ items) (k +ℤ rest)) same
        (prepared item items r sub gross sub_total sub_unit rest valid read
          (or_raise_ok (resolver r) (recipe_not_found r) found) costs more)

  cost_items_sum :
      (calculate : Recipe → List ℕ → Inv RecipeCostCalculationResult) (visited : List ℕ)
      (items : List RecipeItem) (total : ℤ)
      {out : ℤ × List tridentpos.Inventory.Cost.RecipeItemCostBreakdown}
      → Sound calculate
      → cost_items ingredient_cost resolver calculate visited items total ≡ ok out
      → (rest : ℤ) × ItemsCost ingredient_cost resolver items rest × (out.0 ≡ total +ℤ rest)
  unfolding cost_items cost_item
  cost_items_sum calculate visited [] total sound done =
      (pos 0, nothing, ap (λ o. o.0) (sym (ok_same done)) ∙ sym (+ℤ-pos_zero total))
  cost_items_sum calculate visited (item ∷ items) total {out} sound done =
      let (line, costed, rest1) =
        >>=-eq-ok (cost_item ingredient_cost resolver calculate visited item) _ done in
      let (later, costed_later, rest2) =
        >>=-eq-ok (cost_items ingredient_cost resolver calculate visited items (total +ℤ line.0)) _
          rest1 in
      let (target, valid, item1) = >>=-eq-ok (validate_recipe_item item) _ costed in
      let (gross, read, item2) = >>=-eq-ok (parse_decimal12x4 item.gross_quantity) _ item1 in
      let (u, positive, item3) =
        >>=-eq-ok (raise_if (ltb_ℤ gross (pos 0)) invalid_recipe_item) _ item2 in
      let (rest, more, sum) =
        cost_items_sum calculate visited items (total +ℤ line.0) sound costed_later in
      let out_same : later.0 ≡ out.0 = ap (λ o. o.0) (ok_same rest2) in
      (
        line.0 +ℤ rest,
        cost_target_sum calculate visited item gross target items rest sound valid read item3 more,
        sym out_same ∙ sum ∙ +ℤ_assoc total line.0 rest,
      )

  pub calculate_cost_recursive-Sound :
      (depth : ℕ) → Sound (calculate_cost_recursive ingredient_cost resolver depth)
  unfolding calculate_cost_recursive
  calculate_cost_recursive-Sound zero recipe visited result done = absurd (cc)
  calculate_cost_recursive-Sound (suc depth) recipe visited result done =
      let (yield, yields, rest1) = >>=-eq-ok (positive_yield recipe) _ done in
      let (out, costed, rest2) =
        >>=-eq-ok
          (cost_items ingredient_cost resolver
            (calculate_cost_recursive ingredient_cost resolver depth) visited recipe.items (pos 0))
          _ rest1 in
      let (unit, divided, rest3) = >>=-eq-ok (divide_scale4 out.0 yield) _ rest2 in
      let (total_text, total_written, rest4) = >>=-eq-ok (format_decimal12x4 out.0) _ rest3 in
      let (unit_text, unit_written, rest5) = >>=-eq-ok (format_decimal12x4 unit) _ rest4 in
      let (rest, items, sum) =
        cost_items_sum (calculate_cost_recursive ingredient_cost resolver depth) visited
          recipe.items (pos 0) (calculate_cost_recursive-Sound depth) costed in
      let total : rest ≡ out.0 = sym (pos_zero-+ℤ rest) ∙ sym sum in
      let totals : total_text ≡ result.total_cost = ap (λ r. r.total_cost) (ok_same rest5) in
      let units : unit_text ≡ result.unit_cost = ap (λ r. r.unit_cost) (ok_same rest5) in
      (
        out.0,
        unit,
        batch recipe yield out.0 unit yields
            (subst (ItemsCost ingredient_cost resolver recipe.items) total items) divided,
        sym totals ∙ format_decimal12x4_ok out.0 total_written,
        sym units ∙ format_decimal12x4_ok unit unit_written,
        ap parse_decimal12x4 (sym units) ∙ parse_decimal12x4-format_decimal12x4 unit unit_written,
      )
