-- ===== src/Inventory/Explosion/Cycles.antt =====
-- `explodeIngredients` of packages/inventory/src/recipe-engine.ts succeeds on no recipe with a cycle.
use tridentpos.Prelude.{
  ℕ, zero, suc, ◌≡◌, arith, ℤ, pos, false, ◌⊎◌, inl, inr, Option, some, List, [], ◌∷◌, ◌++◌,
  contains, Bool-cases,
}
use tridentpos.Prelude.Fallible.{ok, >>=-eq-ok}
use tridentpos.Inventory.{Inv, Recipe, RecipeItem, parse_decimal12x4}
use tridentpos.Inventory.Explosion.{
  Entries, Target, ExplodedIngredient, explode_recursive, explode_items, explode_item,
  explode_target, explode_ingredients, positive_yield, effective, validate_recipe_item,
}

abbrev pub In : {A : Type 0} → A → List A → Type 0
In a [] = ⊥
In a (x ∷ xs) = (a ≡ x) ⊎ In a xs

-- A chain of subrecipes below a recipe, each an item of the one before.
pub data Chain (resolver : ℕ → Option Recipe) : Recipe → List ℕ → Type 0 where
  stop : {recipe : Recipe} → Chain resolver recipe []
  down :
      {recipe : Recipe} (sub : Recipe) (item : RecipeItem) {r : ℕ} {ids : List ℕ}
      → In item recipe.items
      → validate_recipe_item item ≡ ok (Target.sub_recipe r)
      → resolver r ≡ some sub
      → Chain resolver sub ids
      → Chain resolver recipe (r ∷ ids)

-- None of the identifiers is on the stack, nor comes twice.
abbrev pub Fresh : List ℕ → List ℕ → Type 0
Fresh visited [] = Unit
Fresh visited (r ∷ ids) = (contains r visited ≡ false) × Fresh (visited ++ (r ∷ [])) ids

module _ (resolver : ℕ → Option Recipe) where
  explode_items_each :
      (g : Recipe → ℤ → List ℕ → Entries → Inv Entries) (yield factor : ℤ) (visited : List ℕ)
      (item : RecipeItem) (items : List RecipeItem) (acc : Entries) {out : Entries}
      → explode_items resolver g yield factor visited items acc ≡ ok out
      → In item items
      → (acc' : Entries) × (out' : Entries) × (explode_item resolver g yield factor visited item
            acc'
          ≡ ok out')
  unfolding explode_items
  explode_items_each g yield factor visited item [] acc done here = absurd here
  explode_items_each g yield factor visited item (x ∷ xs) acc done (inl e) =
      let (out', one, rest) =
        >>=-eq-ok (explode_item resolver g yield factor visited x acc) _ done in
      (acc, out', rw e one)
  explode_items_each g yield factor visited item (x ∷ xs) acc done (inr later) =
      let (out', one, rest) =
        >>=-eq-ok (explode_item resolver g yield factor visited x acc) _ done in
      explode_items_each g yield factor visited item xs out' rest later

  explode_item_sub :
      (g : Recipe → ℤ → List ℕ → Entries → Inv Entries) (yield factor : ℤ) (visited : List ℕ)
      (item : RecipeItem) (acc : Entries) (r : ℕ) (sub : Recipe) {out : Entries}
      → validate_recipe_item item ≡ ok (Target.sub_recipe r)
      → resolver r ≡ some sub
      → explode_item resolver g yield factor visited item acc ≡ ok out
      → (contains r visited ≡ false)
        × (gross : ℤ) × (g sub gross (visited ++ (r ∷ [])) acc ≡ ok out)
  unfolding explode_item explode_target
  explode_item_sub g yield factor visited item acc r sub target found done =
      let (n, a, rest1) = >>=-eq-ok (parse_decimal12x4 item.quantity) _ (rw target at done) in
      let (q, b, rest2) = >>=-eq-ok (parse_decimal12x4 item.gross_quantity) _ rest1 in
      let (net, c, rest3) = >>=-eq-ok (effective factor n yield) _ rest2 in
      let (gross, d, rest4) = >>=-eq-ok (effective factor q yield) _ rest3 in
      elim (Bool-cases (contains r visited)) [
        | inl cycle ↦ absurd (ground (arith, rest4, cycle))
        | inr fresh ↦ (fresh, gross, ground (arith, rest4, fresh, found))
      ]

  explode_recursive-Fresh :
      (depth : ℕ) (recipe : Recipe) (factor : ℤ) (visited : List ℕ) (acc : Entries) {out : Entries}
      {ids : List ℕ}
      → explode_recursive resolver depth recipe factor visited acc ≡ ok out
      → Chain resolver recipe ids
      → Fresh visited ids
  unfolding explode_recursive
  explode_recursive-Fresh depth recipe factor visited acc done stop = tt
  explode_recursive-Fresh zero recipe factor visited acc done
        (down sub item here target found chain) =
      absurd (cc)
  explode_recursive-Fresh (suc depth) recipe factor visited acc done
        (down sub item {r = r} here target found chain) =
      let (yield, a, rest) = >>=-eq-ok (positive_yield recipe) _ done in
      let (acc', out', one) =
        explode_items_each (explode_recursive resolver depth) yield factor visited item recipe.items
          acc rest here in
      let (fresh, gross, deeper) =
        explode_item_sub (explode_recursive resolver depth) yield factor visited item acc' r sub
          target found one in
      (fresh, explode_recursive-Fresh depth sub gross (visited ++ (r ∷ [])) acc' deeper chain)

-- If a recipe is exploded, no chain of its subrecipes comes back to it or to a subrecipe on the chain:
-- every cycle, direct or not, is an error.
pub explode_ingredients-Fresh :
    (resolver : ℕ → Option Recipe) (depth : ℕ) (recipe : Recipe) {out : List ExplodedIngredient}
    {ids : List ℕ}
    → explode_ingredients resolver depth recipe ≡ ok out
    → Chain resolver recipe ids
    → Fresh (recipe.id ∷ []) ids
unfolding explode_ingredients
explode_ingredients-Fresh resolver depth recipe done chain =
    let (entries, exploded, formatted) =
      >>=-eq-ok (explode_recursive resolver depth recipe (pos 10000) (recipe.id ∷ []) []) _ done in
    explode_recursive-Fresh resolver depth recipe (pos 10000) (recipe.id ∷ []) [] exploded chain
