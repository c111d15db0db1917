-- ===== src/Inventory/Explosion/Leaves.antt =====
-- What `explodeIngredients` of packages/inventory/src/recipe-engine.ts adds up: the ingredients at the
-- leaves of a recipe, each with its share.
pub mod Totals
use tridentpos.Prelude.{
  ℕ, zero, suc, ℤ, pos, ◌+ℤ◌, ◌≡◌, refl, arith, ap, sym, ◌∙◌, Bool, true, false, Option, none, some,
  List, [], ◌∷◌, ◌++◌, contains, ◌==◌, if◌then◌else◌, Bool-cases, Option-cases, inl, inr, int_laws,
}
use tridentpos.Prelude.Fallible.{Fallible, ok, err, ◌>>=◌, ◌>>◌, raise_if, or_raise}
use tridentpos.Inventory.{
  Inv, Recipe, RecipeItem, parse_decimal12x4, recipe_not_found, cycle_detected, out_of_fuel,
}
use tridentpos.Inventory.Explosion.{
  Entries, IngredientEntry, Target, explode_recursive, explode_items, explode_item, explode_target,
  positive_yield, effective, validate_recipe_item, add_entry,
}

-- The leaves below a recipe, in the order of the items: a reference that keeps no map.
module _ (resolver : ℕ → Option Recipe) where
  unfoldable pub target_leaves :
      (Recipe → ℤ → List ℕ → Inv Entries) → List ℕ → ℤ → ℤ → Target → Inv Entries
  target_leaves leaves visited net gross (Target.ingredient i) =
      ok (record { ingredient_id = i; net_scaled = net; gross_scaled = gross } ∷ [])
  target_leaves leaves visited net gross (Target.sub_recipe r) = do
    raise_if (contains r visited) (cycle_detected (visited ++ (r ∷ [])))
    recipe ← or_raise (resolver r) (recipe_not_found r)
    leaves recipe gross (visited ++ (r ∷ []))

  unfoldable pub item_leaves :
      (Recipe → ℤ → List ℕ → Inv Entries) → ℤ → ℤ → List ℕ → RecipeItem → Inv Entries
  unfolding target_leaves
  item_leaves leaves yield factor visited item = do
    target ← validate_recipe_item item
    net ← parse_decimal12x4 item.quantity
    gross ← parse_decimal12x4 item.gross_quantity
    effective_net ← effective factor net yield
    effective_gross ← effective factor gross yield
    target_leaves leaves visited effective_net effective_gross target

  unfoldable pub items_leaves :
      (Recipe → ℤ → List ℕ → Inv Entries) → ℤ → ℤ → List ℕ → List RecipeItem → Inv Entries
  unfolding item_leaves
  items_leaves leaves yield factor visited [] = ok []
  items_leaves leaves yield factor visited (item ∷ items) = do
    first ← item_leaves leaves yield factor visited item
    rest ← items_leaves leaves yield factor visited items
    ok (first ++ rest)

  unfoldable pub recipe_leaves : ℕ → Recipe → ℤ → List ℕ → Inv Entries
  unfolding items_leaves
  recipe_leaves zero recipe factor visited = err out_of_fuel
  recipe_leaves (suc depth) recipe factor visited = do
    yield ← positive_yield recipe
    items_leaves (recipe_leaves depth) yield factor visited recipe.items

-- Every leaf is added to the map.
unfoldable pub add_leaves : Entries → Entries → Entries
add_leaves [] acc = acc
add_leaves (e ∷ es) acc = add_leaves es (add_entry e.ingredient_id e.net_scaled e.gross_scaled acc)

add_leaves-append :
    (xs ys acc : Entries) → add_leaves (xs ++ ys) acc ≡ add_leaves ys (add_leaves xs acc)
unfolding add_leaves
add_leaves-append [] ys acc = refl
add_leaves-append (x ∷ xs) ys acc = add_leaves-append xs ys _

abbrev added : Inv Entries → Entries → Inv Entries
added leaves acc = leaves >>= λ es. ok (add_leaves es acc)

-- The recursion with a map adds the leaves of the one without.
abbrev Adds :
    (Recipe → ℤ → List ℕ → Entries → Inv Entries) → (Recipe → ℤ → List ℕ → Inv Entries) → Type 0
Adds g leaves =
    (recipe : Recipe) (factor : ℤ) (visited : List ℕ) (acc : Entries)
    → g recipe factor visited acc ≡ added (leaves recipe factor visited) acc

>>=-added :
    {A : Type 0} (m : Inv A) (f : A → Inv Entries) (l : A → Inv Entries) (acc : Entries)
    → ((a : A) → f a ≡ added (l a) acc)
    → (m >>= f) ≡ added (m >>= l) acc
>>=-added (ok a) f l acc h = h a
>>=-added (err e) f l acc h = refl

module _ (resolver : ℕ → Option Recipe) (g : Recipe → ℤ → List ℕ → Entries → Inv Entries)
    (leaves : Recipe → ℤ → List ℕ → Inv Entries) (adds : Adds g leaves) where
  explode_target-added :
      (visited : List ℕ) (net gross : ℤ) (acc : Entries) (t : Target)
      → explode_target resolver g visited net gross acc t
        ≡ added (target_leaves resolver leaves visited net gross t) acc
  unfolding explode_target target_leaves add_leaves
  explode_target-added visited net gross acc (Target.ingredient i) = refl
  explode_target-added visited net gross acc (Target.sub_recipe r) =
      >>=-added (raise_if (contains r visited) (cycle_detected (visited ++ (r ∷ [])))) _ _ acc (λ u.
        >>=-added (or_raise (resolver r) (recipe_not_found r)) _ _ acc
          (λ recipe. adds recipe gross (visited ++ (r ∷ [])) acc))

  explode_item-added :
      (yield factor : ℤ) (visited : List ℕ) (item : RecipeItem) (acc : Entries)
      → explode_item resolver g yield factor visited item acc
        ≡ added (item_leaves resolver leaves yield factor visited item) acc
  unfolding explode_item item_leaves
  explode_item-added yield factor visited item acc =
      >>=-added (validate_recipe_item item) _ _ acc (λ t.
        >>=-added (parse_decimal12x4 item.quantity) _ _ acc (λ n.
          >>=-added (parse_decimal12x4 item.gross_quantity) _ _ acc (λ q.
            >>=-added (effective factor n yield) _ _ acc (λ net.
              >>=-added (effective factor q yield) _ _ acc
                (λ gross. explode_target-added visited net gross acc t)))))

  append_added :
      (first rest : Inv Entries) (acc : Entries) (k : Entries → Inv Entries)
      → ((acc' : Entries) → k acc' ≡ added rest acc')
      → (added first acc >>= k) ≡ added (first >>= λ a. rest >>= λ b. ok (a ++ b)) acc
  append_added (err e) rest acc k h = refl
  append_added (ok a) (err e) acc k h = h (add_leaves a acc)
  append_added (ok a) (ok b) acc k h =
      h (add_leaves a acc) ∙ ap ok (sym (add_leaves-append a b acc))

  explode_items-added :
      (yield factor : ℤ) (visited : List ℕ) (items : List RecipeItem) (acc : Entries)
      → explode_items resolver g yield factor visited items acc
        ≡ added (items_leaves resolver leaves yield factor visited items) acc
  unfolding explode_items items_leaves add_leaves
  explode_items-added yield factor visited [] acc = refl
  explode_items-added yield factor visited (item ∷ items) acc =
      ap (λ m. m >>= explode_items resolver g yield factor visited items)
        (explode_item-added yield factor visited item acc)
      ∙ append_added (item_leaves resolver leaves yield factor visited item)
          (items_leaves resolver leaves yield factor visited items) acc
          (explode_items resolver g yield factor visited items)
          (explode_items-added yield factor visited items)

pub explode_recursive-leaves :
    (resolver : ℕ → Option Recipe) (depth : ℕ)
    → Adds (explode_recursive resolver depth) (recipe_leaves resolver depth)
unfolding explode_recursive recipe_leaves
explode_recursive-leaves resolver zero recipe factor visited acc = refl
explode_recursive-leaves resolver (suc depth) recipe factor visited acc =
    >>=-added (positive_yield recipe) _ _ acc (λ yield.
      explode_items-added resolver (explode_recursive resolver depth) (recipe_leaves resolver depth)
        (explode_recursive-leaves resolver depth) yield factor visited recipe.items acc)
