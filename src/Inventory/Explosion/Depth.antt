-- ===== src/Inventory/Explosion/Depth.antt =====
-- The recursion of `explodeIngredients` of packages/inventory/src/recipe-engine.ts ends: the identifiers
-- on its stack are distinct and known, so that their number bounds its depth.
use tridentpos.Prelude.{
  ℕ, zero, suc, ◌+◌, ◌≤◌, ◌<◌, ◌≡◌, ◌≢◌, refl, arith, ℤ, pos, true, false, ◌||◌, Option, some, List,
  [], ◌∷◌, ◌++◌, contains, ◌==◌, if◌then◌else◌, length, ap, ◌∙◌, Bool-cases, Option-cases, inl, inr,
}
use tridentpos.Prelude.Fallible.{ok, err, ◌>>=◌}
use tridentpos.Pos.Table.{order_rows}
use tridentpos.Inventory.{Inv, InventoryError, Recipe, RecipeItem, out_of_fuel, parse_decimal12x4}
use tridentpos.Inventory.Explosion.{
  Entries, Target, explode_recursive, explode_items, explode_item, explode_target,
  explode_ingredients, positive_yield, effective, validate_recipe_item, format_entries,
}

-- How many of the known identifiers are not on the stack.
unfoldable pub off_stack : List ℕ → List ℕ → ℕ
off_stack [] visited = 0
off_stack (k ∷ known) visited = (if contains k visited then 0 else 1) + off_stack known visited

contains-append : (k r : ℕ) (xs : List ℕ) → contains k (xs ++ (r ∷ [])) ≡ (contains k xs || k == r)
contains-append k r [] = ground arith
contains-append k r (x ∷ xs) = ground (arith, contains-append k r xs)

off_stack-le :
    (known visited : List ℕ) (r : ℕ)
    → off_stack known (visited ++ (r ∷ [])) ≤ off_stack known visited
unfolding off_stack
off_stack-le [] visited r = omega arith
off_stack-le (k ∷ known) visited r =
    ground (arith, contains-append k r visited, off_stack-le known visited r)

-- Pushing a known identifier leaves one fewer off the stack.
pub off_stack-lt :
    (known visited : List ℕ) (r : ℕ)
    → contains r known ≡ true
    → contains r visited ≡ false
    → off_stack known (visited ++ (r ∷ [])) < off_stack known visited
unfolding off_stack
off_stack-lt [] visited r h k = absurd (cc)
off_stack-lt (q ∷ known) visited r h k = elim (Bool-cases (r == q)) [
  | inl same ↦
      let e : r ≡ q = ground (arith, same) in
      rw (← e) (ground (arith, k, contains-append r r visited, off_stack-le known visited r))
  | inr other ↦
      let there : contains r known ≡ true = ground (arith, other) in
      ground (arith, contains-append q r visited, off_stack-lt known visited r there k)
]

-- The resolver answers only for the known identifiers.
abbrev pub Knows : List ℕ → (ℕ → Option Recipe) → Type 0
Knows known resolver =
    (r : ℕ) (recipe : Recipe) → resolver r ≡ some recipe → contains r known ≡ true

abbrev pub HasFuel : {A : Type 0} → Inv A → Type 0
HasFuel r = r ≢ err out_of_fuel

pub parse_decimal12x4-HasFuel : (s : List ℕ) → HasFuel (parse_decimal12x4 s)
unfolding parse_decimal12x4
parse_decimal12x4-HasFuel s = ground arith

pub positive_yield-HasFuel : (recipe : Recipe) → HasFuel (positive_yield recipe)
unfolding positive_yield
positive_yield-HasFuel recipe = ground (arith, parse_decimal12x4-HasFuel recipe.yield_quantity)

effective-HasFuel : (f q y : ℤ) → HasFuel (effective f q y)
unfolding effective tridentpos.Inventory.divide_scale4
effective-HasFuel f q y = ground arith

pub validate_recipe_item-HasFuel : (item : RecipeItem) → HasFuel (validate_recipe_item item)
unfolding validate_recipe_item
validate_recipe_item-HasFuel item = ground arith

pub >>=-HasFuel :
    {A B : Type 0} (m : Inv A) (f : A → Inv B)
    → HasFuel m
    → ((a : A) → HasFuel (f a))
    → HasFuel (m >>= f)
>>=-HasFuel (ok a) f h k = k a
>>=-HasFuel (err e) f h k = ground (arith, h)

>>=-eq :
    {A B : Type 0} (m : Inv A) {f g : A → Inv B} → ((a : A) → f a ≡ g a) → (m >>= f) ≡ (m >>= g)
>>=-eq (ok a) h = h a
>>=-eq (err e) h = refl

module _ (resolver : ℕ → Option Recipe) (known : List ℕ) (knows : Knows known resolver) where
  -- A recursion that does not run out of fuel below this stack.
  abbrev Below : (Recipe → ℤ → List ℕ → Entries → Inv Entries) → List ℕ → Type 0
  Below g visited =
      (recipe : Recipe) (gross : ℤ) (r : ℕ) (acc : Entries)
      → contains r known ≡ true
      → contains r visited ≡ false
      → HasFuel (g recipe gross (visited ++ (r ∷ [])) acc)

  explode_target-HasFuel :
      (g : Recipe → ℤ → List ℕ → Entries → Inv Entries) (visited : List ℕ) (net gross : ℤ)
      (acc : Entries) (t : Target)
      → Below g visited
      → HasFuel (explode_target resolver g visited net gross acc t)
  unfolding explode_target
  explode_target-HasFuel g visited net gross acc (Target.ingredient i) below = ground arith
  explode_target-HasFuel g visited net gross acc (Target.sub_recipe r) below =
      elim (Option-cases (resolver r)) [
        | inl missing ↦ ground (arith, missing)
        | inr (recipe, found) ↦
            ground
              (arith, found, knows r recipe found, below recipe gross r acc (knows r recipe found))
      ]

  explode_item-HasFuel :
      (g : Recipe → ℤ → List ℕ → Entries → Inv Entries) (yield factor : ℤ) (visited : List ℕ)
      (item : RecipeItem) (acc : Entries)
      → Below g visited
      → HasFuel (explode_item resolver g yield factor visited item acc)
  unfolding explode_item
  explode_item-HasFuel g yield factor visited item acc below =
      >>=-HasFuel _ _ (validate_recipe_item-HasFuel item) (λ t.
        >>=-HasFuel _ _ (parse_decimal12x4-HasFuel item.quantity) (λ n.
          >>=-HasFuel _ _ (parse_decimal12x4-HasFuel item.gross_quantity) (λ q.
            >>=-HasFuel _ _ (effective-HasFuel factor n yield) (λ net.
              >>=-HasFuel _ _ (effective-HasFuel factor q yield)
                (λ gross. explode_target-HasFuel g visited net gross acc t below)))))

  explode_items-HasFuel :
      (g : Recipe → ℤ → List ℕ → Entries → Inv Entries) (yield factor : ℤ) (visited : List ℕ)
      (items : List RecipeItem) (acc : Entries)
      → Below g visited
      → HasFuel (explode_items resolver g yield factor visited items acc)
  unfolding explode_items
  explode_items-HasFuel g yield factor visited [] acc below = ground arith
  explode_items-HasFuel g yield factor visited (item ∷ items) acc below =
      >>=-HasFuel _ _ (explode_item-HasFuel g yield factor visited item acc below)
        (λ acc'. explode_items-HasFuel g yield factor visited items acc' below)

  -- A depth above the number of known identifiers off the stack is enough.
  explode_recursive-HasFuel :
      (depth : ℕ) (recipe : Recipe) (factor : ℤ) (visited : List ℕ) (acc : Entries)
      → off_stack known visited < depth
      → HasFuel (explode_recursive resolver depth recipe factor visited acc)
  unfolding explode_recursive
  explode_recursive-HasFuel zero recipe factor visited acc h = absurd (omega arith)
  explode_recursive-HasFuel (suc depth) recipe factor visited acc h =
      >>=-HasFuel _ _ (positive_yield-HasFuel recipe) (λ yield.
        explode_items-HasFuel (explode_recursive resolver depth) yield factor visited recipe.items
          acc
          (λ sub gross r acc' there fresh.
            explode_recursive-HasFuel depth sub gross (visited ++ (r ∷ [])) acc'
              (omega (arith, off_stack-lt known visited r there fresh))))

  -- Two recursions that agree below this stack.
  abbrev Agree :
      (Recipe → ℤ → List ℕ → Entries → Inv Entries)
      → (Recipe → ℤ → List ℕ → Entries → Inv Entries)
      → List ℕ
      → Type 0
  Agree g g' visited =
      (recipe : Recipe) (gross : ℤ) (r : ℕ) (acc : Entries)
      → contains r known ≡ true
      → contains r visited ≡ false
      → g recipe gross (visited ++ (r ∷ [])) acc ≡ g' recipe gross (visited ++ (r ∷ [])) acc

  explode_target-Agree :
      (g g' : Recipe → ℤ → List ℕ → Entries → Inv Entries) (visited : List ℕ) (net gross : ℤ)
      (acc : Entries) (t : Target)
      → Agree g g' visited
      → explode_target resolver g visited net gross acc t
        ≡ explode_target resolver g' visited net gross acc t
  unfolding explode_target
  explode_target-Agree g g' visited net gross acc (Target.ingredient i) agree = refl
  explode_target-Agree g g' visited net gross acc (Target.sub_recipe r) agree =
      elim (Option-cases (resolver r)) [
        | inl missing ↦ ground (arith, missing)
        | inr (recipe, found) ↦
            ground
              (arith, found, knows r recipe found, agree recipe gross r acc (knows r recipe found))
      ]

  explode_items-Agree :
      (g g' : Recipe → ℤ → List ℕ → Entries → Inv Entries) (yield factor : ℤ) (visited : List ℕ)
      (items : List RecipeItem) (acc : Entries)
      → Agree g g' visited
      → explode_items resolver g yield factor visited items acc
        ≡ explode_items resolver g' yield factor visited items acc
  unfolding explode_items explode_item
  explode_items-Agree g g' yield factor visited [] acc agree = refl
  explode_items-Agree g g' yield factor visited (item ∷ items) acc agree =
      ap (λ m. m >>= explode_items resolver g yield factor visited items)
        (>>=-eq (validate_recipe_item item) (λ t. >>=-eq (parse_decimal12x4 item.quantity) (λ n.
          >>=-eq (parse_decimal12x4 item.gross_quantity) (λ q.
            >>=-eq (effective factor n yield) (λ net.
              >>=-eq (effective factor q yield)
                (λ gross. explode_target-Agree g g' visited net gross acc t agree))))))
      ∙ >>=-eq (explode_item resolver g' yield factor visited item acc)
          (λ acc'. explode_items-Agree g g' yield factor visited items acc' agree)

  explode_recursive-Agree :
      (depth depth' : ℕ) (recipe : Recipe) (factor : ℤ) (visited : List ℕ) (acc : Entries)
      → off_stack known visited < depth
      → off_stack known visited < depth'
      → explode_recursive resolver depth recipe factor visited acc
        ≡ explode_recursive resolver depth' recipe factor visited acc
  unfolding explode_recursive
  explode_recursive-Agree zero depth' recipe factor visited acc h h' = absurd (omega arith)
  explode_recursive-Agree (suc depth) zero recipe factor visited acc h h' = absurd (omega arith)
  explode_recursive-Agree (suc depth) (suc depth') recipe factor visited acc h h' =
      >>=-eq (positive_yield recipe) (λ yield.
        explode_items-Agree (explode_recursive resolver depth) (explode_recursive resolver depth')
          yield factor visited recipe.items acc
          (λ sub gross r acc' there fresh.
            explode_recursive-Agree depth depth' sub gross (visited ++ (r ∷ [])) acc'
              (omega (arith, off_stack-lt known visited r there fresh))
              (omega (arith, off_stack-lt known visited r there fresh))))

pub off_stack-le-length : (known visited : List ℕ) → off_stack known visited ≤ length known
unfolding off_stack
off_stack-le-length [] visited = omega arith
off_stack-le-length (k ∷ known) visited = ground (arith, off_stack-le-length known visited)

format_entries-HasFuel : (es : Entries) → HasFuel (format_entries es)
unfolding format_entries tridentpos.Inventory.format_decimal12x4
format_entries-HasFuel [] = ground arith
format_entries-HasFuel (e ∷ es) = ground (arith, format_entries-HasFuel es)

-- The explosion ends, cycles or not: with a resolver that knows finitely many recipes, a depth of one
-- more than their number is never used up, and every greater depth gives the same answer.
pub explode_ingredients_terminates :
    (resolver : ℕ → Option Recipe) (known : List ℕ) (recipe : Recipe) (depth : ℕ)
    → Knows known resolver
    → length known < depth
    → HasFuel (explode_ingredients resolver depth recipe)
      × (explode_ingredients resolver depth recipe
          ≡ explode_ingredients resolver (suc (length known)) recipe)
unfolding explode_ingredients
explode_ingredients_terminates resolver known recipe depth knows h =
    let bound = off_stack-le-length known (recipe.id ∷ []) in
    (
      >>=-HasFuel _ _
          (explode_recursive-HasFuel resolver known knows depth recipe (pos 10000) (recipe.id ∷ [])
            [] (omega (arith, bound)))
          (λ es. format_entries-HasFuel _),
      ap (λ m. m >>= λ es. format_entries (order_rows (λ e. e.ingredient_id) es))
          (explode_recursive-Agree resolver known knows depth (suc (length known)) recipe
            (pos 10000) (recipe.id ∷ []) [] (omega (arith, bound)) (omega (arith, bound))),
    )
