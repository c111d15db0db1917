-- ===== src/Inventory/Explosion/Leaves/Totals.antt =====
-- The answer of `explodeIngredients` of packages/inventory/src/recipe-engine.ts: one row to an
-- ingredient, with the sums of its shares.
use tridentpos.Prelude.{
  ℕ, ℤ, pos, ◌+ℤ◌, ◌≡◌, refl, arith, ap, sym, ◌∙◌, Bool, false, Option, none, some, List, [], ◌∷◌,
  ◌==◌, if◌then◌else◌, Bool-cases, inl, inr, +ℤ_assoc, pos_zero-+ℤ,
}
use tridentpos.Prelude.Fallible.{ok, >>=-eq-ok}
use tridentpos.Money.Decimal.{scaled_to_decimal_string}
use tridentpos.Pos.Table.{find_row, order_rows}
use tridentpos.Pos.Table.Order.{IsOrdered, IsDistinct, Over, order_rows-IsOrdered}
use tridentpos.Inventory.{Recipe, format_decimal12x4}
use tridentpos.Inventory.Explosion.{
  Entries, IngredientEntry, ExplodedIngredient, add_entry, format_entries, explode_ingredients,
  explode_recursive,
}
use tridentpos.Inventory.Explosion.Leaves.{recipe_leaves, add_leaves, explode_recursive-leaves}

abbrev pub entry_id : IngredientEntry → ℕ
entry_id e = e.ingredient_id

abbrev pub row_id : ExplodedIngredient → ℕ
row_id r = r.ingredient_id

-- Net and gross together.
abbrev pub join_shares : Option (ℤ × ℤ) → Option (ℤ × ℤ) → Option (ℤ × ℤ)
join_shares none s = s
join_shares (some p) none = some p
join_shares (some (a, b)) (some (c, d)) = some (a +ℤ c, b +ℤ d)

abbrev pub entry_share : IngredientEntry → ℤ × ℤ
entry_share e = (e.net_scaled, e.gross_scaled)

-- The sums of the net and of the gross amounts of an ingredient at the leaves, if it is at any.
unfoldable pub share_of : ℕ → Entries → Option (ℤ × ℤ)
share_of i [] = none
share_of i (e ∷ es) =
    let rest = share_of i es in
    if e.ingredient_id == i then join_shares (some (entry_share e)) rest else rest

abbrev share_in : Option IngredientEntry → Option (ℤ × ℤ)
share_in none = none
share_in (some e) = some (entry_share e)

abbrev found_share : ℕ → Entries → Option (ℤ × ℤ)
found_share i acc = share_in (find_row entry_id i acc)

share_in-if :
    (b : Bool) (e : IngredientEntry) (o : Option IngredientEntry)
    → share_in (if b then some e else o) ≡ (if b then some (entry_share e) else share_in o)
share_in-if b e o = ground arith

found_share-add_entry :
    (i j : ℕ) (net gross : ℤ) (acc : Entries)
    → found_share i (add_entry j net gross acc)
      ≡ (if j == i then join_shares (found_share i acc) (some (net, gross)) else found_share i acc)
unfolding find_row add_entry
found_share-add_entry i j net gross [] = rw (pos_zero-+ℤ net, pos_zero-+ℤ gross) (ground arith)
found_share-add_entry i j net gross (e ∷ es) =
    ground (arith, found_share-add_entry i j net gross es)

join_shares_assoc :
    (a b c : Option (ℤ × ℤ)) → join_shares (join_shares a b) c ≡ join_shares a (join_shares b c)
join_shares_assoc none b c = refl
join_shares_assoc (some p) none c = refl
join_shares_assoc (some p) (some q) none = refl
join_shares_assoc (some p) (some q) (some r) =
    ground (arith, +ℤ_assoc p.0 q.0 r.0, +ℤ_assoc p.1 q.1 r.1)

join_shares-none : (a : Option (ℤ × ℤ)) → join_shares a none ≡ a
join_shares-none none = refl
join_shares-none (some p) = refl

found_share-add_leaves :
    (i : ℕ) (es acc : Entries)
    → found_share i (add_leaves es acc) ≡ join_shares (found_share i acc) (share_of i es)
unfolding add_leaves share_of
found_share-add_leaves i [] acc = sym (join_shares-none (found_share i acc))
found_share-add_leaves i (e ∷ es) acc =
    found_share-add_leaves i es (add_entry e.ingredient_id e.net_scaled e.gross_scaled acc)
    ∙ ap (λ s. join_shares s (share_of i es))
        (found_share-add_entry i e.ingredient_id e.net_scaled e.gross_scaled acc)
    ∙ elim (Bool-cases (e.ingredient_id == i)) [
      | inl same ↦
          rw same (join_shares_assoc (found_share i acc) (some (entry_share e)) (share_of i es))
      | inr other ↦ rw other refl
    ]

find_row-add_entry :
    (k j : ℕ) (net gross : ℤ) (acc : Entries)
    → (j == k) ≡ false
    → find_row entry_id k (add_entry j net gross acc) ≡ find_row entry_id k acc
unfolding find_row add_entry
find_row-add_entry k j net gross [] other = ground arith
find_row-add_entry k j net gross (e ∷ es) other =
    ground (arith, find_row-add_entry k j net gross es)

add_entry-IsDistinct :
    (j : ℕ) (net gross : ℤ) (acc : Entries)
    → IsDistinct entry_id acc
    → IsDistinct entry_id (add_entry j net gross acc)
unfolding find_row add_entry
add_entry-IsDistinct j net gross [] h = (refl, tt)
add_entry-IsDistinct j net gross (e ∷ es) h = elim (Bool-cases (e.ingredient_id == j)) [
  | inl same ↦ rw same h
  | inr other ↦ rw other (
    find_row-add_entry e.ingredient_id j net gross es (ground (arith, other)) ∙ h.0,
    add_entry-IsDistinct j net gross es h.1,
  )
]

add_leaves-IsDistinct :
    (es acc : Entries) → IsDistinct entry_id acc → IsDistinct entry_id (add_leaves es acc)
unfolding add_leaves
add_leaves-IsDistinct [] acc h = h
add_leaves-IsDistinct (e ∷ es) acc h =
    add_leaves-IsDistinct es _
      (add_entry-IsDistinct e.ingredient_id e.net_scaled e.gross_scaled acc h)

-- The row of an ingredient, with its sums as decimal texts.
abbrev pub written : ℕ → Option (ℤ × ℤ) → Option ExplodedIngredient
written i none = none
written i (some (net, gross)) = some (record {
  ingredient_id = i;
  total_quantity = scaled_to_decimal_string net;
  total_gross_quantity = scaled_to_decimal_string gross;
})

format_decimal12x4_ok :
    (a : ℤ) {t : List ℕ} → format_decimal12x4 a ≡ ok t → t ≡ scaled_to_decimal_string a
unfolding format_decimal12x4
format_decimal12x4_ok a h = ground arith

abbrev formatted : IngredientEntry → List ℕ → List ℕ → ExplodedIngredient
formatted e net gross = record {
  ingredient_id = e.ingredient_id;
  total_quantity = net;
  total_gross_quantity = gross;
}

format_entries_cons :
    (e : IngredientEntry) (es : Entries) {out : List ExplodedIngredient}
    → format_entries (e ∷ es) ≡ ok out
    → (rest : List ExplodedIngredient) × (format_entries es ≡ ok rest)
      × (out
          ≡ formatted e
              (scaled_to_decimal_string e.net_scaled)
              (scaled_to_decimal_string e.gross_scaled)
            ∷ rest)
unfolding format_entries
format_entries_cons e es h =
    let (net, a, rest1) = >>=-eq-ok (format_decimal12x4 e.net_scaled) _ h in
    let (gross, b, rest2) = >>=-eq-ok (format_decimal12x4 e.gross_scaled) _ rest1 in
    let (rest, c, last) = >>=-eq-ok (format_entries es) _ rest2 in
    (
      rest,
      c,
      ground (
        arith,
        last,
        format_decimal12x4_ok e.net_scaled a,
        format_decimal12x4_ok e.gross_scaled b,
      ),
    )

format_entries_nil : {out : List ExplodedIngredient} → format_entries [] ≡ ok out → out ≡ []
unfolding format_entries
format_entries_nil h = ground arith

format_entries_found :
    (i : ℕ) (es : Entries) {out : List ExplodedIngredient}
    → format_entries es ≡ ok out
    → find_row row_id i out ≡ written i (found_share i es)
unfolding find_row
format_entries_found i [] h = let e = format_entries_nil h in rw e refl
format_entries_found i (e ∷ es) h =
    let (rest, formatted_rest, e') = format_entries_cons e es h in
    rw e' (ground (arith, format_entries_found i es formatted_rest))

format_entries-Over :
    (k : ℕ) (es : Entries) {out : List ExplodedIngredient}
    → format_entries es ≡ ok out
    → Over entry_id k es
    → Over row_id k out
format_entries-Over k [] h o = let e = format_entries_nil h in rw e tt
format_entries-Over k (e ∷ es) h o =
    let (rest, formatted_rest, e') = format_entries_cons e es h in
    rw e' (o.0, format_entries-Over k es formatted_rest o.1)

format_entries-IsOrdered :
    (es : Entries) {out : List ExplodedIngredient}
    → format_entries es ≡ ok out
    → IsOrdered entry_id es
    → IsOrdered row_id out
format_entries-IsOrdered [] h o = let e = format_entries_nil h in rw e tt
format_entries-IsOrdered (e ∷ es) h o =
    let (rest, formatted_rest, e') = format_entries_cons e es h in
    rw e' (
      format_entries-Over e.ingredient_id es formatted_rest o.0,
      format_entries-IsOrdered es formatted_rest o.1,
    )

-- An explosion that succeeds has one row to each ingredient at a leaf of the recipe and no other, in
-- the order of the ingredients, with the exact sums of its net and gross shares over the leaves, by
-- whatever branches they are reached.
pub explode_ingredients-share_of :
    (resolver : ℕ → Option Recipe) (depth : ℕ) (recipe : Recipe) (i : ℕ)
    {out : List ExplodedIngredient}
    → explode_ingredients resolver depth recipe ≡ ok out
    → (leaves : Entries) × (recipe_leaves resolver depth recipe (pos 10000) (recipe.id ∷ [])
        ≡ ok leaves)
      × IsOrdered row_id out
      × (find_row row_id i out ≡ written i (share_of i leaves))
unfolding explode_ingredients find_row
explode_ingredients-share_of resolver depth recipe i done =
    let factor = pos 10000 in
    let visited : List ℕ = recipe.id ∷ [] in
    let (entries, exploded, formatted_out) =
      >>=-eq-ok (explode_recursive resolver depth recipe factor visited []) _ done in
    let (leaves, listed, e) =
      >>=-eq-ok (recipe_leaves resolver depth recipe factor visited) _
        (sym (explode_recursive-leaves resolver depth recipe factor visited []) ∙ exploded) in
    let added : add_leaves leaves [] ≡ entries = ground (arith, e) in
    let distinct : IsDistinct entry_id entries =
      rw (← added) (add_leaves-IsDistinct leaves [] tt) in
    let (ordered, found) = order_rows-IsOrdered entry_id i entries distinct in
    (
      leaves,
      listed,
      format_entries-IsOrdered (order_rows entry_id entries) formatted_out ordered,
      format_entries_found i (order_rows entry_id entries) formatted_out
          ∙ ap (λ o. written i (share_in o)) found
          ∙ ap (λ es. written i (found_share i es)) (sym added)
          ∙ ap (written i) (found_share-add_leaves i leaves []),
    )
