-- ===== src/Pos/Split/Items.antt =====
-- A split by items: what each part is charged, and that the tips are handed out exactly.
use tridentpos.Prelude.{
  ℤ, pos, ℕ, ◌+◌, ◌+ℤ◌, ◌-ℤ◌, ◌≡◌, sym, ◌∙◌, arith, int_laws, +ℤ_assoc, pos_zero-+ℤ, Bool, true,
  false, List, [], ◌∷◌, ◌<ℤ◌, Bool-cases, inl, inr, map, keep_if, not, some, Option-cases,
}
use tridentpos.Pos.Types.{Cuenta, CuentaItem, is_cancelado}
use tridentpos.Pos.Errors.{ok}
use tridentpos.Pos.Totals.Sums.{AllPriced, IsPriced, sum}
use tridentpos.Pos.Split.{
  SplitPartitionPlan, Amounts, no_amounts, part_items, sum_items, item_in_map, add_item_amounts,
  prorated_tips, item_part, item_parts, split_by_items, sum_subtotals, item_ids_of, is_last,
  assign_partitions,
}

abbrev pub tips_of : Cuenta → ℤ
tips_of c = c.tips_total

module _ (original : Cuenta) (now : ℕ) (active : List CuentaItem) (whole : ℤ) where
  last_takes_rest :
      (running : ℤ)
      → pos 0 <ℤ whole
      → (part_subtotal : ℤ)
      → prorated_tips original whole true part_subtotal running ≡ original.tips_total -ℤ running
  unfolding prorated_tips
  last_takes_rest running positive part_subtotal = ground arith

  -- From any index the remaining parts take exactly the tips that have not been handed out.
  item_parts_tips :
      (i : ℕ) (running : ℤ) (p : SplitPartitionPlan) (ps : List SplitPartitionPlan)
      → pos 0 <ℤ whole
      → running +ℤ sum (map tips_of (item_parts original now active whole i running (p ∷ ps)))
        ≡ original.tips_total
  unfolding item_parts
  item_parts_tips i running p [] positive = rw (last_takes_rest running positive _) (omega int_laws)
  item_parts_tips i running p (q ∷ ps) positive =
      let part = item_part original now active whole i running p false in
      sym (+ℤ_assoc running part.tips_total _)
      ∙ item_parts_tips (i + 1) (running +ℤ part.tips_total) q ps positive

AllPriced-keep_if :
    (test : CuentaItem → Bool) (items : List CuentaItem)
    → AllPriced items
    → AllPriced (keep_if test items)
AllPriced-keep_if test [] h = tt
AllPriced-keep_if test (i ∷ items) (h, hs) = elim (Bool-cases (test i)) [
  | inl kept ↦ rw kept (h, AllPriced-keep_if test items hs)
  | inr gone ↦ rw gone (AllPriced-keep_if test items hs)
]

item_in_map-IsPriced :
    (id : ℕ) (active : List CuentaItem) {it : CuentaItem}
    → AllPriced active
    → item_in_map id active ≡ some it
    → IsPriced it
unfolding item_in_map
item_in_map-IsPriced id [] h e = absurd (cc)
item_in_map-IsPriced id (i ∷ active) {it} (h, hs) e = elim (Option-cases (item_in_map id active)) [
  | inl missing ↦ ground (arith, missing)
  | inr (later, found) ↦ item_in_map-IsPriced id active {it = it} hs (ground (arith, found))
]

AllPriced-part_items :
    (active : List CuentaItem) (ids : List ℕ) → AllPriced active → AllPriced (part_items active ids)
unfolding part_items
AllPriced-part_items active [] h = tt
AllPriced-part_items active (id ∷ ids) h = elim (Option-cases (item_in_map id active)) [
  | inl missing ↦ rw missing (AllPriced-part_items active ids h)
  | inr (it, found) ↦
      rw found (item_in_map-IsPriced id active h found, AllPriced-part_items active ids h)
]

abbrev pub total_of : CuentaItem → ℤ
total_of i = i.total

-- The three sums of a part make the sum of the totals of its lines.
sum_items_priced :
    (acc : Amounts) (items : List CuentaItem)
    → AllPriced items
    → let s = sum_items acc items in
      s.subtotal -ℤ s.discounts_total +ℤ s.tax_total
      ≡ acc.subtotal -ℤ acc.discounts_total +ℤ acc.tax_total +ℤ sum (map total_of items)
unfolding sum_items
sum_items_priced acc [] h = omega int_laws
sum_items_priced acc (i ∷ items) (h, hs) =
    sum_items_priced (add_item_amounts acc i) items hs ∙ rw h (omega int_laws)

-- What a part is charged: the totals of its own lines, and its share of the tips.
abbrev pub IsCharged : Cuenta → Type 0
IsCharged c = c.total_amount ≡ sum (map total_of c.items) +ℤ c.tips_total

abbrev pub AllCharged : List Cuenta → Type 0
AllCharged [] = Unit
AllCharged (c ∷ cs) = IsCharged c × AllCharged cs

item_part-IsCharged :
    (original : Cuenta) (now : ℕ) (active : List CuentaItem) (whole : ℤ) (i : ℕ) (running : ℤ)
    (p : SplitPartitionPlan) (last : Bool)
    → AllPriced active
    → IsCharged (item_part original now active whole i running p last)
unfolding item_part
item_part-IsCharged original now active whole i running p last h =
    let items = part_items active (item_ids_of p) in
    rw (sum_items_priced no_amounts items (AllPriced-part_items active (item_ids_of p) h))
      (omega int_laws)

item_parts-AllCharged :
    (original : Cuenta) (now : ℕ) (active : List CuentaItem) (whole : ℤ) (i : ℕ) (running : ℤ)
    (ps : List SplitPartitionPlan)
    → AllPriced active
    → AllCharged (item_parts original now active whole i running ps)
unfolding item_parts
item_parts-AllCharged original now active whole i running [] h = tt
item_parts-AllCharged original now active whole i running (p ∷ ps) h = (
  item_part-IsCharged original now active whole i running p (is_last ps) h,
  item_parts-AllCharged original now active whole (i + 1) _ ps h,
)

abbrev pub active_of : Cuenta → List CuentaItem
active_of c = keep_if (λ i. not (is_cancelado i.status)) c.items

split_by_items_ok :
    (c : Cuenta) (ps : List SplitPartitionPlan) (now : ℕ) {subs : List Cuenta}
    → split_by_items c ps now ≡ ok subs
    → subs ≡ item_parts c now (active_of c) (sum_subtotals (pos 0) (active_of c)) 0 (pos 0) ps
unfolding split_by_items
split_by_items_ok c ps now e = elim (Option-cases (assign_partitions [] ps)) [
  | inl twice ↦ absurd (ground (arith, twice))
  | inr (assigned, found) ↦ ground (arith, found)
]

-- A split by items of an account whose lines are priced, where it succeeds, charges each part the
-- totals of its own lines and its share of the tips.
split_by_items_charges :
    (c : Cuenta) (ps : List SplitPartitionPlan) (now : ℕ) {subs : List Cuenta}
    → AllPriced c.items
    → split_by_items c ps now ≡ ok subs
    → AllCharged subs
split_by_items_charges c ps now h e = rw (split_by_items_ok c ps now e) (
    item_parts-AllCharged c now (active_of c) (sum_subtotals (pos 0) (active_of c)) 0 (pos 0) ps
      (AllPriced-keep_if _ c.items h))

-- A split by items into one part or more, where it succeeds and the lines that are not cancelled have
-- a positive subtotal, hands out the tips of the account exactly.
split_by_items_tips :
    (c : Cuenta) (p : SplitPartitionPlan) (ps : List SplitPartitionPlan) (now : ℕ)
    {subs : List Cuenta}
    → pos 0 <ℤ sum_subtotals (pos 0) (active_of c)
    → split_by_items c (p ∷ ps) now ≡ ok subs
    → sum (map tips_of subs) ≡ c.tips_total
split_by_items_tips c p ps now positive e =
    let whole = sum_subtotals (pos 0) (active_of c) in
    rw (split_by_items_ok c (p ∷ ps) now e)
      (sym (pos_zero-+ℤ _) ∙ item_parts_tips c now (active_of c) whole 0 (pos 0) p ps positive)
