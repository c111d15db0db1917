-- ===== src/Pos/Split.antt =====
-- `ProportionalBillSplitStrategy` of packages/pos/src/policies.ts. The instant `now` is an argument.
pub mod Ratio
pub mod Items
use tridentpos.Prelude.{
  ℤ, pos, ℕ, suc, ◌+◌, ◌+ℤ◌, ◌-ℤ◌, ◌*ℤ◌, ◌/ℤ◌, leb_ℤ, ltb_ℤ, ltb, ◌==◌, not, Bool, true, false,
  Option, none, some, List, [], ◌∷◌, ◌++◌, any, contains, find_first, keep_if, length,
  if◌then◌else◌,
}
use tridentpos.Pos.Types.{Cuenta, CuentaItem, abierta, is_cancelado}
use tridentpos.Pos.Errors.{
  Result, ok, err, invalid_split_partitions, duplicate_split_item, incomplete_item_split,
  invalid_split_ratio,
}

pub record SplitPartitionPlan : Type 0 where
  pub partition_id : ℕ
  pub item_ids : Option (List ℕ)
  pub ratio_scale4 : Option ℤ

-- `p.itemIds ?? []`
abbrev pub item_ids_of : SplitPartitionPlan → List ℕ
item_ids_of p = elim p.item_ids [ none ↦ [] | some ids ↦ ids ]

-- `p.ratioScale4 ?? 10000n`
abbrev pub ratio_of : SplitPartitionPlan → ℤ
ratio_of p = elim p.ratio_scale4 [ none ↦ pos 10000 | some r ↦ r ]

-- The amounts of one part.
pub record Amounts : Type 0 where
  pub subtotal : ℤ
  pub tax_total : ℤ
  pub discounts_total : ℤ
  pub tips_total : ℤ
  pub total_amount : ℤ

-- The account that a part becomes: `i` is the index of the part.
unfoldable pub sub_cuenta : Cuenta → ℕ → ℕ → ℕ → Amounts → List CuentaItem → Cuenta
sub_cuenta original now i partition_id a items = record {
  row = record original.row {
    id = partition_id;
    folio_number = none;
    status = abierta;
    subtotal = a.subtotal;
    tax_total = a.tax_total;
    discounts_total = a.discounts_total;
    tips_total = a.tips_total;
    total_amount = a.total_amount;
    guest_count = some (pos 1);
    opened_at = now;
    printed_at = none;
    closed_at = none;
    version = 1;
    updated_at = now;
    parent_cuenta_id = some original.id;
    split_sequence = some (i + 1);
  };
  items = items;
}

abbrev pub no_amounts : Amounts
no_amounts = record {
  subtotal = pos 0;
  tax_total = pos 0;
  discounts_total = pos 0;
  tips_total = pos 0;
  total_amount = pos 0;
}

abbrev pub amounts_of : Cuenta → Amounts
amounts_of c = record {
  subtotal = c.subtotal;
  tax_total = c.tax_total;
  discounts_total = c.discounts_total;
  tips_total = c.tips_total;
  total_amount = c.total_amount;
}

abbrev pub add_amounts : Amounts → Amounts → Amounts
add_amounts a b = record {
  subtotal = a.subtotal +ℤ b.subtotal;
  tax_total = a.tax_total +ℤ b.tax_total;
  discounts_total = a.discounts_total +ℤ b.discounts_total;
  tips_total = a.tips_total +ℤ b.tips_total;
  total_amount = a.total_amount +ℤ b.total_amount;
}

abbrev pub sub_amounts : Amounts → Amounts → Amounts
sub_amounts a b = record {
  subtotal = a.subtotal -ℤ b.subtotal;
  tax_total = a.tax_total -ℤ b.tax_total;
  discounts_total = a.discounts_total -ℤ b.discounts_total;
  tips_total = a.tips_total -ℤ b.tips_total;
  total_amount = a.total_amount -ℤ b.total_amount;
}

-- `(amount * ratio) / totalRatio`, amount by amount.
unfoldable pub scale_amounts : Amounts → ℤ → ℤ → Amounts
scale_amounts a ratio total_ratio = record {
  subtotal = a.subtotal *ℤ ratio /ℤ total_ratio;
  tax_total = a.tax_total *ℤ ratio /ℤ total_ratio;
  discounts_total = a.discounts_total *ℤ ratio /ℤ total_ratio;
  tips_total = a.tips_total *ℤ ratio /ℤ total_ratio;
  total_amount = a.total_amount *ℤ ratio /ℤ total_ratio;
}

-- `partitions.reduce((sum, p) => sum + (p.ratioScale4 ?? 10000n), 0n)`
unfoldable pub sum_ratios : ℤ → List SplitPartitionPlan → ℤ
sum_ratios sum [] = sum
sum_ratios sum (p ∷ ps) = sum_ratios (sum +ℤ ratio_of p) ps

-- The loop of `#splitByRatio` from index i, with the running amounts; the last part gets the rest.
unfoldable pub ratio_parts : Cuenta → ℕ → ℤ → ℕ → Amounts → List SplitPartitionPlan → List Cuenta
unfolding scale_amounts sub_cuenta
ratio_parts original now total_ratio i running [] = []
ratio_parts original now total_ratio i running (p ∷ []) =
    sub_cuenta original now i p.partition_id (sub_amounts (amounts_of original) running) [] ∷ []
ratio_parts original now total_ratio i running (p ∷ q ∷ ps) =
    let part = scale_amounts (amounts_of original) (ratio_of p) total_ratio in
    sub_cuenta original now i p.partition_id part []
    ∷ ratio_parts original now total_ratio (i + 1) (add_amounts running part) (q ∷ ps)

unfoldable pub split_by_ratio : Cuenta → List SplitPartitionPlan → ℕ → Result (List Cuenta)
unfolding sum_ratios ratio_parts
split_by_ratio original partitions now =
    let total_ratio = sum_ratios (pos 0) partitions in
    if leb_ℤ total_ratio (pos 0)
    then err invalid_split_ratio
    else ok (ratio_parts original now total_ratio 0 no_amounts partitions)

-- The inner loop over `p.itemIds`: `none` is an item that was assigned before.
unfoldable pub assign_ids : List ℕ → List ℕ → Option (List ℕ)
assign_ids assigned [] = some assigned
assign_ids assigned (id ∷ ids) =
    let rest = assign_ids (id ∷ assigned) ids in if contains id assigned then none else rest

unfoldable pub assign_partitions : List ℕ → List SplitPartitionPlan → Option (List ℕ)
unfolding assign_ids
assign_partitions assigned [] = some assigned
assign_partitions assigned (p ∷ ps) = elim (assign_ids assigned (item_ids_of p)) [
  | none ↦ none
  | some assigned' ↦ assign_partitions assigned' ps
]

-- `itemMap.get(id)`: of two items under one identifier, `new Map` keeps the later.
unfoldable pub item_in_map : ℕ → List CuentaItem → Option CuentaItem
item_in_map id [] = none
item_in_map id (it ∷ items) = elim (item_in_map id items) [
  | some later ↦ some later
  | none ↦ if it.id == id then some it else none
]

-- `if (it) partItems.push(it)`
abbrev pub push_found : Option CuentaItem → List CuentaItem → List CuentaItem
push_found none items = items
push_found (some it) items = it ∷ items

unfoldable pub part_items : List CuentaItem → List ℕ → List CuentaItem
unfolding item_in_map
part_items active [] = []
part_items active (id ∷ ids) = push_found (item_in_map id active) (part_items active ids)

abbrev pub add_item_amounts : Amounts → CuentaItem → Amounts
add_item_amounts acc it = record acc {
  subtotal = acc.subtotal +ℤ it.subtotal;
  tax_total = acc.tax_total +ℤ it.tax_amount_applied;
  discounts_total = acc.discounts_total +ℤ it.discount_amount_applied;
}

-- The sums over the items of a part, which are the sums of `Amounts` but for the tips and the total.
unfoldable pub sum_items : Amounts → List CuentaItem → Amounts
sum_items acc [] = acc
sum_items acc (it ∷ items) = sum_items (add_item_amounts acc it) items

-- `activeItems.reduce((sum, item) => sum + item.subtotal, 0n)`
unfoldable pub sum_subtotals : ℤ → List CuentaItem → ℤ
sum_subtotals sum [] = sum
sum_subtotals sum (it ∷ items) = sum_subtotals (sum +ℤ it.subtotal) items

-- `proratedTips` of one part.
unfoldable pub prorated_tips : Cuenta → ℤ → Bool → ℤ → ℤ → ℤ
prorated_tips original total_original_subtotal is_last part_subtotal running_tips =
    if ltb_ℤ (pos 0) total_original_subtotal
    then if is_last
      then original.tips_total -ℤ running_tips
      else original.tips_total *ℤ part_subtotal /ℤ total_original_subtotal
    else pos 0

abbrev pub is_last : List SplitPartitionPlan → Bool
is_last [] = true
is_last (_ ∷ _) = false

-- One part of a split by items.
unfoldable pub item_part :
    Cuenta → ℕ → List CuentaItem → ℤ → ℕ → ℤ → SplitPartitionPlan → Bool → Cuenta
unfolding part_items sum_items prorated_tips sub_cuenta
item_part original now active total_original_subtotal i running_tips p last =
    let items = part_items active (item_ids_of p) in
    let sums = sum_items no_amounts items in
    let tips = prorated_tips original total_original_subtotal last sums.subtotal running_tips in
    sub_cuenta original now i p.partition_id
      (record sums {
        tips_total = tips;
        total_amount = sums.subtotal -ℤ sums.discounts_total +ℤ sums.tax_total +ℤ tips;
      })
      items

-- The loop of `#splitByItems` from index i. The running tips are used before the last part only.
unfoldable pub item_parts :
    Cuenta → ℕ → List CuentaItem → ℤ → ℕ → ℤ → List SplitPartitionPlan → List Cuenta
unfolding item_part
item_parts original now active total_original_subtotal i running_tips [] = []
item_parts original now active total_original_subtotal i running_tips (p ∷ ps) =
    let part =
      item_part original now active total_original_subtotal i running_tips p (is_last ps) in
    part
    ∷ item_parts original now active total_original_subtotal (i + 1)
        (running_tips +ℤ part.tips_total) ps

unfoldable pub split_by_items : Cuenta → List SplitPartitionPlan → ℕ → Result (List Cuenta)
unfolding assign_partitions sum_subtotals item_parts
split_by_items original partitions now =
    let active = keep_if (λ i. not (is_cancelado i.status)) original.items in
    elim (assign_partitions [] partitions) [
      | none ↦ err duplicate_split_item
      | some assigned ↦
          if length assigned == length active
          then ok
              (item_parts original now active (sum_subtotals (pos 0) active) 0 (pos 0) partitions)
          else err incomplete_item_split
    ]

abbrev pub has_item_ids : SplitPartitionPlan → Bool
has_item_ids p = ltb 0 (length (item_ids_of p))

unfoldable pub prorate_split : Cuenta → List SplitPartitionPlan → ℕ → Result (List Cuenta)
unfolding split_by_items split_by_ratio
prorate_split original partitions now =
    if ltb (length partitions) 2
    then err invalid_split_partitions
    else if any has_item_ids partitions
    then split_by_items original partitions now
    else split_by_ratio original partitions now
