-- ===== src/Pos/Tests.antt =====
-- Runs of the totals, the policies and the splits of packages/pos, and the theorems on them at
-- concrete accounts.
use tridentpos.Prelude.{pos, ℕ, ◌≡◌, refl, ◌+ℤ◌, none, some, List, [], ◌∷◌, true, codes, length}
use tridentpos.Pos.Types.{Cuenta, CuentaItem, abierta, cancelado}
use tridentpos.Pos.Errors.{Result, ok, err, duplicate_split_item}
use tridentpos.Pos.Totals.{recalculate_cuenta_totals}
use tridentpos.Pos.Totals.Sums.{recalculate-sums}
use tridentpos.Pos.Policies.{CancellationContext}
use tridentpos.Pos.Split.{
  SplitPartitionPlan, amounts_of, split_by_ratio, split_by_items, prorate_split,
}
use tridentpos.Pos.Split.Ratio.{sum_amounts, split_by_ratio_conserves}
use tridentpos.Pos.Samples.{soup, dish, line, account, item_row}

abbrev with_cancelled : List CuentaItem
with_cancelled =
    line soup
    ∷ line (item_row 63 cancelado (pos 70_000) (pos 0) (pos 0) (pos 70_000))
    ∷ line dish
    ∷ []

recalculate-sums_example :
    let t = recalculate_cuenta_totals with_cancelled (pos 100_000) in
    (t.subtotal ≡ pos 3_000_000)
    × (t.tax_total ≡ pos 400_000)
    × (t.discounts_total ≡ pos 500_000)
    × (t.total_amount ≡ pos 3_000_000)
unfolding ◌+ℤ◌
recalculate-sums_example = recalculate-sums with_cancelled (pos 100_000)

abbrev in_kitchen : CancellationContext
in_kitchen = record {
  kitchen_status = codes "En_Cocina";
  has_supervisor_authorization = true;
  reason = codes "cold";
}

abbrev third : ℕ → SplitPartitionPlan
third id = record { partition_id = id; item_ids = none; ratio_scale4 = some (pos 3_333) }

abbrev items_for : ℕ → List ℕ → SplitPartitionPlan
items_for id ids = record { partition_id = id; item_ids = some ids; ratio_scale4 = none }

-- The same line in two parts is refused.
refuses_duplicates :
    prorate_split (account abierta) (items_for 81 (61 ∷ []) ∷ items_for 82 (61 ∷ 62 ∷ []) ∷ []) 300
    ≡ err duplicate_split_item
unfolding prorate_split
refuses_duplicates = refl

abbrev oks : Result (List Cuenta) → List Cuenta
oks (ok subs) = subs
oks (err e) = []

abbrev thirds : List Cuenta
thirds = oks (split_by_ratio (account abierta) (third 81 ∷ third 82 ∷ third 83 ∷ []) 300)

split_by_ratio_conserves_example :
    (sum_amounts thirds ≡ amounts_of (account abierta)) × (length thirds ≡ 3)
unfolding split_by_ratio ◌+ℤ◌
split_by_ratio_conserves_example =
    split_by_ratio_conserves (account abierta) (third 81) (third 82 ∷ third 83 ∷ []) 300
      {subs = thirds} refl

abbrev halves : List Cuenta
halves =
    oks
      (split_by_items (account abierta) (items_for 81 (61 ∷ []) ∷ items_for 82 (62 ∷ []) ∷ []) 300)
