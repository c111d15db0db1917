-- ===== src/Pos/Dining/Proofs/Totals.antt =====
-- The totals of an account whose lines packages/pos/src/dining-service.ts changes.
use tridentpos.Prelude.{
  ℤ, ◌+ℤ◌, ◌-ℤ◌, ℕ, ◌≡◌, ◌∙◌, refl, ap, sym, Bool, Option-cases, true, false, some, List, [], ◌∷◌,
  arith, int_laws, Bool-cases, inl, inr, ◌==◌, if◌then◌else◌,
}
use tridentpos.Pos.Types.{Cuenta, CuentaItem, cancelado, is_cancelado}
use tridentpos.Pos.Errors.{ok}
use tridentpos.Pos.Repository.{DiningDb, get_cuenta, save_cuenta}
use tridentpos.Pos.Totals.Sums.{
  sum_of, sum_of-cons, recalculate-sums, IsPriced, AllPriced, recalculate_identity,
}
use tridentpos.Pos.Dining.{Validator}
use tridentpos.Pos.Dining.Lines.{
  CancelItemInput, with_items, find_item, replace_item, cancelled_item, cancel_item,
  finish_cancellation,
}

-- An account whose totals are the sums over its lines that are not cancelled.
abbrev pub IsSummed : Cuenta → Type 0
IsSummed c =
    (c.subtotal ≡ sum_of (λ i. i.subtotal) c.items)
    × (c.tax_total ≡ sum_of (λ i. i.tax_amount_applied) c.items)
    × (c.discounts_total ≡ sum_of (λ i. i.discount_amount_applied) c.items)
    × (c.total_amount ≡ sum_of (λ i. i.total) c.items +ℤ c.tips_total)

-- And every line is priced, so that the total is the subtotal less the discounts, plus taxes and tips.
abbrev pub IsBalanced : Cuenta → Type 0
IsBalanced c =
    IsSummed c × (c.total_amount ≡ c.subtotal -ℤ c.discounts_total +ℤ c.tax_total +ℤ c.tips_total)

-- What is saved with other lines, if they are priced.
SavedWith : List CuentaItem → Cuenta → Type 0
SavedWith items saved = (saved.items ≡ items) × AllPriced saved.items × IsBalanced saved

with_items_saved :
    (c : Cuenta) (items : List CuentaItem) (now : ℕ) (saved : Cuenta)
    → saved ≡ with_items c items now
    → AllPriced items
    → SavedWith items saved
unfolding with_items SavedWith
with_items_saved c items now saved e h =
    rw e (refl, h, (recalculate-sums items c.tips_total, recalculate_identity items c.tips_total h))

find_item-IsPriced :
    (id : ℕ) (items : List CuentaItem) (i : CuentaItem)
    → AllPriced items
    → find_item id items ≡ some i
    → IsPriced i
unfolding find_item
find_item-IsPriced id [] i h e = absurd (ground arith)
find_item-IsPriced id (j ∷ items) i (q, h) e = elim (Bool-cases (j.id == id)) [
  | inl same ↦ let found : j ≡ i = ground (arith, same) in rw (sym found) q
  | inr other ↦ find_item-IsPriced id items i h (ground (arith, other))
]

replace_item-AllPriced :
    (id : ℕ) (items : List CuentaItem) (i : CuentaItem)
    → AllPriced items
    → IsPriced i
    → AllPriced (replace_item id i items)
unfolding replace_item
replace_item-AllPriced id [] i h p = tt
replace_item-AllPriced id (j ∷ items) i (q, h) p = elim (Bool-cases (j.id == id)) [
  | inl same ↦ rw same (p, h)
  | inr other ↦ rw other (q, replace_item-AllPriced id items i h p)
]

Finished : CancelItemInput → ℕ → Cuenta → CuentaItem → Cuenta × CuentaItem × Bool → Type 0
Finished input now c item r =
    (r.1 ≡ cancelled_item item input r.2 now)
    × (r.0 ≡ with_items c (replace_item input.item_id r.1 c.items) now)

finish_cancellation_saved :
    (input : CancelItemInput) (now : ℕ) (c : Cuenta) (item : CuentaItem) (authorized : Bool)
    (db : DiningDb) {r : Cuenta × CuentaItem × Bool}
    → (finish_cancellation input now c item authorized db).0 ≡ ok r
    → Finished input now c item r
unfolding finish_cancellation save_cuenta Finished
finish_cancellation_saved input now c item authorized db done = ground arith

cancel_item_rest :
    (validate_pin : Validator) (input : CancelItemInput) (now : ℕ) (db : DiningDb)
    (item : CuentaItem) {c : Cuenta} {r : Cuenta × CuentaItem × Bool}
    → get_cuenta input.cuenta_id db ≡ some c
    → find_item input.item_id c.items ≡ some item
    → (cancel_item validate_pin input now db).0 ≡ ok r
    → (is_cancelado item.status ≡ false) × Finished input now c item r
unfolding cancel_item
cancel_item_rest validate_pin input now db item found there done =
    grind (arith, finish_cancellation_saved)

cancel_item_saved :
    (validate_pin : Validator) (input : CancelItemInput) (now : ℕ) (db : DiningDb) {c : Cuenta}
    {r : Cuenta × CuentaItem × Bool}
    → get_cuenta input.cuenta_id db ≡ some c
    → (cancel_item validate_pin input now db).0 ≡ ok r
    → (item : CuentaItem) × (find_item input.item_id c.items ≡ some item)
      × (is_cancelado item.status ≡ false)
      × Finished input now c item r
unfolding cancel_item
cancel_item_saved validate_pin input now db {c} found done =
    elim (Option-cases (find_item input.item_id c.items)) [
      | inl missing ↦ absurd (ground (arith, missing))
      | inr (item, there) ↦
          let (live, finished) = cancel_item_rest validate_pin input now db item found there done in
          (item, there, live, finished)
    ]

cancelled_item-IsPriced :
    (item : CuentaItem) (input : CancelItemInput) (waste : Bool) (now : ℕ) (i : CuentaItem)
    → i ≡ cancelled_item item input waste now
    → IsPriced item
    → IsPriced i
cancelled_item-IsPriced item input waste now i e p = rw e p

cancelled_item_fields :
    (item : CuentaItem) (input : CancelItemInput) (waste : Bool) (now : ℕ) (i : CuentaItem)
    → i ≡ cancelled_item item input waste now
    → (i.id ≡ item.id)
      × (i.status ≡ cancelado)
      × (i.cancellation_reason ≡ some input.reason)
      × (i.cancelled_by_user_id ≡ some input.operator_user_id)
      × (i.total ≡ item.total)
cancelled_item_fields item input waste now i e = rw e (refl, refl, refl, refl, refl)

-- A line that is cancelled in its place no longer counts.
sum_of-replace_item :
    (f : CuentaItem → ℤ) (id : ℕ) (items : List CuentaItem) (item i : CuentaItem)
    → find_item id items ≡ some item
    → is_cancelado item.status ≡ false
    → is_cancelado i.status ≡ true
    → sum_of f (replace_item id i items) ≡ sum_of f items -ℤ f item
unfolding find_item replace_item
sum_of-replace_item f id [] item i there live gone = absurd (ground arith)
sum_of-replace_item f id (j ∷ items) item i there live gone = elim (Bool-cases (j.id == id)) [
  | inl same ↦
      let found : j ≡ item = ground (arith, same) in
      let kept : is_cancelado j.status ≡ false = ap (λ l. is_cancelado l.status) found ∙ live in
      rw (same, sum_of-cons f i items, sum_of-cons f j items, gone, kept, sym found)
        (omega int_laws)
  | inr other ↦
      let rest = sum_of-replace_item f id items item i (ground (arith, other)) live gone in
      elim (Bool-cases (is_cancelado j.status)) [
        | inl out ↦
            rw (other, sum_of-cons f j (replace_item id i items), sum_of-cons f j items, out) rest
        | inr counts ↦
            rw
              (
                other,
                sum_of-cons f j (replace_item id i items),
                sum_of-cons f j items,
                counts,
                rest,
              )
              (omega int_laws)
      ]
]

find_item-replace_item :
    (k id : ℕ) (items : List CuentaItem) (item i : CuentaItem)
    → find_item id items ≡ some item
    → i.id ≡ id
    → find_item k (replace_item id i items) ≡ (if k == id then some i else find_item k items)
unfolding find_item replace_item
find_item-replace_item k id [] item i there named = absurd (ground arith)
find_item-replace_item k id (j ∷ items) item i there named = elim (Bool-cases (j.id == id)) [
  | inl same ↦ ground (arith, same)
  | inr other ↦
      let rest = find_item-replace_item k id items item i (ground (arith, other)) named in
      ground (arith, other, rest)
]

find_item_id :
    (id : ℕ) (items : List CuentaItem) {item : CuentaItem}
    → find_item id items ≡ some item
    → item.id ≡ id
unfolding find_item
find_item_id id [] there = absurd (ground arith)
find_item_id id (j ∷ items) {item} there = elim (Bool-cases (j.id == id)) [
  | inl same ↦ ground (arith, same)
  | inr other ↦ find_item_id id items {item = item} (ground (arith, other))
]

-- Cancelling a line of an account whose lines are priced succeeds only on a line that is not
-- cancelled. The line is then cancelled in its place, with the reason and who cancelled it, and every
-- other line is as it was; the sum of the lines that are not cancelled goes down by the total of the
-- line; and the totals of the account are the sums over those lines, the total being the subtotal less
-- the discounts plus the taxes and the tips. Its lines are priced again.
pub cancel_item-IsBalanced :
    (validate_pin : Validator) (input : CancelItemInput) (now k : ℕ) (db : DiningDb) {c : Cuenta}
    {r : Cuenta × CuentaItem × Bool}
    → get_cuenta input.cuenta_id db ≡ some c
    → AllPriced c.items
    → (cancel_item validate_pin input now db).0 ≡ ok r
    → (item : CuentaItem) × (find_item input.item_id c.items ≡ some item)
      × (is_cancelado item.status ≡ false)
      × (r.1.status ≡ cancelado)
      × (r.1.cancellation_reason ≡ some input.reason)
      × (r.1.cancelled_by_user_id ≡ some input.operator_user_id)
      × (find_item k r.0.items ≡ (if k == input.item_id then some r.1 else find_item k c.items))
      × (sum_of (λ i. i.total) r.0.items ≡ sum_of (λ i. i.total) c.items -ℤ item.total)
      × AllPriced r.0.items
      × IsBalanced r.0
unfolding SavedWith Finished
cancel_item-IsBalanced validate_pin input now k db {c} {r} found priced done =
    let (item, there, live, (e, saved)) = cancel_item_saved validate_pin input now db found done in
    let priced_item =
      cancelled_item-IsPriced item input r.2 now r.1 e
        (find_item-IsPriced input.item_id c.items item priced there) in
    let (items, again, balanced) =
      with_items_saved c (replace_item input.item_id r.1 c.items) now r.0 saved
        (replace_item-AllPriced input.item_id c.items r.1 priced priced_item) in
    let (same, status, reason, who, total) = cancelled_item_fields item input r.2 now r.1 e in
    let named = same ∙ find_item_id input.item_id c.items there in
    (
      item,
      there,
      live,
      status,
      reason,
      who,
      ap (find_item k) items ∙ find_item-replace_item k input.item_id c.items item r.1 there named,
      ap (sum_of (λ i. i.total)) items
          ∙ sum_of-replace_item (λ i. i.total) input.item_id c.items item r.1 there live
              (ap is_cancelado status),
      again,
      balanced,
    )
