-- ===== src/Crm/Loyalty/Ledger/History.antt =====
-- Whole histories of a loyalty account, by packages/crm/src/loyalty-engine.ts.
use tridentpos.Prelude.{
  ℕ, ℤ, pos, ◌+ℤ◌, neg, +ℤ_assoc, +ℤ-pos_zero, ltb_ℤ, ◌≡◌, refl, ap, sym, subst, ◌∙◌, arith,
  int_laws, false, List, [], ◌∷◌, ◌⊎◌, Text, inl, inr,
}
use tridentpos.Prelude.Fallible.{ok, err}
use tridentpos.Crm.{LoyaltyAccount, LoyaltyTransaction}
use tridentpos.Crm.Numerics.{from_scale4_big_int, to_scale4_big_int}
use tridentpos.Crm.Numerics.RoundTrip.{to_scale4_big_int-from_scale4_big_int}
use tridentpos.Crm.Loyalty.{create_compensating_reversal}
use tridentpos.Crm.Loyalty.Ledger.Commands.{run_loyalty_done}
use tridentpos.Crm.Loyalty.Ledger.{Holds, Tells, Done, LoyaltyCommand, run_loyalty, tier_of}
use tridentpos.Crm.Loyalty.Ledger.Reversal.{create_compensating_reversal_ok, reversal_done}

-- The number that a text is read as.
unfoldable pub value_of : Text → ℤ
value_of s = elim (to_scale4_big_int s) [ ok z ↦ z | err e ↦ pos 0 ]

unfoldable pub points_sum : List LoyaltyTransaction → ℤ
points_sum [] = pos 0
points_sum (t ∷ ts) = points_sum ts +ℤ value_of t.points_delta

unfoldable pub wallet_sum : List LoyaltyTransaction → ℤ
wallet_sum [] = pos 0
wallet_sum (t ∷ ts) = wallet_sum ts +ℤ value_of t.wallet_delta

abbrev pub Within : LoyaltyTransaction → List LoyaltyTransaction → Type 0
Within o [] = ⊥
Within o (t ∷ ts) = (o ≡ t) ⊎ Within o ts

-- What can become of an account, with its ledger, the latest entry first: commands, and reversals of
-- entries of the ledger, those of reversals included.
pub data History (start : LoyaltyAccount) : LoyaltyAccount → List LoyaltyTransaction → Type 0 where
  opened : History start start []
  made :
      {a a' : LoyaltyAccount} {t : LoyaltyTransaction} {ts : List LoyaltyTransaction}
      (k : LoyaltyCommand) (id now : ℕ)
      → History start a ts
      → run_loyalty k id now a ≡ ok (a', t)
      → History start a' (t ∷ ts)
  undone :
      {a a' : LoyaltyAccount} {t : LoyaltyTransaction} {ts : List LoyaltyTransaction}
      (o : LoyaltyTransaction) (id now : ℕ)
      → History start a ts
      → Within o ts
      → create_compensating_reversal a o id now ≡ ok (a', t)
      → History start a' (t ∷ ts)

abbrev AllTold : List LoyaltyTransaction → Type 0
AllTold [] = Unit
AllTold (t ∷ ts) = ((p : ℤ) × (w : ℤ) × Tells t p w) × AllTold ts

told_of :
    (o : LoyaltyTransaction) (ts : List LoyaltyTransaction)
    → AllTold ts
    → Within o ts
    → (p : ℤ) × (w : ℤ) × Tells o p w
told_of o [] h i = absurd i
told_of o (t ∷ ts) h (inl e) = subst (λ u. (p : ℤ) × (w : ℤ) × Tells u p w) (sym e) h.0
told_of o (t ∷ ts) h (inr i) = told_of o ts h.1 i

value_of_written : (z : ℤ) → value_of (from_scale4_big_int z) ≡ z
unfolding value_of
value_of_written z = rw (to_scale4_big_int-from_scale4_big_int z, value_of) refl

-- An entry on top of the ledger.
entered :
    (p w : ℤ) (a : LoyaltyAccount) (t : LoyaltyTransaction) (ts : List LoyaltyTransaction)
    → Done (p +ℤ points_sum ts) (w +ℤ wallet_sum ts) a t
    → Holds a (p +ℤ points_sum (t ∷ ts)) (w +ℤ wallet_sum (t ∷ ts))
unfolding points_sum wallet_sum
entered p w a t ts d =
    let points : value_of t.points_delta ≡ d.dp =
      ap value_of d.told.points ∙ value_of_written d.dp in
    let wallet : value_of t.wallet_delta ≡ d.dw =
      ap value_of d.told.wallet ∙ value_of_written d.dw in
    rw
      (points, wallet, sym (+ℤ_assoc p (points_sum ts) d.dp), sym (+ℤ_assoc w (wallet_sum ts) d.dw))
      d.held

balances_of_ledger :
    (start : LoyaltyAccount) (p w : ℤ) {a : LoyaltyAccount} {ts : List LoyaltyTransaction}
    → Holds start p w
    → History start a ts
    → Holds a (p +ℤ points_sum ts) (w +ℤ wallet_sum ts) × AllTold ts
unfolding points_sum wallet_sum
balances_of_ledger start p w h opened = (rw (+ℤ-pos_zero p, +ℤ-pos_zero w) h, tt)
balances_of_ledger start p w h (made {a} {a'} {t} {ts} k id now before done) =
    let (held, told) = balances_of_ledger start p w h before in
    let d = run_loyalty_done k id now a (p +ℤ points_sum ts) (w +ℤ wallet_sum ts) held done in
    (entered p w a' t ts d, ((d.dp, d.dw, d.told), told))
balances_of_ledger start p w h (undone {a} {a'} {t} {ts} o id now before within done) =
    let (held, told) = balances_of_ledger start p w h before in
    let (dp, dw, tells) = told_of o ts told within in
    let d =
      reversal_done a o (p +ℤ points_sum ts) (w +ℤ wallet_sum ts) dp dw held tells id now done in
    (entered p w a' t ts d, ((d.dp, d.dw, d.told), told))

-- After any history of accruals, redemptions, top-ups, payments and reversals, both balances of an
-- account are those that it began with and the sums of the changes in its ledger; they are never
-- negative, and the tier is that of the points.
pub Holds-History :
    (start : LoyaltyAccount) (p w : ℤ) {a : LoyaltyAccount} {ts : List LoyaltyTransaction}
    → Holds start p w
    → History start a ts
    → Holds a (p +ℤ points_sum ts) (w +ℤ wallet_sum ts)
Holds-History start p w h history = (balances_of_ledger start p w h history).0

-- A reversal of the entry that a command has just made succeeds and gives both balances and the tier
-- back as they were before the command.
pub create_compensating_reversal-run_loyalty :
    (k : LoyaltyCommand) (id now : ℕ) (a : LoyaltyAccount) (p w : ℤ) (id' later : ℕ)
    {a' : LoyaltyAccount} {t : LoyaltyTransaction}
    → Holds a p w
    → run_loyalty k id now a ≡ ok (a', t)
    → (b : LoyaltyAccount) × (u : LoyaltyTransaction) × (create_compensating_reversal a' t id' later
        ≡ ok (b, u))
      × (b.points_balance ≡ a.points_balance)
      × (b.wallet_balance ≡ a.wallet_balance)
      × (b.tier ≡ a.tier)
create_compensating_reversal-run_loyalty k id now a p w id' later {a'} {t} h done =
    let d = run_loyalty_done k id now a p w h done in
    let points : p +ℤ d.dp +ℤ neg d.dp ≡ p = omega int_laws in
    let wallet : w +ℤ d.dw +ℤ neg d.dw ≡ w = omega int_laws in
    let enough_points : ltb_ℤ (p +ℤ d.dp +ℤ neg d.dp) (pos 0) ≡ false =
      rw points (grind (arith, h.enough_points)) in
    let enough_wallet : ltb_ℤ (w +ℤ d.dw +ℤ neg d.dw) (pos 0) ≡ false =
      rw wallet (grind (arith, h.enough_wallet)) in
    (
      _,
      _,
      create_compensating_reversal_ok a' t (p +ℤ d.dp) (w +ℤ d.dw) d.dp d.dw d.held d.told id' later
          d.active enough_points enough_wallet,
      ap from_scale4_big_int points ∙ sym h.points,
      ap from_scale4_big_int wallet ∙ sym h.wallet,
      ap tier_of points ∙ sym h.tier,
    )
