-- ===== src/Crm/Loyalty/Ledger.antt =====
-- The balances of a loyalty account against its ledger, by packages/crm/src/loyalty-engine.ts.
pub mod Commands
pub mod Reversal
pub mod History
use tridentpos.Prelude.{
  ℕ, zero, suc, ℤ, pos, negsuc, ◌+ℤ◌, +ℤ-pos_zero, ◌-ℤ◌, neg, ◌≤ℤ◌, ◌<ℤ◌, ltb_ℤ, leb_ℤ, eq_ℤ,
  eq_ℤ→eq, ◌≡◌, refl, ap, sym, subst, ◌∙◌, arith, int_laws, Bool, true, false, not, Option, List,
  [], ◌∷◌, ◌++◌, Text, codes, if◌then◌else◌, Bool-cases, inl, inr,
}
use tridentpos.Prelude.Fallible.{Fallible, ok, err, ◌>>=◌, raise_if, >>=-eq-ok, Fallible-cases}
use tridentpos.Money.Decimal.{scaled_to_decimal_string, number_to_string, pad_start, to_digits}
use tridentpos.Crm.{
  Crm, insufficient_rest_card_balance, insufficient_loyalty_points, negative_points_balance,
  negative_wallet_balance, loyalty_account_inactive, LoyaltyTier, bronze, silver, gold, platinum,
  LoyaltyAccount, LoyaltyTransaction,
}
use tridentpos.Crm.Numerics.{
  from_scale4_big_int, to_scale4_big_int, add_scale4, sub_scale4, compare_scale4,
  is_positive_scale4, multiply_scale4,
}
use tridentpos.Crm.Numerics.RoundTrip.{
  to_scale4_big_int-from_scale4_big_int, add_scale4-from_scale4_big_int,
  sub_scale4-from_scale4_big_int, compare_scale4-from_scale4_big_int,
  is_positive_scale4-from_scale4_big_int, text_neg,
}
use tridentpos.Crm.Loyalty.{
  zero_text, with_points, with_wallet, reaches, resolve_tier_for_points, check_operation,
  apply_points_accrual, validate_and_apply_redemption, apply_rest_card_top_up,
  apply_rest_card_payment, reversed_delta, create_compensating_reversal,
}

-- The tier of a balance in units of scale 4.
abbrev pub tier_of : ℤ → LoyaltyTier
tier_of p =
    if leb_ℤ (pos 50000000) p
    then platinum
    else if leb_ℤ (pos 20000000) p
    then gold
    else if leb_ℤ (pos 5000000) p
    then silver
    else bronze

-- The two balances of an account as numbers.
pub record Holds (a : LoyaltyAccount) (p w : ℤ) : Type 0 where
  pub points : a.points_balance ≡ from_scale4_big_int p
  pub wallet : a.wallet_balance ≡ from_scale4_big_int w
  pub enough_points : pos 0 ≤ℤ p
  pub enough_wallet : pos 0 ≤ℤ w
  pub tier : a.tier ≡ tier_of p

-- The changes of an entry as numbers.
pub record Tells (t : LoyaltyTransaction) (p w : ℤ) : Type 0 where
  pub points : t.points_delta ≡ from_scale4_big_int p
  pub wallet : t.wallet_delta ≡ from_scale4_big_int w

pub zero_text_lem : zero_text ≡ from_scale4_big_int (pos 0)
unfolding from_scale4_big_int scaled_to_decimal_string number_to_string pad_start to_digits
zero_text_lem = refl

bound_5000 : codes "5000.0000" ≡ from_scale4_big_int (pos 50000000)
unfolding from_scale4_big_int scaled_to_decimal_string number_to_string pad_start to_digits
bound_5000 = refl

bound_2000 : codes "2000.0000" ≡ from_scale4_big_int (pos 20000000)
unfolding from_scale4_big_int scaled_to_decimal_string number_to_string pad_start to_digits
bound_2000 = refl

bound_500 : codes "500.0000" ≡ from_scale4_big_int (pos 5000000)
unfolding from_scale4_big_int scaled_to_decimal_string number_to_string pad_start to_digits
bound_500 = refl

reaches_lem :
    (p b : ℤ) (bound : Text)
    → bound ≡ from_scale4_big_int b
    → reaches (from_scale4_big_int p) bound ≡ ok (leb_ℤ b p)
unfolding reaches
reaches_lem p b bound e = rw (e, compare_scale4-from_scale4_big_int p b) (ap ok (ground arith))

pub resolve_tier_lem : (p : ℤ) → resolve_tier_for_points (from_scale4_big_int p) ≡ ok (tier_of p)
unfolding resolve_tier_for_points
resolve_tier_lem p =
    rw (reaches_lem p _ _ bound_5000, reaches_lem p _ _ bound_2000, reaches_lem p _ _ bound_500)
      refl

check_operation_lem :
    (a : LoyaltyAccount) (z : ℤ) {u : Unit}
    → check_operation a (from_scale4_big_int z) ≡ ok u
    → (a.is_active ≡ true) × (ltb_ℤ (pos 0) z ≡ true)
unfolding check_operation
check_operation_lem a z h =
    let e = is_positive_scale4-from_scale4_big_int z in (ground (arith, h), ground (arith, e, h))

-- The operations that make an entry of their own, with the amount in units; they are given it as it is
-- written.
pub data LoyaltyCommand : Type 0 where
  accrue : (points : ℤ) (folio reference : ℕ) → LoyaltyCommand
  redeem_points : (points : ℤ) (rate : Text) (reference : ℕ) → LoyaltyCommand
  recharge pay : (amount : ℤ) (reference : ℕ) → LoyaltyCommand

abbrev without_discount :
    Crm (LoyaltyAccount × LoyaltyTransaction × Text) → Crm (LoyaltyAccount × LoyaltyTransaction)
without_discount (ok (a, t, discount)) = ok (a, t)
without_discount (err e) = err e

unfoldable pub run_loyalty :
    LoyaltyCommand → ℕ → ℕ → LoyaltyAccount → Crm (LoyaltyAccount × LoyaltyTransaction)
run_loyalty (accrue z folio r) id now a =
    apply_points_accrual a (from_scale4_big_int z) folio r id now
run_loyalty (redeem_points z rate r) id now a =
    without_discount (validate_and_apply_redemption a (from_scale4_big_int z) r rate id now)
run_loyalty (recharge z r) id now a = apply_rest_card_top_up a (from_scale4_big_int z) r id now
run_loyalty (pay z r) id now a = apply_rest_card_payment a (from_scale4_big_int z) r id now

-- What a command that succeeds did, in numbers.
pub record Done (p w : ℤ) (a' : LoyaltyAccount) (t : LoyaltyTransaction) : Type 0 where
  pub dp : ℤ
  pub dw : ℤ
  pub active : a'.is_active ≡ true
  pub told : Tells t dp dw
  pub held : Holds a' (p +ℤ dp) (w +ℤ dw)

pub settle :
    (p w : ℤ) {a a' : LoyaltyAccount} {t t' : LoyaltyTransaction}
    → ◌≡◌ {A = Crm (LoyaltyAccount × LoyaltyTransaction)} (ok (a, t)) (ok (a', t'))
    → Done p w a t
    → Done p w a' t'
settle p w {a} {a'} {t} {t'} made d =
    let same : a ≡ a' = cc in
    let entry : t ≡ t' = cc in subst (λ b. Done p w b t') same (subst (λ u. Done p w a u) entry d)

points_done :
    (a : LoyaltyAccount) (p w z : ℤ) (now : ℕ) (t : LoyaltyTransaction)
    → Holds a p w
    → a.is_active ≡ true
    → pos 0 ≤ℤ p +ℤ z
    → t.points_delta ≡ from_scale4_big_int z
    → t.wallet_delta ≡ zero_text
    → Done p w (with_points a (from_scale4_big_int (p +ℤ z)) (tier_of (p +ℤ z)) now) t
points_done a p w z now t h active enough points wallet = record {
  dp = z;
  dw = pos 0;
  active = active;
  told = record { points = points; wallet = wallet ∙ zero_text_lem };
  held = record {
    points = refl;
    wallet = h.wallet ∙ ap from_scale4_big_int (sym (+ℤ-pos_zero w));
    enough_points = enough;
    enough_wallet = rw (+ℤ-pos_zero w) h.enough_wallet;
    tier = refl;
  };
}

wallet_done :
    (a : LoyaltyAccount) (p w z : ℤ) (now : ℕ) (t : LoyaltyTransaction)
    → Holds a p w
    → a.is_active ≡ true
    → pos 0 ≤ℤ w +ℤ z
    → t.points_delta ≡ zero_text
    → t.wallet_delta ≡ from_scale4_big_int z
    → Done p w (with_wallet a (from_scale4_big_int (w +ℤ z)) now) t
wallet_done a p w z now t h active enough points wallet = record {
  dp = pos 0;
  dw = z;
  active = active;
  told = record { points = points ∙ zero_text_lem; wallet = wallet };
  held = record {
    points = h.points ∙ ap from_scale4_big_int (sym (+ℤ-pos_zero p));
    wallet = refl;
    enough_points = rw (+ℤ-pos_zero p) h.enough_points;
    enough_wallet = enough;
    tier = h.tier ∙ ap tier_of (sym (+ℤ-pos_zero p));
  };
}

-- A positive amount with a minus before it.
minus_text :
    (z : ℤ) → ltb_ℤ (pos 0) z ≡ true → b'-' ∷ from_scale4_big_int z ≡ from_scale4_big_int (neg z)
minus_text (pos zero) h = absurd (ground arith)
minus_text (pos (suc m)) h = sym (text_neg m) ∙ ap from_scale4_big_int (omega int_laws)
minus_text (negsuc m) h = absurd (ground arith)

less : (p z : ℤ) → p -ℤ z ≡ p +ℤ neg z
less p z = omega int_laws

-- The balance was compared with the amount and found enough.
covered :
    (p z : ℤ) (sign : ℤ)
    → compare_scale4 (from_scale4_big_int p) (from_scale4_big_int z) ≡ ok sign
    → ltb_ℤ sign (pos 0) ≡ false
    → pos 0 ≤ℤ p +ℤ neg z
covered p z sign compared enough =
    let e = compare_scale4-from_scale4_big_int p z in
    let k : ltb_ℤ p z ≡ false = ground (arith, e, compared, enough) in grind (int_laws, k)
