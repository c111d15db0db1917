-- ===== src/Pos/Errors.antt =====
-- packages/pos/src/errors.ts: the errors by their codes, without the messages, and the shape of an
-- operation: it is given the tables and returns a value or an error with the tables as they then are.
-- What was written before an exception stays written.
use tridentpos.Prelude.{ℕ, Bool, Option, none, some, if◌then◌else◌}

pub data PosError : Type 0 where
  duplicate_mesa mesa_not_found mesa_not_available : PosError
  duplicate_cuenta cuenta_not_found invalid_account_status already_cancelled : PosError
  missing_reason invalid_operator_pin invalid_supervisor_pin : PosError
  manager_pin_required invalid_manager_pin invalid_target_waiter_pin : PosError
  item_not_found item_already_cancelled cancellation_disallowed : PosError
  source_mesa_not_found target_mesa_not_found transfer_disallowed : PosError
  invalid_split_partitions duplicate_split_item incomplete_item_split : PosError
  invalid_split_ratio split_invariant_violation : PosError
  invalid_guest_count table_has_active_account table_merge_not_specified : PosError
  missing_tenant_identity duplicate_shift shift_already_open shift_not_found : PosError
  shift_locked shift_invalid_status blind_count_required unauthorized_shift_operator : PosError
  invalid_cash_movement invalid_opening_float invalid_declared_cash : PosError
  shift_not_open account_not_payable payment_validation : PosError
  -- `OCCConflictError`: the aggregate, the expected version and the version found.
  occ_conflict : ℕ → ℕ → ℕ → PosError

pub data Result {ℓ} (A : Type ℓ) : Type ℓ where
  ok : A → Result A
  err : PosError → Result A

abbrev pub Action : Type 0 → Type 0 → Type 0
Action S A = S → Result A × S

module _ {S A : Type 0} where
  abbrev pub pure : A → Action S A
  pure a s = (ok a, s)

  abbrev pub raise : PosError → Action S A
  raise e s = (err e, s)

  abbrev pub gets : (S → A) → Action S A
  gets f s = (ok (f s), s)

  -- A value that may be missing, with the error for that case.
  abbrev pub or_raise : Option A → PosError → Action S A
  or_raise none e = raise e
  or_raise (some a) e = pure a

  -- A pure computation that may fail.
  abbrev pub lift : Result A → Action S A
  lift (ok a) = pure a
  lift (err e) = raise e

infixl 5 ◌>>=◌ ◌>>◌
abbrev pub ◌>>=◌ : {S A B : Type 0} → Action S A → (A → Action S B) → Action S B
◌>>=◌ m f s = let (r, s') = m s in elim r [ ok a ↦ f a s' | err e ↦ raise e s' ]

abbrev pub ◌>>◌ : {S A B : Type 0} → Action S A → Action S B → Action S B
m >> k = m >>= λ _. k

-- `if (c) throw e;`
abbrev pub raise_if : {S : Type 0} → Bool → PosError → Action S (Unit {0})
raise_if c e s = (if c then err e else ok tt, s)
