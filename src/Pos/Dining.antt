-- ===== src/Pos/Dining.antt =====
-- `DiningDomainService` of packages/pos/src/dining-service.ts over the SQLite repository: what its
-- methods share. The repository has the synchronous methods, so the guards `SYNC_UNSUPPORTED` pass.
-- An operation is given the instant `now`. Each asynchronous method but `createMesa` calls the
-- synchronous one, and `createMesa` too where that one is there.
pub mod Mesas
pub mod Lines
pub mod Closing
pub mod Transfer
pub mod Commands
pub mod Session
pub mod Proofs
mod Tests
use tridentpos.Prelude.{
  ℕ, ◌+◌, ◌==◌, Bool, true, false, Option, none, some, not, if◌then◌else◌, Text, [], ◌∷◌,
}
use tridentpos.Pos.Types.{Mesa, Cuenta, disponible}
use tridentpos.Pos.Errors.{
  PosError, pure, gets, or_raise, raise_if, ◌>>=◌, ◌>>◌, cuenta_not_found, mesa_not_found,
  occ_conflict,
}
use tridentpos.Pos.Repository.{Dining, DiningDb, get_cuenta, get_mesa, save_mesa}

-- `Promise<boolean> | boolean`, what `IamPinValidatorPort.validatePin` may return. Its effects on the
-- validator's own state are not seen here.
pub data PinAnswer : Type 0 where
  now_known : Bool → PinAnswer
  promise : Bool → PinAnswer

abbrev pub Validator : Type 0
Validator = ℕ → Text → PinAnswer

-- The methods test the answer without `await`: a promise is an object, which counts as true.
abbrev pub truthy : PinAnswer → Bool
truthy (now_known b) = b
truthy (promise b) = true

-- The user ids that the code spells out, `supervisor`, `manager` and `gerente`.
abbrev pub supervisor_user : ℕ
supervisor_user = 1

abbrev pub manager_user : ℕ
manager_user = 2

abbrev pub gerente_user : ℕ
gerente_user = 3

-- An optional identifier that is given and not the empty string.
abbrev pub given_id : Option ℕ → Option ℕ
given_id none = none
given_id (some id) = if id == 0 then none else some id

-- An optional text that is given and not empty.
abbrev pub given_text : Option Text → Option Text
given_text none = none
given_text (some []) = none
given_text (some (c ∷ s)) = some (c ∷ s)

unfoldable pub require_cuenta : ℕ → Dining Cuenta
require_cuenta id = do or_raise (← gets (get_cuenta id)) cuenta_not_found

unfoldable pub require_mesa : ℕ → PosError → Dining Mesa
require_mesa id e = do or_raise (← gets (get_mesa id)) e

-- `if (cuenta.version !== expectedVersion) throw new OCCConflictError(…)`
unfoldable pub check_version : Cuenta → ℕ → ℕ → Dining (Unit {0})
check_version cuenta id expected =
    raise_if (not (cuenta.version == expected)) (occ_conflict id expected cuenta.version)

abbrev pub freed_mesa : Mesa → ℕ → Mesa
freed_mesa mesa now = record mesa {
  status = disponible;
  current_account_id = none;
  version = mesa.version + 1;
  updated_at = now;
}

-- Saves the mesa, as the optional second part of a result.
abbrev pub save_some : Mesa → ℕ → Dining (Option Mesa)
save_some mesa expected = do m ← save_mesa mesa expected; pure (some m)

abbrev pub holds_account : Mesa → ℕ → Bool
holds_account mesa id = elim mesa.current_account_id [ none ↦ false | some a ↦ a == id ]

free_found : ℕ → ℕ → Option Mesa → Dining (Option Mesa)
free_found account now none = pure none
free_found account now (some mesa) =
    if holds_account mesa account then save_some (freed_mesa mesa now) mesa.version else pure none

free_mesa_of : ℕ → ℕ → Option ℕ → Dining (Option Mesa)
unfolding free_found
free_mesa_of account now none = pure none
free_mesa_of account now (some mesa_id) = do free_found account now (← gets (get_mesa mesa_id))

-- The end of `closeCuentaSync` and of `cancelCuentaSync`: the table of the account, if it still holds
-- the account, becomes available.
unfoldable pub free_table : Cuenta → ℕ → ℕ → Dining (Option Mesa)
unfolding free_mesa_of
free_table saved account now = free_mesa_of account now (given_id saved.mesa_id)
