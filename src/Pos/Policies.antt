-- ===== src/Pos/Policies.antt =====
-- The cancellation and transfer rules of packages/pos/src/policies.ts. (The split is in Split.)
pub mod Cancellation
use tridentpos.Prelude.{
  ℕ, ◌==◌, Bool, true, false, not, ◌&&◌, ◌||◌, Option, none, some, Text, codes, text_eq, to_upper,
  is_blank, if◌then◌else◌,
}
use tridentpos.Pos.Types.{Mesa, Cuenta, is_disponible, is_active}

pub record CancellationContext : Type 0 where
  pub kitchen_status : Text
  pub has_supervisor_authorization : Bool
  pub reason : Text

pub record CancellationResult : Type 0 where
  pub allowed : Bool
  pub requires_waste_record : Bool

abbrev pub refuse_cancellation : CancellationResult
refuse_cancellation = record { allowed = false; requires_waste_record = false }

-- `isUnstarted`, of a status in upper case.
unfoldable pub is_unstarted : Text → Bool
is_unstarted status =
    text_eq status (codes "SIN_INICIAR")
    || text_eq status (codes "PENDIENTE")
    || text_eq status (codes "RECIBIDO")
    || text_eq status (codes "ORDENADO")

-- `isInProgressOrDelivered`
unfoldable pub is_in_progress_or_delivered : Text → Bool
is_in_progress_or_delivered status =
    text_eq status (codes "EN_PREPARACION")
    || text_eq status (codes "EN_COCINA")
    || text_eq status (codes "PREPARADO")
    || text_eq status (codes "LISTO")
    || text_eq status (codes "ENTREGADO")

-- `KdsStateBasedCancellationPolicy.canCancelItem`; it does not look at the item.
unfoldable pub can_cancel_item : CancellationContext → CancellationResult
can_cancel_item context =
    let status = to_upper context.kitchen_status in
    if is_blank context.reason
    then refuse_cancellation
    else if is_unstarted status
    then record { allowed = true; requires_waste_record = false }
    else if is_in_progress_or_delivered status
    then if not context.has_supervisor_authorization
      then refuse_cancellation
      else record { allowed = true; requires_waste_record = true }
    else if not context.has_supervisor_authorization
    then refuse_cancellation
    else record { allowed = true; requires_waste_record = true }

abbrev pub same_id : Option ℕ → Option ℕ → Bool
same_id none none = true
same_id (some a) (some b) = a == b
same_id _ _ = false

pub record TransferValidationContext : Type 0 where
  pub target_waiter_user_id : Option ℕ
  pub target_waiter_pin_provided : Bool

-- `ReceivingWaiterPinTransferValidationRule.validateTransfer`: whether the transfer is allowed.
unfoldable pub validate_transfer : Mesa → Mesa → Cuenta → TransferValidationContext → Bool
validate_transfer source_mesa target_mesa cuenta context =
    if not (is_active cuenta.status)
    then false
    else if source_mesa.id == target_mesa.id
        && same_id context.target_waiter_user_id cuenta.current_waiter_user_id
    then false
    else if not (source_mesa.id == target_mesa.id) && not (is_disponible target_mesa.status)
    then false
    else if not context.target_waiter_pin_provided
    then false
    else true
