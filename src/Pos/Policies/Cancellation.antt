-- ===== src/Pos/Policies/Cancellation.antt =====
-- When a line may be cancelled, by `KdsStateBasedCancellationPolicy` of packages/pos/src/policies.ts.
use tridentpos.Prelude.{◌≡◌, arith, not, ◌&&◌, ◌||◌, is_blank, to_upper}
use tridentpos.Pos.Policies.{CancellationContext, can_cancel_item, is_unstarted}

-- A line may be cancelled when a reason is given and either the kitchen has not started it or a
-- supervisor authorises it, and then it is recorded as waste when the kitchen has started it or its
-- state is not known.
can_cancel_item_allowed :
    (context : CancellationContext)
    → let result = can_cancel_item context in
      let unstarted = is_unstarted (to_upper context.kitchen_status) in
      (result.allowed
        ≡ (not (is_blank context.reason) && (unstarted || context.has_supervisor_authorization)))
      × (result.requires_waste_record ≡ (result.allowed && not unstarted))
unfolding can_cancel_item
can_cancel_item_allowed context = ground arith
