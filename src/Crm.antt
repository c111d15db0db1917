-- ===== src/Crm.antt =====
-- Loyalty accounts: packages/crm/src/types.ts and errors.ts. An amount is a text at scale 4.
pub mod Numerics
pub mod Loyalty
pub mod Promotions
mod Tests
use tridentpos.Prelude.{ℕ, Bool, Option, Text}
use tridentpos.Prelude.Fallible.{Fallible}

pub data LoyaltyTier : Type 0 where
  bronze silver gold platinum : LoyaltyTier

pub data LoyaltyTransactionType : Type 0 where
  earn redeem top_up expire reversal : LoyaltyTransactionType

pub record LoyaltyAccount : Type 0 where
  pub id : ℕ
  pub organization_id : ℕ
  pub customer_id : ℕ
  pub card_number : ℕ
  pub points_balance : Text
  pub wallet_balance : Text
  pub tier : LoyaltyTier
  pub is_active : Bool
  pub created_at : ℕ
  pub updated_at : ℕ

-- The notes are left out.
pub record LoyaltyTransaction : Type 0 where
  pub id : ℕ
  pub organization_id : ℕ
  pub loyalty_account_id : ℕ
  pub transaction_type : LoyaltyTransactionType
  pub points_delta : Text
  pub wallet_delta : Text
  pub reference_account_id : ℕ
  pub reference_ticket_folio : Option ℕ
  pub reversal_of_transaction_id : Option ℕ
  pub created_at : ℕ

-- The errors that are thrown, those of the class `Error` by what they say.
pub data CrmError : Type 0 where
  loyalty_account_inactive insufficient_loyalty_points insufficient_rest_card_balance : CrmError
  not_positive negative_points_balance negative_wallet_balance : CrmError
  division_by_zero syntax_error : CrmError

abbrev pub Crm : Type 0 → Type 0
Crm = Fallible CrmError
