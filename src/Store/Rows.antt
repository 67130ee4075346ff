-- ===== src/Store/Rows.antt =====
-- The tables of src/feishu_dify_gateway/store.py, their rows and the literals of their status
-- columns.
use feishu_dify_gateway.Base.{ℕ, String, Bool, true, false, Option, List}
use feishu_dify_gateway.Text.{Text}

-- processed_events.status: 'processing', then what `mark_processed` is called with.
pub data EventStatus : Type 0 where
  processing delivered permanent_failed : EventStatus

pub record EventRow : Type 0 where
  pub event_id : Text
  pub status : EventStatus
  pub created_at : ℕ

pub data DeliveryStatus : Type 0 where
  prepared delivering retrying permanent_failed delivery_confirmed : DeliveryStatus

pub record DeliveryLedgerEntry : Type 0 where
  pub event_id : Text
  pub source : String
  pub status : DeliveryStatus
  pub transport_accepted : Bool
  pub delivery_confirmed : Bool
  pub attempts : ℕ
  pub last_error_code : String
  pub created_at : ℕ
  pub updated_at : ℕ
  pub transport_accepted_at : Option ℕ
  pub delivery_confirmed_at : Option ℕ
  pub next_retry_at : Option ℕ
  pub terminal_at : Option ℕ
  pub synthetic : Bool

-- 'delivery_confirmed' is named by `prune` alone.
pub data CommunicationStatus : Type 0 where
  prepared transport_accepted delivery_confirmed outcome_unknown permanent_failed :
      CommunicationStatus

pub record AdministrativeCommunicationLedgerEntry : Type 0 where
  pub event_id : Text
  pub body_digest : Text
  pub recipient_digest : Text
  pub status : CommunicationStatus
  pub transport_accepted : Bool
  pub delivery_confirmed : Bool
  pub attempts : ℕ
  pub provider_message_ref : Option Text
  pub last_error_code : String
  pub created_at : ℕ
  pub updated_at : ℕ
  pub transport_accepted_at : Option ℕ
  pub delivery_confirmed_at : Option ℕ

pub record ConversationRow : Type 0 where
  pub user_hash : Text
  pub conversation_id : Text
  pub updated_at : ℕ

pub record StateStore : Type 0 where
  pub processed_events : List EventRow
  pub conversations : List ConversationRow
  pub notification_delivery_ledger : List DeliveryLedgerEntry
  pub administrative_communication_ledger : List AdministrativeCommunicationLedgerEntry

-- status = 'processing'
unfoldable pub is_processing : EventStatus → Bool
is_processing EventStatus.processing = true
is_processing _ = false

-- status IN ('prepared', 'delivery_confirmed', 'permanent_failed')
unfoldable pub is_prunable_delivery : DeliveryStatus → Bool
is_prunable_delivery DeliveryStatus.prepared = true
is_prunable_delivery DeliveryStatus.delivery_confirmed = true
is_prunable_delivery DeliveryStatus.permanent_failed = true
is_prunable_delivery _ = false

-- status IN ('delivery_confirmed', 'permanent_failed')
unfoldable pub is_prunable_communication : CommunicationStatus → Bool
is_prunable_communication CommunicationStatus.delivery_confirmed = true
is_prunable_communication CommunicationStatus.permanent_failed = true
is_prunable_communication _ = false
