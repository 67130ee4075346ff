-- ===== src/Store/Coherence.antt =====
-- The well-formedness of src/feishu_dify_gateway/store.py: primary keys are unique, and the columns
-- of a ledger row agree with one another.
use feishu_dify_gateway.Base.{◌≡◌, Bool, true, false, not, List, is_some, is_none, ◌==◌}
use feishu_dify_gateway.Table.Laws.{HasUniqueKeys, AllRows}
use feishu_dify_gateway.Store.Rows.{
  EventRow, DeliveryStatus, DeliveryLedgerEntry, CommunicationStatus,
  AdministrativeCommunicationLedgerEntry, ConversationRow, StateStore,
}

abbrev pub is_terminal : DeliveryStatus → Bool
is_terminal DeliveryStatus.delivery_confirmed = true
is_terminal DeliveryStatus.permanent_failed = true
is_terminal _ = false

abbrev pub is_retrying : DeliveryStatus → Bool
is_retrying DeliveryStatus.retrying = true
is_retrying _ = false

-- A row of the delivery ledger: each optional timestamp is set exactly where its flag or its
-- status says so, no attempt is counted without the transport, a confirmed status has its flag, and
-- a row that is only prepared is synthetic and was never transported.
pub record IsCoherent (e : DeliveryLedgerEntry) : Type 0 where
  pub terminal : is_some e.terminal_at ≡ is_terminal e.status
  pub retry : is_some e.next_retry_at ≡ is_retrying e.status
  pub accepted : is_some e.transport_accepted_at ≡ e.transport_accepted
  pub confirmed : is_some e.delivery_confirmed_at ≡ e.delivery_confirmed
  pub attempted : (e.attempts == 0) ≡ not e.transport_accepted
  pub confirmed_status : e.status ≡ DeliveryStatus.delivery_confirmed → e.delivery_confirmed ≡ true
  pub prepared_status :
      e.status ≡ DeliveryStatus.prepared → (e.transport_accepted ≡ false) × (e.synthetic ≡ true)

-- A row of the communication ledger: no delivery is ever confirmed, the transport flag has its
-- timestamp, and a row that is only prepared has had no attempt.
pub record IsCoherentCommunication (e : AdministrativeCommunicationLedgerEntry) : Type 0 where
  pub unconfirmed : e.delivery_confirmed ≡ false
  pub unconfirmed_at : is_none e.delivery_confirmed_at ≡ true
  pub accepted : is_some e.transport_accepted_at ≡ e.transport_accepted
  pub accepted_status :
      e.status ≡ CommunicationStatus.transport_accepted → e.transport_accepted ≡ true
  pub prepared_status : e.status ≡ CommunicationStatus.prepared → e.attempts ≡ 0
  pub never_confirmed : ¬ (e.status ≡ CommunicationStatus.delivery_confirmed)

abbrev pub IsDeliveryTable : List DeliveryLedgerEntry → Type 0
IsDeliveryTable t = HasUniqueKeys DeliveryLedgerEntry.event_id t × AllRows IsCoherent t

abbrev pub IsCommunicationTable : List AdministrativeCommunicationLedgerEntry → Type 0
IsCommunicationTable t =
    HasUniqueKeys AdministrativeCommunicationLedgerEntry.event_id t
    × AllRows IsCoherentCommunication t

pub record IsWellFormed (s : StateStore) : Type 0 where
  pub events : HasUniqueKeys EventRow.event_id s.processed_events
  pub conversations : HasUniqueKeys ConversationRow.user_hash s.conversations
  pub deliveries : IsDeliveryTable s.notification_delivery_ledger
  pub communications : IsCommunicationTable s.administrative_communication_ledger
