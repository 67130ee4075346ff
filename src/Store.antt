-- ===== src/Store.antt =====
-- src/feishu_dify_gateway/store.py: the SQLite state of the gateway, table by table. Every
-- statement runs under the store's lock, so each operation is one step. `now` is the value of
-- `int(time.time())`, or the argument of that name. A status column is the type of the literals
-- that the code writes into it. A timestamp is a natural number, since the clock is past 1970.
-- Not modelled: opening and closing the database file, and errors of SQLite.
mod Rows
mod ProcessedEvents
mod DeliveryLedger
mod CommunicationLedger
mod Conversations
mod Prune
pub mod Claims
pub mod Coherence
pub mod Preservation
pub mod Retention
pub mod Views
pub mod CommunicationViews
pub use Rows.{
  EventStatus, EventRow, DeliveryStatus, DeliveryLedgerEntry, CommunicationStatus,
  AdministrativeCommunicationLedgerEntry, ConversationRow, StateStore,
}
unfoldable pub use ProcessedEvents.{
  event_row, is_processed, claim_event, mark_processed, release_event,
}
unfoldable pub use DeliveryLedger.{
  delivering_row, redelivering, confirmed, retrying, permanently_failed, synthetic_row,
  begin_delivery, mark_delivery_confirmed, mark_delivery_retrying, mark_delivery_permanent_failed,
  delivery_for, prepare_synthetic_delivery,
}
unfoldable pub use CommunicationLedger.{
  communication_row, ended_as, accepted as communication_accepted,
  begin_administrative_communication, administrative_communication_for,
  mark_administrative_communication_transport_accepted, mark_administrative_communication_unknown,
  mark_administrative_communication_failed,
}
unfoldable pub use Conversations.{conversation_for, set_conversation, clear_conversation}
unfoldable pub use Prune.{prune}
