-- ===== src/Store/Preservation.antt =====
-- Every operation of src/feishu_dify_gateway/store.py that writes keeps the store well-formed.
mod Deliveries
mod Communications
use feishu_dify_gateway.Base.{ℕ, refl, String, Option, List, [], ◌∷◌}
use feishu_dify_gateway.Text.{Text}
use feishu_dify_gateway.Table.{update}
use feishu_dify_gateway.Table.Laws.{
  update-HasUniqueKeys, insert_or_ignore-HasUniqueKeys, upsert-HasUniqueKeys,
  delete_where-HasUniqueKeys, delete_where-AllRows, update-AllRows, insert_or_ignore-AllRows,
  upsert-AllRows,
}
use feishu_dify_gateway.Store.Rows.{
  EventStatus, EventRow, DeliveryLedgerEntry, AdministrativeCommunicationLedgerEntry,
  ConversationRow, StateStore,
}
use feishu_dify_gateway.Store.Coherence.{
  IsCoherent, IsCoherentCommunication, IsDeliveryTable, IsCommunicationTable, IsWellFormed,
}
use feishu_dify_gateway.Store.ProcessedEvents.{claim_event, mark_processed, release_event}
use feishu_dify_gateway.Store.DeliveryLedger.{
  begin_delivery, mark_delivery_confirmed, mark_delivery_retrying, mark_delivery_permanent_failed,
  prepare_synthetic_delivery,
}
use feishu_dify_gateway.Store.CommunicationLedger.{
  begin_administrative_communication, mark_administrative_communication_transport_accepted,
  mark_administrative_communication_unknown, mark_administrative_communication_failed,
}
use feishu_dify_gateway.Store.Conversations.{set_conversation, clear_conversation}
use feishu_dify_gateway.Store.Prune.{prune}
use feishu_dify_gateway.Store.Preservation.Deliveries.{
  begin-IsWellFormed, confirm-IsWellFormed, retry-IsWellFormed, fail-IsWellFormed,
  prepare-IsWellFormed,
}
use feishu_dify_gateway.Store.Preservation.Communications.{
  begin_communication-IsWellFormed, accept_communication-IsWellFormed,
  unknown_communication-IsWellFormed, fail_communication-IsWellFormed,
}

-- The operations that write, with their arguments and the time at which they run.
pub data Write : Type 0 where
  claim release confirm clear : Text → ℕ → Write
  mark : Text → EventStatus → ℕ → Write
  begin fail prepare : Text → String → ℕ → Write
  retry : Text → String → ℕ → ℕ → Write
  begin_communication : Text → Text → Text → ℕ → Write
  accept_communication : Text → Option Text → ℕ → Write
  unknown_communication fail_communication : Text → String → ℕ → Write
  converse : Text → Text → ℕ → Write
  expire : ℕ → ℕ → Write

unfoldable pub apply : Write → StateStore → StateStore
apply (Write.claim k now) s = (claim_event s k now).1
apply (Write.release k now) s = release_event s k
apply (Write.confirm k now) s = mark_delivery_confirmed s k now
apply (Write.clear k now) s = clear_conversation s k
apply (Write.mark k status now) s = mark_processed s k status now
apply (Write.begin k source now) s = begin_delivery s k source now
apply (Write.fail k code now) s = mark_delivery_permanent_failed s k code now
apply (Write.prepare k source now) s = (prepare_synthetic_delivery s k source now).1
apply (Write.retry k code next now) s = mark_delivery_retrying s k code next now
apply (Write.begin_communication k body recipient now) s =
    (begin_administrative_communication s k body recipient now).1
apply (Write.accept_communication k ref now) s =
    mark_administrative_communication_transport_accepted s k ref now
apply (Write.unknown_communication k code now) s =
    mark_administrative_communication_unknown s k code now
apply (Write.fail_communication k code now) s =
    mark_administrative_communication_failed s k code now
apply (Write.converse k c now) s = set_conversation s k c now
apply (Write.expire retention now) s = (prune s retention now).1

module _ (s : StateStore) (h : IsWellFormed s) where
  claim-IsWellFormed : (k : Text) (now : ℕ) → IsWellFormed (claim_event s k now).1
  unfolding claim_event
  claim-IsWellFormed k now = record {
    events = insert_or_ignore-HasUniqueKeys EventRow.event_id _ s.processed_events h.events;
    conversations = h.conversations;
    deliveries = h.deliveries;
    communications = h.communications;
  }

  mark-IsWellFormed :
      (k : Text) (status : EventStatus) (now : ℕ) → IsWellFormed (mark_processed s k status now)
  unfolding mark_processed
  mark-IsWellFormed k status now = record {
    events = upsert-HasUniqueKeys EventRow.event_id _ _ s.processed_events (λ e. refl) h.events;
    conversations = h.conversations;
    deliveries = h.deliveries;
    communications = h.communications;
  }

  release-IsWellFormed : (k : Text) → IsWellFormed (release_event s k)
  unfolding release_event
  release-IsWellFormed k = record {
    events = delete_where-HasUniqueKeys EventRow.event_id _ s.processed_events h.events;
    conversations = h.conversations;
    deliveries = h.deliveries;
    communications = h.communications;
  }

  converse-IsWellFormed : (k c : Text) (now : ℕ) → IsWellFormed (set_conversation s k c now)
  unfolding set_conversation
  converse-IsWellFormed k c now = record {
    events = h.events;
    conversations =
        upsert-HasUniqueKeys ConversationRow.user_hash _ _ s.conversations (λ e. refl)
          h.conversations;
    deliveries = h.deliveries;
    communications = h.communications;
  }

  clear-IsWellFormed : (k : Text) → IsWellFormed (clear_conversation s k)
  unfolding clear_conversation
  clear-IsWellFormed k = record {
    events = h.events;
    conversations =
        delete_where-HasUniqueKeys ConversationRow.user_hash _ s.conversations h.conversations;
    deliveries = h.deliveries;
    communications = h.communications;
  }

  expire-IsWellFormed : (retention now : ℕ) → IsWellFormed (prune s retention now).1
  unfolding prune
  expire-IsWellFormed retention now = record {
    events = delete_where-HasUniqueKeys EventRow.event_id _ s.processed_events h.events;
    conversations = h.conversations;
    deliveries = (
      delete_where-HasUniqueKeys DeliveryLedgerEntry.event_id _ s.notification_delivery_ledger
          h.deliveries.0,
      delete_where-AllRows IsCoherent _ s.notification_delivery_ledger h.deliveries.1,
    );
    communications = (
      delete_where-HasUniqueKeys AdministrativeCommunicationLedgerEntry.event_id _
          s.administrative_communication_ledger h.communications.0,
      delete_where-AllRows IsCoherentCommunication _ s.administrative_communication_ledger
          h.communications.1,
    );
  }

-- Every write of the store keeps it well-formed: the primary keys stay unique, and the flags,
-- timestamps, counters and status of each ledger row go on agreeing.
pub apply-IsWellFormed : (w : Write) (s : StateStore) → IsWellFormed s → IsWellFormed (apply w s)
unfolding apply
apply-IsWellFormed (Write.claim k now) s h = claim-IsWellFormed s h k now
apply-IsWellFormed (Write.release k now) s h = release-IsWellFormed s h k
apply-IsWellFormed (Write.confirm k now) s h = confirm-IsWellFormed s h k now
apply-IsWellFormed (Write.clear k now) s h = clear-IsWellFormed s h k
apply-IsWellFormed (Write.mark k status now) s h = mark-IsWellFormed s h k status now
apply-IsWellFormed (Write.begin k source now) s h = begin-IsWellFormed s h k source now
apply-IsWellFormed (Write.fail k code now) s h = fail-IsWellFormed s h k code now
apply-IsWellFormed (Write.prepare k source now) s h = prepare-IsWellFormed s h k source now
apply-IsWellFormed (Write.retry k code next now) s h = retry-IsWellFormed s h k code next now
apply-IsWellFormed (Write.begin_communication k body recipient now) s h =
    begin_communication-IsWellFormed s h k body recipient now
apply-IsWellFormed (Write.accept_communication k ref now) s h =
    accept_communication-IsWellFormed s h k ref now
apply-IsWellFormed (Write.unknown_communication k code now) s h =
    unknown_communication-IsWellFormed s h k code now
apply-IsWellFormed (Write.fail_communication k code now) s h =
    fail_communication-IsWellFormed s h k code now
apply-IsWellFormed (Write.converse k c now) s h = converse-IsWellFormed s h k c now
apply-IsWellFormed (Write.expire retention now) s h = expire-IsWellFormed s h retention now

unfoldable pub run : List Write → StateStore → StateStore
run [] s = s
run (w ∷ ws) s = run ws (apply w s)

-- From a well-formed store every sequence of writes leads to a well-formed store.
pub run-IsWellFormed : (ws : List Write) (s : StateStore) → IsWellFormed s → IsWellFormed (run ws s)
unfolding run
run-IsWellFormed [] s h = h
run-IsWellFormed (w ∷ ws) s h = run-IsWellFormed ws (apply w s) (apply-IsWellFormed w s h)
