-- ===== src/Store/Preservation/Communications.antt =====
-- The writes of the communication ledger (src/feishu_dify_gateway/store.py) keep the store
-- well-formed.
use feishu_dify_gateway.Base.{ℕ, ◌≡◌, refl, String, Option, List, arith}
use feishu_dify_gateway.Text.{Text}
use feishu_dify_gateway.Table.{update}
use feishu_dify_gateway.Table.Laws.{
  update-HasUniqueKeys, insert_or_ignore-HasUniqueKeys, update-AllRows, insert_or_ignore-AllRows,
}
use feishu_dify_gateway.Store.Rows.{AdministrativeCommunicationLedgerEntry, StateStore}
use feishu_dify_gateway.Store.Coherence.{
  IsCoherentCommunication, IsCommunicationTable, IsWellFormed,
}
use feishu_dify_gateway.Store.CommunicationLedger.{
  begin_administrative_communication, mark_administrative_communication_transport_accepted,
  mark_administrative_communication_unknown, mark_administrative_communication_failed,
}

update-IsCommunicationTable :
    (k : Text) (f : AdministrativeCommunicationLedgerEntry → AdministrativeCommunicationLedgerEntry)
    (t : List AdministrativeCommunicationLedgerEntry)
    → ((e : AdministrativeCommunicationLedgerEntry) → (f e).event_id ≡ e.event_id)
    → ((e : AdministrativeCommunicationLedgerEntry)
        → IsCoherentCommunication e
        → IsCoherentCommunication (f e))
    → IsCommunicationTable t
    → IsCommunicationTable (update AdministrativeCommunicationLedgerEntry.event_id k f t)
update-IsCommunicationTable k f t keeps coherent h = (
  update-HasUniqueKeys AdministrativeCommunicationLedgerEntry.event_id k f t keeps h.0,
  update-AllRows AdministrativeCommunicationLedgerEntry.event_id IsCoherentCommunication k f t
      coherent h.1,
)

module _ (s : StateStore) (h : IsWellFormed s) where
  pub begin_communication-IsWellFormed :
      (k body recipient : Text) (now : ℕ)
      → IsWellFormed (begin_administrative_communication s k body recipient now).1
  unfolding begin_administrative_communication
  begin_communication-IsWellFormed k body recipient now = record {
    events = h.events;
    conversations = h.conversations;
    deliveries = h.deliveries;
    communications = (
      insert_or_ignore-HasUniqueKeys AdministrativeCommunicationLedgerEntry.event_id _
          s.administrative_communication_ledger h.communications.0,
      insert_or_ignore-AllRows AdministrativeCommunicationLedgerEntry.event_id
          IsCoherentCommunication _ s.administrative_communication_ledger (ground arith)
          h.communications.1,
    );
  }

  pub accept_communication-IsWellFormed :
      (k : Text) (ref : Option Text) (now : ℕ)
      → IsWellFormed (mark_administrative_communication_transport_accepted s k ref now)
  unfolding mark_administrative_communication_transport_accepted
  accept_communication-IsWellFormed k ref now = record {
    events = h.events;
    conversations = h.conversations;
    deliveries = h.deliveries;
    communications =
        update-IsCommunicationTable k _ s.administrative_communication_ledger (λ e. refl)
          (λ e c. ground arith) h.communications;
  }

  pub unknown_communication-IsWellFormed :
      (k : Text) (code : String) (now : ℕ)
      → IsWellFormed (mark_administrative_communication_unknown s k code now)
  unfolding mark_administrative_communication_unknown
  unknown_communication-IsWellFormed k code now = record {
    events = h.events;
    conversations = h.conversations;
    deliveries = h.deliveries;
    communications =
        update-IsCommunicationTable k _ s.administrative_communication_ledger (λ e. refl)
          (λ e c. ground arith) h.communications;
  }

  pub fail_communication-IsWellFormed :
      (k : Text) (code : String) (now : ℕ)
      → IsWellFormed (mark_administrative_communication_failed s k code now)
  unfolding mark_administrative_communication_failed
  fail_communication-IsWellFormed k code now = record {
    events = h.events;
    conversations = h.conversations;
    deliveries = h.deliveries;
    communications =
        update-IsCommunicationTable k _ s.administrative_communication_ledger (λ e. refl)
          (λ e c. ground arith) h.communications;
  }
