-- ===== src/Store/Prune.antt =====
-- `StateStore.prune` of src/feishu_dify_gateway/store.py.
use feishu_dify_gateway.Base.{ℕ, ◌+◌, ◌-◌, ◌&&◌, ltb}
use feishu_dify_gateway.Table.{delete_where, count_where}
use feishu_dify_gateway.Store.Rows.{
  EventRow, DeliveryLedgerEntry, AdministrativeCommunicationLedgerEntry, StateStore,
  is_prunable_delivery, is_prunable_communication,
}

-- The cutoff `now - retention_seconds` may be negative in Python, and then no row is older; here it
-- stops at 0, and again no row is older.
unfoldable pub prune : StateStore → (retention_seconds now : ℕ) → ℕ × StateStore
unfolding is_prunable_delivery is_prunable_communication
prune s retention_seconds now =
    let cutoff = now - retention_seconds in
    let old_event = λ (row : EventRow). ltb row.created_at cutoff in
    let old_delivery =
      λ (row : DeliveryLedgerEntry). ltb row.updated_at cutoff && is_prunable_delivery row.status in
    let old_communication = λ (row : AdministrativeCommunicationLedgerEntry).
      ltb row.updated_at cutoff && is_prunable_communication row.status in
    (
      count_where old_event s.processed_events
          + count_where old_delivery s.notification_delivery_ledger
          + count_where old_communication s.administrative_communication_ledger,
      record s {
        processed_events = delete_where old_event s.processed_events;
        notification_delivery_ledger = delete_where old_delivery s.notification_delivery_ledger;
        administrative_communication_ledger =
            delete_where old_communication s.administrative_communication_ledger;
      },
    )
