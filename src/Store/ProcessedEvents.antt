-- ===== src/Store/ProcessedEvents.antt =====
-- The `processed_events` table of src/feishu_dify_gateway/store.py: which events are claimed, which
-- are done.
use feishu_dify_gateway.Base.{ℕ, Bool, ◌&&◌, is_some}
use feishu_dify_gateway.Text.{Text, same}
use feishu_dify_gateway.Table.{find, insert_or_ignore, upsert, delete_where}
use feishu_dify_gateway.Store.Rows.{EventStatus, EventRow, StateStore, is_processing}

-- The row that an INSERT writes.
abbrev pub event_row : Text → EventStatus → ℕ → EventRow
event_row event_id status now = record { event_id = event_id; status = status; created_at = now }

module _ (s : StateStore) (event_id : Text) where
  unfoldable pub is_processed : Bool
  is_processed = is_some (find EventRow.event_id event_id s.processed_events)

  unfoldable pub claim_event : (now : ℕ) → Bool × StateStore
  claim_event now =
      let (t, inserted) =
        insert_or_ignore EventRow.event_id (event_row event_id EventStatus.processing now)
          s.processed_events in
      (inserted, record s { processed_events = t })

  unfoldable pub mark_processed : EventStatus → (now : ℕ) → StateStore
  mark_processed status now = record s {
    processed_events =
        upsert EventRow.event_id (event_row event_id status now)
          (λ old. record old { status = status }) s.processed_events;
  }

  unfoldable pub release_event : StateStore
  unfolding is_processing
  release_event = record s {
    processed_events =
        delete_where (λ row. same row.event_id event_id && is_processing row.status)
          s.processed_events;
  }
