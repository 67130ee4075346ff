-- ===== src/Store/Preservation/Deliveries.antt =====
-- The writes of the delivery ledger (src/feishu_dify_gateway/store.py) keep the store well-formed.
use feishu_dify_gateway.Base.{ℕ, ◌≡◌, refl, String, List, arith}
use feishu_dify_gateway.Text.{Text}
use feishu_dify_gateway.Table.{update}
use feishu_dify_gateway.Table.Laws.{
  update-HasUniqueKeys, insert_or_ignore-HasUniqueKeys, upsert-HasUniqueKeys, update-AllRows,
  insert_or_ignore-AllRows, upsert-AllRows,
}
use feishu_dify_gateway.Store.Rows.{DeliveryLedgerEntry, StateStore}
use feishu_dify_gateway.Store.Coherence.{IsCoherent, IsDeliveryTable, IsWellFormed}
use feishu_dify_gateway.Store.DeliveryLedger.{
  begin_delivery, mark_delivery_confirmed, mark_delivery_retrying, mark_delivery_permanent_failed,
  prepare_synthetic_delivery,
}

update-IsDeliveryTable :
    (k : Text) (f : DeliveryLedgerEntry → DeliveryLedgerEntry) (t : List DeliveryLedgerEntry)
    → ((e : DeliveryLedgerEntry) → (f e).event_id ≡ e.event_id)
    → ((e : DeliveryLedgerEntry) → IsCoherent e → IsCoherent (f e))
    → IsDeliveryTable t
    → IsDeliveryTable (update DeliveryLedgerEntry.event_id k f t)
update-IsDeliveryTable k f t keeps coherent h = (
  update-HasUniqueKeys DeliveryLedgerEntry.event_id k f t keeps h.0,
  update-AllRows DeliveryLedgerEntry.event_id IsCoherent k f t coherent h.1,
)

module _ (s : StateStore) (h : IsWellFormed s) where
  pub begin-IsWellFormed :
      (k : Text) (source : String) (now : ℕ) → IsWellFormed (begin_delivery s k source now)
  unfolding begin_delivery
  begin-IsWellFormed k source now = record {
    events = h.events;
    conversations = h.conversations;
    deliveries = (
      upsert-HasUniqueKeys DeliveryLedgerEntry.event_id _ _ s.notification_delivery_ledger
          (λ e. refl) h.deliveries.0,
      upsert-AllRows DeliveryLedgerEntry.event_id IsCoherent _ _ s.notification_delivery_ledger
          (ground arith) (λ e c. ground arith) h.deliveries.1,
    );
    communications = h.communications;
  }

  pub confirm-IsWellFormed : (k : Text) (now : ℕ) → IsWellFormed (mark_delivery_confirmed s k now)
  unfolding mark_delivery_confirmed
  confirm-IsWellFormed k now = record {
    events = h.events;
    conversations = h.conversations;
    deliveries =
        update-IsDeliveryTable k _ s.notification_delivery_ledger (λ e. refl) (λ e c. ground arith)
          h.deliveries;
    communications = h.communications;
  }

  pub retry-IsWellFormed :
      (k : Text) (code : String) (next now : ℕ)
      → IsWellFormed (mark_delivery_retrying s k code next now)
  unfolding mark_delivery_retrying
  retry-IsWellFormed k code next now = record {
    events = h.events;
    conversations = h.conversations;
    deliveries =
        update-IsDeliveryTable k _ s.notification_delivery_ledger (λ e. refl) (λ e c. ground arith)
          h.deliveries;
    communications = h.communications;
  }

  pub fail-IsWellFormed :
      (k : Text) (code : String) (now : ℕ)
      → IsWellFormed (mark_delivery_permanent_failed s k code now)
  unfolding mark_delivery_permanent_failed
  fail-IsWellFormed k code now = record {
    events = h.events;
    conversations = h.conversations;
    deliveries =
        update-IsDeliveryTable k _ s.notification_delivery_ledger (λ e. refl) (λ e c. ground arith)
          h.deliveries;
    communications = h.communications;
  }

  pub prepare-IsWellFormed :
      (k : Text) (source : String) (now : ℕ)
      → IsWellFormed (prepare_synthetic_delivery s k source now).1
  unfolding prepare_synthetic_delivery
  prepare-IsWellFormed k source now = record {
    events = h.events;
    conversations = h.conversations;
    deliveries = (
      insert_or_ignore-HasUniqueKeys DeliveryLedgerEntry.event_id _ s.notification_delivery_ledger
          h.deliveries.0,
      insert_or_ignore-AllRows DeliveryLedgerEntry.event_id IsCoherent _
          s.notification_delivery_ledger (ground arith) h.deliveries.1,
    );
    communications = h.communications;
  }
