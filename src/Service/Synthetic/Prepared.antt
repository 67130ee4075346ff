-- ===== src/Service/Synthetic/Prepared.antt =====
-- What `prepare_synthetic_notification` of src/feishu_dify_gateway/service.py does, and leaves alone.
use feishu_dify_gateway.Base.{ℕ, suc, ◌≡◌, refl, true, false, none, some, ◌++◌}
use feishu_dify_gateway.Text.{Text, codes, same_refl}
use feishu_dify_gateway.Errors.{ok}
use feishu_dify_gateway.Table.Laws.{find-insert_or_ignore}
use feishu_dify_gateway.Models.{SyntheticPrepareResponse}
use feishu_dify_gateway.Store.{
  DeliveryLedgerEntry, synthetic_row, delivery_for, prepare_synthetic_delivery, DeliveryStatus,
}
use feishu_dify_gateway.Service.Monad.{Environment, World}
use feishu_dify_gateway.Service.Synthetic.{prepare_synthetic_notification, synthetic_id}

-- The response says that nothing is sent.
abbrev pub nothing_sent : Text → SyntheticPrepareResponse
nothing_sent event_id = record {
  event_id = event_id;
  transport_accepted = false;
  delivery_confirmed = false;
  external_send_started = false;
  requires_manual_confirmation = true;
}

prepare_fresh :
    (env : Environment) (w : World) (k : Text) (now : ℕ)
    → delivery_for w.store k ≡ none
    → ((prepare_synthetic_delivery w.store k "test" now).0 ≡ some (synthetic_row k "test" now))
      × (delivery_for (prepare_synthetic_delivery w.store k "test" now).1 k
          ≡ some (synthetic_row k "test" now))
unfolding prepare_synthetic_delivery delivery_for
prepare_fresh env w k now fresh =
    rw
      (
        find-insert_or_ignore DeliveryLedgerEntry.event_id k (synthetic_row k "test" now)
            w.store.notification_delivery_ledger,
        fresh,
        same_refl k,
      )
      (refl, refl)

-- A synthetic notification whose event identity is not in the ledger is prepared only: its row has
-- the status prepared, the mark of a synthetic one, the source "test", no attempt, and neither of the
-- flags of a transport and a confirmation; the response says that no send has started, and no message
-- is sent, no request made and no event claimed.
pub prepare_synthetic_notification-prepared :
    (env : Environment) (w : World)
    → delivery_for w.store (synthetic_id env w.ticks) ≡ none
    → let (r, w') = prepare_synthetic_notification env w in
      (r ≡ ok (nothing_sent (synthetic_id env w.ticks)))
      × ((row : DeliveryLedgerEntry) × (delivery_for w'.store (synthetic_id env w.ticks) ≡ some row)
          × (row.status ≡ DeliveryStatus.prepared)
          × (row.synthetic ≡ true)
          × (row.source ≡ "test")
          × (row.transport_accepted ≡ false)
          × (row.delivery_confirmed ≡ false)
          × (row.attempts ≡ 0))
      × (w'.sent ≡ w.sent)
      × (w'.requests ≡ w.requests)
      × (w'.store.processed_events ≡ w.store.processed_events)
unfolding prepare_synthetic_notification synthetic_id
prepare_synthetic_notification-prepared env w fresh =
    let k = codes "synthetic-" ++ env.uuid4 w.ticks in
    let (entry, row) = prepare_fresh env w k (env.clock (suc w.ticks)) fresh in
    rw entry (
      refl,
      (_, row, refl, refl, refl, refl, refl, refl),
      refl,
      refl,
      unfold prepare_synthetic_delivery in refl,
    )
