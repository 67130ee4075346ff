-- ===== src/Service/Synthetic.antt =====
-- `prepare_synthetic_notification`, `probe_synthetic_notification` and the ledger queries of
-- `GatewayService` in src/feishu_dify_gateway/service.py.
pub mod Prepared
use feishu_dify_gateway.Base.{ℕ, suc, true, false, Option, none, some, ◌++◌}
use feishu_dify_gateway.Text.{Text, codes}
use feishu_dify_gateway.Errors.{other, ok}
use feishu_dify_gateway.Metrics.{Update}
use feishu_dify_gateway.Models.{SyntheticPrepareResponse, SyntheticProbeResponse}
use feishu_dify_gateway.Store.{DeliveryLedgerEntry, prepare_synthetic_delivery}
use feishu_dify_gateway.Service.Monad.{Environment, Action, pure, raise, inc, time, ◌>>=◌, ◌>>◌}

-- `uuid.uuid4().hex`
abbrev pub uuid4 : Environment → Action Text
uuid4 env w = (ok (env.uuid4 w.ticks), record w { ticks = suc w.ticks })

-- `self.store.prepare_synthetic_delivery(event_id)`
abbrev pub prepare : Environment → Text → Action (Option DeliveryLedgerEntry)
prepare env event_id = do
  now ← time env
  λ w.
      let (entry, s) = prepare_synthetic_delivery w.store event_id "test" now in
      (ok entry, record w { store = s })

-- The response; `none` is the RuntimeError of the store.
unfoldable pub prepared_response : Option DeliveryLedgerEntry → Action SyntheticPrepareResponse
prepared_response none = raise other
prepared_response (some entry) = do
  inc (Update.synthetic_prepares "prepared")
  inc (Update.delivery_states "test" "prepared")
  pure (record {
    event_id = entry.event_id;
    transport_accepted = entry.transport_accepted;
    delivery_confirmed = entry.delivery_confirmed;
    external_send_started = false;
    requires_manual_confirmation = true;
  })

unfoldable pub synthetic_id : Environment → ℕ → Text
synthetic_id env n = codes "synthetic-" ++ env.uuid4 n

unfoldable pub prepare_synthetic_notification : Environment → Action SyntheticPrepareResponse
unfolding prepared_response
prepare_synthetic_notification env = do
  id ← uuid4 env
  entry ← prepare env (codes "synthetic-" ++ id)
  prepared_response entry

unfoldable pub probe_synthetic_notification : Action SyntheticProbeResponse
probe_synthetic_notification = do
  inc (Update.synthetic_probes "ready")
  pure (record {
    synthetic_enabled = true;
    external_send_started = false;
    requires_manual_confirmation = true;
  })
