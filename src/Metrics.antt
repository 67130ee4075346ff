-- ===== src/Metrics.antt =====
-- src/feishu_dify_gateway/metrics.py: the updates of the collectors that the service makes, in
-- order. The value of a counter is the number of its updates. The histograms measure durations and
-- are not modelled.
use feishu_dify_gateway.Base.{ℕ, String, List}
use feishu_dify_gateway.Text.{Text}

pub data Update : Type 0 where
  deliveries delivery_states delivery_attempts external_requests : String → String → Update
  synthetic_prepares synthetic_probes : String → Update
  administrative_communications administrative_communication_states
        administrative_communication_attempts :
      String → Update
  http_requests : (method route : Text) (status_class : ℕ) → Update
  last_success : String → ℕ → Update
  long_connection_up : ℕ → Update

abbrev pub Metrics : Type 0
Metrics = List Update
