-- ===== src/Service/Notifications.antt =====
-- `GatewayService.deliver_notification` of src/feishu_dify_gateway/service.py.
pub mod Message
pub mod Reply
pub mod Outcomes
pub mod Eventually
use feishu_dify_gateway.Base.{String, true, false, Option, none, some, [], ◌++◌, if◌then◌else◌}
use feishu_dify_gateway.Text.{Text, codes}
use feishu_dify_gateway.Metrics.{Update}
use feishu_dify_gateway.Store.{DeliveryStatus, DeliveryLedgerEntry, delivery_for}
use feishu_dify_gateway.Service.Monad.{Environment, Action, inc, time, ◌>>=◌, ◌>>◌, gets, pure}
use feishu_dify_gateway.Models.{
  Severity, Notification, NotificationAcceptedResponse, NotificationStatus, source_name,
}
use feishu_dify_gateway.Service.Attempt.{attempt, claim}

abbrev pub severity_upper : Severity → Text
severity_upper Severity.info = codes "INFO"
severity_upper Severity.warning = codes "WARNING"
severity_upper Severity.critical = codes "CRITICAL"

abbrev pub url_line : Option Text → Text
url_line none = []
url_line (some url) = codes "\n" ++ url

unfoldable pub notification_message : Notification → Text
notification_message n =
    codes "["
    ++ (severity_upper n.severity
        ++ (codes "] " ++ (n.title ++ (codes "\n" ++ (n.text ++ url_line n.url)))))

unfoldable pub notification_key : Text → Text
notification_key event_id = codes "notification:" ++ event_id

abbrev pub replay_status : DeliveryStatus → NotificationStatus
replay_status DeliveryStatus.delivering = NotificationStatus.delivering
replay_status DeliveryStatus.retrying = NotificationStatus.retrying
replay_status DeliveryStatus.permanent_failed = NotificationStatus.permanent_failed
replay_status DeliveryStatus.delivery_confirmed = NotificationStatus.delivery_confirmed
replay_status DeliveryStatus.prepared = NotificationStatus.deduplicated

-- The response to an event that is claimed or done.
unfoldable pub replay_response : Text → Option DeliveryLedgerEntry → NotificationAcceptedResponse
replay_response event_id none = record {
  accepted = 0;
  deduplicated = 1;
  event_id = event_id;
  status = NotificationStatus.deduplicated;
  transport_accepted = false;
  delivery_confirmed = false;
}
replay_response event_id (some entry) = record {
  accepted = 0;
  deduplicated = 1;
  event_id = event_id;
  status = replay_status entry.status;
  transport_accepted = entry.transport_accepted;
  delivery_confirmed = entry.delivery_confirmed;
}

abbrev pub confirmed_response : Text → NotificationAcceptedResponse
confirmed_response event_id = record {
  accepted = 1;
  deduplicated = 0;
  event_id = event_id;
  status = NotificationStatus.delivery_confirmed;
  transport_accepted = true;
  delivery_confirmed = true;
}

-- `if not self.store.claim_event(key)`
unfoldable pub deduplicated :
    (source : String) (event_id : Text) → Action NotificationAcceptedResponse
deduplicated source event_id = do
  entry ← gets (λ s. delivery_for s event_id)
  inc (Update.deliveries source "deduplicated")
  inc (Update.delivery_states source "deduplicated")
  pure (replay_response event_id entry)

-- The end of a delivery that succeeded.
abbrev pub notification_succeeded :
    Environment → (source : String) (event_id : Text) → Action NotificationAcceptedResponse
notification_succeeded env source event_id = do
  inc (Update.deliveries source "success")
  inc (Update.delivery_states source "delivery_confirmed")
  inc (Update.delivery_attempts source "confirmed")
  now ← time env
  inc (Update.last_success "notification" now)
  pure (confirmed_response event_id)

-- The claim is won.
unfoldable pub deliver_claimed :
    Environment
    → (source : String) (event_id : Text) → Notification
    → Action NotificationAcceptedResponse
deliver_claimed env source event_id n =
    attempt env source event_id (notification_key event_id) (notification_message n)
    >> notification_succeeded env source event_id

unfoldable pub deliver_notification :
    Environment → (event_id : Text) → Notification → Action NotificationAcceptedResponse
unfolding deduplicated deliver_claimed
deliver_notification env event_id n = do
  claimed ← claim env (notification_key event_id)
  if claimed
      then deliver_claimed env (source_name n.source) event_id n
      else deduplicated (source_name n.source) event_id
