-- ===== src/Tests/App.antt =====
-- Runs of the HTTP application (src/feishu_dify_gateway/app.py).
use feishu_dify_gateway.Base.{
  ℕ, String, ◌≡◌, refl, sym, ◌≢◌, ◌⊎◌, Bool, true, false, none, some, inl, arith, [],
}
use feishu_dify_gateway.Text.{Text, codes, same, same→eq, starts_with}
use feishu_dify_gateway.Errors.{ok}
use feishu_dify_gateway.Config.{Settings}
use feishu_dify_gateway.Tests.Security.{crypto, crypto-IsHexDigest}
use feishu_dify_gateway.Tests.Service.{notification, start-HasUniqueKeys, start, working}
use feishu_dify_gateway.App.Http.{
  App, Request, Endpoint, IsRouting, is_internal, is_local, communications_path, alertmanager_path,
  Response, Content,
}
use feishu_dify_gateway.App.Endpoints.{administrative_communications}
use feishu_dify_gateway.App.Middleware.{request_observability}
use feishu_dify_gateway.App.Served.{Served, request_observability-Served}
use feishu_dify_gateway.App.Access.{
  Unchanged, UnchangedUnless, IsSignedNotification, IsSignedCommunication,
  administrative_communications-IsSigned,
}
use feishu_dify_gateway.App.Access.Ports.{
  request_observability_blocked, request_observability-IsSigned,
}
use feishu_dify_gateway.Models.{is_notification}
use feishu_dify_gateway.Security.{
  sign_request, is_event_id, all_event_chars, canonical_request, body_digest,
}
use feishu_dify_gateway.Text.Decimal.{decimal, decimal_fuel}
use feishu_dify_gateway.Store.Claims.{claim_of}
use feishu_dify_gateway.Table.{find}
use feishu_dify_gateway.Service.Notifications.{notification_key}

abbrev pub settings : Settings
settings = record {
  feishu_app_id = codes "cli_1";
  feishu_app_secret = codes "secret";
  feishu_allowed_open_id = codes "ou_ops";
  feishu_alert_recipient_open_id = codes "ou_ops";
  user_hmac_key = codes "user";
  notification_hmac_key = codes "key";
  control_plane_key = codes "control";
  state_db = codes "state.db";
  prometheus_base_url = codes "http://prometheus:9090";
  control_plane_base_url = codes "http://control";
  administrative_ingress_base_url = codes "http://ingress";
  administrative_ingress_shared_secret = codes "shared";
  administrative_communication_hmac_key = codes "key";
  administrative_route_prefix = codes "/admin";
  feishu_base_url = codes "https://open.feishu.cn";
  host = codes "0.0.0.0";
  port = 8082;
  public_port = 8083;
  ws_enabled = true;
  notification_ttl_seconds = 300;
  event_retention_seconds = 604800;
}

abbrev notifications_path : Text
notifications_path = codes "/v1/notifications"

-- Two of the routes.
abbrev route : (is_notifications is_alertmanager : Bool) → Endpoint
route true _ = Endpoint.notifications
route false true = Endpoint.alertmanager
route false false = Endpoint.unmatched 404

abbrev match : (method path : Text) → Endpoint
match method path = route (same path notifications_path) (same path alertmanager_path)

route_alertmanager : (a b : Bool) → route a b ≡ Endpoint.alertmanager → b ≡ true
route_alertmanager true b h = cc
route_alertmanager false true h = refl
route_alertmanager false false h = cc

other_route :
    (a b : Bool) (e : Endpoint)
    → e ≢ Endpoint.notifications
    → e ≢ Endpoint.alertmanager
    → ((n : ℕ) → e ≢ Endpoint.unmatched n)
    → route a b ≢ e
other_route true b e x y z = λ h. x (sym h)
other_route false true e x y z = λ h. y (sym h)
other_route false false e x y z = λ h. z 404 (sym h)

match-IsRouting : IsRouting match
match-IsRouting = record {
  to_alertmanager = λ m p h. same→eq p alertmanager_path (route_alertmanager _ _ h);
  to_communications = λ m p h. absurd (other_route _ _ _ (λ e. cc) (λ e. cc) (λ n e. cc) h);
  to_communication_ledger =
      λ m p id h. absurd (other_route _ _ _ (λ e. cc) (λ e. cc) (λ n e. cc) h);
  to_prepare = λ m p h. absurd (other_route _ _ _ (λ e. cc) (λ e. cc) (λ n e. cc) h);
  to_probe = λ m p h. absurd (other_route _ _ _ (λ e. cc) (λ e. cc) (λ n e. cc) h);
  to_delivery_ledger = λ m p id h. absurd (other_route _ _ _ (λ e. cc) (λ e. cc) (λ n e. cc) h);
}

abbrev app : App
app = record {
  settings = settings;
  ws_enabled = true;
  connection_running = λ t. true;
  env = working;
  crypto = crypto;
  match = match;
  route_label = λ r. r.path;
  parse_alerts = λ body. none;
  parse_notification = λ body. some notification;
  parse_communication = λ body. some (record {
    event_id = codes "10";
    recipient_open_id = codes "ou_ops";
    text = codes "hello";
    draft_kind = codes "reply";
  });
}

-- Every header has the same value, as a timestamp, an event id and a signature that fits them.
abbrev header : String → Text
header name = codes "10"

-- A request on the public port.
abbrev to : Text → Request
to path = record {
  method = codes "POST";
  path = path;
  url_path = path;
  header = header;
  body = codes "{}";
  server_port = some 8083;
}

request_observability-IsSigned_example :
    UnchangedUnless
      ((is_local app (to notifications_path) ≡ true)
        ⊎ IsSignedNotification app (to notifications_path))
      start
      (request_observability app (to notifications_path) start).1
request_observability-IsSigned_example =
    request_observability-IsSigned app (to notifications_path) match-IsRouting crypto-IsHexDigest
      start refl

public_port : (to alertmanager_path).server_port ≢ some settings.port
public_port = λ e. ground (arith, e)

request_observability_blocked_example :
    let (r, w') = request_observability app (to alertmanager_path) start in
    ((response : Response) × (r ≡ ok response)
      × (response.status_code ≡ 404)
      × (response.content ≡ Content.error "NOT_FOUND" "Resource not found"))
    × Unchanged start w'
    × (w'.metrics ≡ start.metrics)
request_observability_blocked_example =
    request_observability_blocked app (to alertmanager_path) start (inl refl) public_port

administrative_communications-IsSigned_example :
    UnchangedUnless
      (IsSignedCommunication app (to communications_path) crypto-IsHexDigest)
      start
      (administrative_communications app (to communications_path) start).1
administrative_communications-IsSigned_example =
    administrative_communications-IsSigned app (to communications_path) crypto-IsHexDigest start

-- A signed notification is served.
abbrev signed : Request
signed = to notifications_path

signed-is_event_id : is_event_id (codes "10") ≡ true
unfolding is_event_id all_event_chars
signed-is_event_id = refl

ten : codes "10" ≡ decimal 10
unfolding decimal decimal_fuel
ten = refl

signed-signature :
    codes "10" ≡ sign_request crypto (codes "key") (decimal 10) (codes "10") (codes "{}")
unfolding sign_request canonical_request body_digest decimal decimal_fuel
signed-signature = refl

notification-is_notification : is_notification notification ≡ true
unfolding is_notification
notification-is_notification = refl

open_path : is_internal notifications_path ≡ false
unfolding is_internal same starts_with
open_path = refl

routed : match (codes "POST") notifications_path ≡ Endpoint.notifications
unfolding same
routed = refl

signed_free : claim_of start.store (notification_key (codes "10")) ≡ none
unfolding claim_of find same notification_key
signed_free = refl

request_observability-Served_example :
    Served app.env (codes "10") notification [] (request_observability app signed start)
request_observability-Served_example =
    request_observability-Served app signed notification 10 start crypto-IsHexDigest routed
      (inl open_path) signed-is_event_id (rw (← ten) (omega arith))
      (λ t after before. (omega (arith, before), omega (arith, after))) ten signed-signature refl
      notification-is_notification start-HasUniqueKeys signed_free
