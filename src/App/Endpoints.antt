-- ===== src/App/Endpoints.antt =====
-- The endpoints of src/feishu_dify_gateway/app.py. The clock is read before a signature is verified,
-- also where the source refuses the request before it reads the clock.
use feishu_dify_gateway.Base.{Bool, not, ◌&&◌, ◌||◌, Option, none, some, [], if◌then◌else◌}
use feishu_dify_gateway.Text.{Text, same, is_blank}
use feishu_dify_gateway.Errors.{other}
use feishu_dify_gateway.Security.{
  Verdict, verified, signature_error, type_error, value_error, verify_request, body_digest,
}
use feishu_dify_gateway.Models.{
  Notification, AlertmanagerPayload, AdministrativeCommunicationRequest, is_notification,
  is_payload, is_communication,
}
use feishu_dify_gateway.Store.{
  DeliveryLedgerEntry, AdministrativeCommunicationLedgerEntry, delivery_for,
  administrative_communication_for,
}
use feishu_dify_gateway.Service.Monad.{Action, pure, raise, gets, time, core_readiness, ◌>>=◌}
use feishu_dify_gateway.Service.Alerts.{deliver_alerts}
use feishu_dify_gateway.Service.Notifications.{deliver_notification}
use feishu_dify_gateway.Service.Communications.{send_administrative_communication}
use feishu_dify_gateway.Service.Synthetic.{
  prepare_synthetic_notification, probe_synthetic_notification,
}
use feishu_dify_gateway.App.Http.{
  App, Request, Response, Endpoint, Content, respond, error_response, validation_error,
  authentication_failed,
}

-- `try: verify_request(...) except SignatureError: return ...`, and what follows it.
unfoldable pub by_verdict : Verdict → Action Response → Action Response
by_verdict verified k = k
by_verdict (signature_error _) k = pure authentication_failed
by_verdict type_error k = raise other
by_verdict value_error k = raise other

unfoldable pub authenticate :
    App → Request → (key event_id body : Text) → Action Response → Action Response
authenticate app req key event_id body k = do
  now ← time app.env
  by_verdict
      (verify_request app.crypto key (req.header "X-Timestamp") event_id (req.header "X-Signature")
        body app.settings.notification_ttl_seconds now)
      k

-- What a valid body does; `none` is a ValidationError.
pub accept_alerts : App → Option AlertmanagerPayload → Action Response
accept_alerts app none = pure validation_error
accept_alerts app (some payload) =
    if is_payload payload
    then (do r ← deliver_alerts app.env payload; pure (respond 200 (Content.alerts r)))
    else pure validation_error

unfoldable pub accept_notification : App → (event_id : Text) → Option Notification → Action Response
accept_notification app event_id none = pure validation_error
accept_notification app event_id (some n) =
    if is_notification n
    then (do
      r ← deliver_notification app.env event_id n
      pure (respond 202 (Content.notification r)))
    else pure validation_error

abbrev pub event_mismatch : Response
event_mismatch = error_response "EVENT_CONFLICT" "Event identity mismatch" 409

unfoldable pub accept_communication :
    App → (event_id body : Text) → Option AdministrativeCommunicationRequest → Action Response
accept_communication app event_id body none = pure validation_error
accept_communication app event_id body (some c) =
    if not (is_communication c)
    then pure validation_error
    else if not (same c.event_id event_id)
    then pure event_mismatch
    else (do
      r ← send_administrative_communication app.env event_id c (body_digest app.crypto body)
      pure (respond 202 (Content.communication r)))

-- `if not settings.administrative_communication_hmac_key`
abbrev pub not_configured : Response
not_configured =
    error_response "NOT_CONFIGURED" "Administrative communication transport is not configured" 503

abbrev pub if_configured : App → Action Response → Action Response
if_configured app k =
    if is_blank app.settings.administrative_communication_hmac_key then pure not_configured else k

unfoldable pub notifications : App → Request → Action Response
unfolding authenticate accept_notification
notifications app req =
    authenticate app req app.settings.notification_hmac_key (req.header "X-Event-ID") req.body
      (accept_notification app (req.header "X-Event-ID") (app.parse_notification req.body))

unfoldable pub administrative_communications : App → Request → Action Response
unfolding authenticate accept_communication
administrative_communications app req = if_configured app (
    authenticate app req app.settings.administrative_communication_hmac_key
      (req.header "X-Event-ID") req.body
      (accept_communication app (req.header "X-Event-ID") req.body
        (app.parse_communication req.body)))

abbrev pub communication_response : Option AdministrativeCommunicationLedgerEntry → Response
communication_response none = error_response "NOT_FOUND" "Communication ledger entry not found" 404
communication_response (some e) = respond 200 (Content.communication_entry e)

abbrev pub delivery_response : Option DeliveryLedgerEntry → Response
delivery_response none = error_response "NOT_FOUND" "Delivery ledger entry not found" 404
delivery_response (some e) = respond 200 (Content.delivery_entry e)

unfoldable pub administrative_communication_ledger :
    App → Request → (event_id : Text) → Action Response
unfolding authenticate
administrative_communication_ledger app req event_id = if_configured app (
    authenticate app req app.settings.administrative_communication_hmac_key event_id [] (do
      entry ← gets (λ s. administrative_communication_for s event_id)
      pure (communication_response entry)))

unfoldable pub delivery_ledger : (event_id : Text) → Action Response
delivery_ledger event_id = do
  entry ← gets (λ s. delivery_for s event_id)
  pure (delivery_response entry)

abbrev pub readiness_response : (feishu_ok connection_ok : Bool) → Response
readiness_response feishu_ok connection_ok =
    if feishu_ok && connection_ok
    then respond 200 (Content.status "ready")
    else error_response "NOT_READY" "One or more dependencies are unavailable" 503

unfoldable pub ready : App → Action Response
ready app = do
  feishu_ok ← core_readiness app.env
  λ w. pure (readiness_response feishu_ok (not app.ws_enabled || app.connection_running w.ticks)) w

unfoldable pub endpoint : App → Request → Endpoint → Action Response
unfolding notifications administrative_communications administrative_communication_ledger
    delivery_ledger ready accept_alerts
endpoint app req Endpoint.health = pure (respond 200 (Content.status "ok"))
endpoint app req Endpoint.ready = ready app
endpoint app req Endpoint.metrics = pure (respond 200 Content.exposition)
endpoint app req Endpoint.alertmanager = accept_alerts app (app.parse_alerts req.body)
endpoint app req Endpoint.notifications = notifications app req
endpoint app req Endpoint.communications = administrative_communications app req
endpoint app req (Endpoint.communication_ledger id) = administrative_communication_ledger app req id
endpoint app req Endpoint.prepare = do
  r ← prepare_synthetic_notification app.env
  pure (respond 201 (Content.prepared r))
endpoint app req Endpoint.probe = do
  r ← probe_synthetic_notification
  pure (respond 200 (Content.probed r))
endpoint app req (Endpoint.delivery_ledger id) = delivery_ledger id
endpoint app req (Endpoint.unmatched status_code) = pure (respond status_code (Content.error "" ""))
