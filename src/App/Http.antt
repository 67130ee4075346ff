-- ===== src/App/Http.antt =====
-- Requests and responses of src/feishu_dify_gateway/app.py, and what the application is given.
use feishu_dify_gateway.Base.{ℕ, String, ◌≡◌, Bool, false, ◌||◌, Option, none, some, ◌++◌, ◌==◌}
use feishu_dify_gateway.Text.{Text, codes, same, starts_with}
use feishu_dify_gateway.Errors.{GatewayError}
use feishu_dify_gateway.Security.{Crypto}
use feishu_dify_gateway.Config.{Settings}
use feishu_dify_gateway.Store.{DeliveryLedgerEntry, AdministrativeCommunicationLedgerEntry}
use feishu_dify_gateway.Models.{
  AcceptedResponse, NotificationAcceptedResponse, AdministrativeCommunicationAcceptedResponse,
  SyntheticPrepareResponse, SyntheticProbeResponse, Notification, AlertmanagerPayload,
  AdministrativeCommunicationRequest,
}
use feishu_dify_gateway.Service.Monad.{Environment}

-- `header name` is `request.headers.get(name, "")`; `url_path` is `request.url.path`, and `path` the
-- path that FastAPI matches with its routes; `server_port` is the port of the scope's server, if the
-- scope has one.
pub record Request : Type 0 where
  pub method : Text
  pub path : Text
  pub url_path : Text
  pub header : String → Text
  pub body : Text
  pub server_port : Option ℕ

-- The endpoints, with their path parameters; `unmatched` is what FastAPI answers by itself, with
-- its status.
pub data Endpoint : Type 0 where
  health ready metrics alertmanager notifications communications prepare probe : Endpoint
  communication_ledger delivery_ledger : Text → Endpoint
  unmatched : ℕ → Endpoint

-- The content of a response.
pub data Content : Type 0 where
  error : (code message : String) → Content
  status : String → Content
  exposition : Content
  alerts : AcceptedResponse → Content
  notification : NotificationAcceptedResponse → Content
  communication : AdministrativeCommunicationAcceptedResponse → Content
  prepared : SyntheticPrepareResponse → Content
  probed : SyntheticProbeResponse → Content
  delivery_entry : DeliveryLedgerEntry → Content
  communication_entry : AdministrativeCommunicationLedgerEntry → Content

-- `request_id` is the header X-Request-ID, where the middleware has set it.
pub record Response : Type 0 where
  pub status_code : ℕ
  pub content : Content
  pub request_id : Option Text

abbrev pub respond : ℕ → Content → Response
respond status_code content = record {
  status_code = status_code;
  content = content;
  request_id = none;
}

-- `error_response(code, message, status_code)`
abbrev pub error_response : (code message : String) → ℕ → Response
error_response code message status_code = respond status_code (Content.error code message)

abbrev pub validation_error : Response
validation_error = error_response "VALIDATION_ERROR" "Request validation failed" 422

abbrev pub authentication_failed : Response
authentication_failed = error_response "AUTHENTICATION_FAILED" "Request authentication failed" 401

abbrev pub not_found : Response
not_found = error_response "NOT_FOUND" "Resource not found" 404

-- `gateway_error_handler`
abbrev pub gateway_error_response : GatewayError → Response
gateway_error_response e = error_response e.code e.safe_message e.status_code

-- What `create_app` is given, and what FastAPI and pydantic do: the endpoint of a method and a path,
-- the label of its route, and the values that a JSON body denotes, before the limits of the fields are
-- checked. `connection_running` is `connection.running` at each reading.
pub record App : Type 0 where
  pub settings : Settings
  pub ws_enabled : Bool
  pub connection_running : ℕ → Bool
  pub env : Environment
  pub crypto : Crypto
  pub match : (method path : Text) → Endpoint
  pub route_label : Request → Text
  pub parse_alerts : Text → Option AlertmanagerPayload
  pub parse_notification : Text → Option Notification
  pub parse_communication : Text → Option AdministrativeCommunicationRequest

abbrev pub alertmanager_path : Text
alertmanager_path = codes "/v1/alerts/alertmanager"

abbrev pub synthetic_prefix : Text
synthetic_prefix = codes "/v1/notifications/synthetic"

abbrev pub delivery_ledger_prefix : Text
delivery_ledger_prefix = codes "/v1/delivery-ledger/"

abbrev pub communications_path : Text
communications_path = codes "/v1/administrative/communications"

-- The routes that the decorators declare: which paths lead to the endpoints that are internal.
pub record IsRouting (match : (method path : Text) → Endpoint) : Type 0 where
  pub to_alertmanager : (m p : Text) → match m p ≡ Endpoint.alertmanager → p ≡ alertmanager_path
  pub to_communications :
      (m p : Text) → match m p ≡ Endpoint.communications → p ≡ communications_path
  pub to_communication_ledger :
      (m p id : Text)
      → match m p ≡ Endpoint.communication_ledger id
      → p ≡ communications_path ++ (codes "/" ++ id)
  pub to_prepare :
      (m p : Text) → match m p ≡ Endpoint.prepare → p ≡ synthetic_prefix ++ codes "/prepare"
  pub to_probe : (m p : Text) → match m p ≡ Endpoint.probe → p ≡ synthetic_prefix ++ codes "/probe"
  pub to_delivery_ledger :
      (m p id : Text) → match m p ≡ Endpoint.delivery_ledger id → p ≡ delivery_ledger_prefix ++ id

-- `internal_only` of the middleware.
unfoldable pub is_internal : Text → Bool
is_internal path =
    same path alertmanager_path
    || (starts_with path synthetic_prefix
        || (starts_with path delivery_ledger_prefix || starts_with path communications_path))

-- `local_port == settings.port`
unfoldable pub is_local : App → Request → Bool
is_local app req = elim req.server_port [ none ↦ false | some p ↦ p == app.settings.port ]
