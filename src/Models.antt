-- ===== src/Models.antt =====
-- src/feishu_dify_gateway/models.py: the requests, after validation by pydantic, and the responses.
-- A date is its `isoformat()`, a URL its text.
use feishu_dify_gateway.Base.{ℕ, String, Bool, true, ◌&&◌, Option, List, [], ◌∷◌, leb, length}
use feishu_dify_gateway.Text.{Text}
use feishu_dify_gateway.Store.{CommunicationStatus}

pub data NotificationSource : Type 0 where
  github sonar windows_maintenance watchdog test control_plane : NotificationSource

-- The literal of each source, which labels the metrics.
unfoldable pub source_name : NotificationSource → String
source_name NotificationSource.github = "github"
source_name NotificationSource.sonar = "sonar"
source_name NotificationSource.windows_maintenance = "windows-maintenance"
source_name NotificationSource.watchdog = "watchdog"
source_name NotificationSource.test = "test"
source_name NotificationSource.control_plane = "control-plane"

pub data Severity : Type 0 where
  info warning critical : Severity

pub record Notification : Type 0 where
  pub source : NotificationSource
  pub severity : Severity
  pub title : Text
  pub text : Text
  pub occurred_at : Text
  pub url : Option Text

pub data AlertStatus : Type 0 where
  firing resolved : AlertStatus

pub record Alert : Type 0 where
  pub status : AlertStatus
  pub labels : List (Text × Text)
  pub annotations : List (Text × Text)
  pub starts_at : Text
  pub ends_at : Option Text
  pub generator_url : Text
  pub fingerprint : Text

pub record AlertmanagerPayload : Type 0 where
  pub version : Text
  pub status : AlertStatus
  pub alerts : List Alert

pub record AcceptedResponse : Type 0 where
  pub accepted : ℕ
  pub deduplicated : ℕ

pub data NotificationStatus : Type 0 where
  deduplicated delivering retrying permanent_failed delivery_confirmed : NotificationStatus

pub record NotificationAcceptedResponse : Type 0 where
  pub accepted : ℕ
  pub deduplicated : ℕ
  pub event_id : Text
  pub status : NotificationStatus
  pub transport_accepted : Bool
  pub delivery_confirmed : Bool

pub record AdministrativeCommunicationRequest : Type 0 where
  pub event_id : Text
  pub recipient_open_id : Text
  pub text : Text
  pub draft_kind : Text

-- The status is one of those that the ledger holds.
pub record AdministrativeCommunicationAcceptedResponse : Type 0 where
  pub event_id : Text
  pub status : CommunicationStatus
  pub transport_accepted : Bool
  pub delivery_confirmed : Bool
  pub provider_message_ref : Option Text

-- The status is always 'prepared', and 'ready' for a probe.
pub record SyntheticPrepareResponse : Type 0 where
  pub event_id : Text
  pub transport_accepted : Bool
  pub delivery_confirmed : Bool
  pub external_send_started : Bool
  pub requires_manual_confirmation : Bool

pub record SyntheticProbeResponse : Type 0 where
  pub synthetic_enabled : Bool
  pub external_send_started : Bool
  pub requires_manual_confirmation : Bool

-- `ShortText` and `LongText`.
abbrev pub is_between : (low high : ℕ) → Text → Bool
is_between low high s = leb low (length s) && leb (length s) high

abbrev pub is_short_text : Text → Bool
is_short_text = is_between 1 512

abbrev pub is_long_text : Text → Bool
is_long_text = is_between 1 10000

-- The limits of the fields, which pydantic checks.
unfoldable pub is_notification : Notification → Bool
is_notification n = is_short_text n.title && is_long_text n.text

unfoldable pub is_alert : Alert → Bool
is_alert a = leb (length a.generator_url) 2048 && is_between 1 256 a.fingerprint

unfoldable pub all_alerts : List Alert → Bool
all_alerts [] = true
all_alerts (a ∷ alerts) = is_alert a && all_alerts alerts

unfoldable pub is_payload : AlertmanagerPayload → Bool
is_payload p = leb 1 (length p.alerts) && leb (length p.alerts) 100 && all_alerts p.alerts

unfoldable pub is_communication : AdministrativeCommunicationRequest → Bool
is_communication c =
    is_short_text c.event_id
    && is_short_text c.recipient_open_id
    && is_long_text c.text
    && is_short_text c.draft_kind
