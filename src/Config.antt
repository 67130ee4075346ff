-- ===== src/Config.antt =====
-- src/feishu_dify_gateway/config.py: the settings, `_env_bool` and `_route_prefix`; the value of the
-- environment variable is an argument.
pub mod RoutePrefix
pub mod Source
use feishu_dify_gateway.Base.{
  ℕ, Bool, true, false, not, ◌&&◌, ◌||◌, Option, none, some, if◌then◌else◌,
}
use feishu_dify_gateway.Text.{
  Text, same, codes, starts_with, strip, rstrip_slash, any_space, is_blank,
}

-- `none` is a ConfigurationError.
unfoldable pub route_prefix : Text → Option Text
route_prefix raw =
    let value = strip raw in
    if not (is_blank value) && (not (starts_with value (codes "/")) || any_space value)
    then none
    else some (rstrip_slash value)

-- `none` is a ConfigurationError. `raw` is the value of the variable, if it is set.
unfoldable pub env_bool : (lower : Text → Text) (raw : Option Text) (default : Bool) → Option Bool
env_bool lower none default = some default
env_bool lower (some raw) default =
    let normalized = lower (strip raw) in
    if same normalized (codes "1")
      || same normalized (codes "true")
      || same normalized (codes "yes")
      || same normalized (codes "on")
    then some true
    else if same normalized (codes "0")
        || same normalized (codes "false")
        || same normalized (codes "no")
        || same normalized (codes "off")
    then some false
    else none

pub record Settings : Type 0 where
  pub feishu_app_id : Text
  pub feishu_app_secret : Text
  pub feishu_allowed_open_id : Text
  pub feishu_alert_recipient_open_id : Text
  pub user_hmac_key : Text
  pub notification_hmac_key : Text
  pub control_plane_key : Text
  pub state_db : Text
  pub prometheus_base_url : Text
  pub control_plane_base_url : Text
  pub administrative_ingress_base_url : Text
  pub administrative_ingress_shared_secret : Text
  pub administrative_communication_hmac_key : Text
  pub administrative_route_prefix : Text
  pub feishu_base_url : Text
  pub host : Text
  pub port : ℕ
  pub public_port : ℕ
  pub ws_enabled : Bool
  pub notification_ttl_seconds : ℕ
  pub event_retention_seconds : ℕ
