-- ===== src/Config/Source.antt =====
-- `Settings.from_environment` of src/feishu_dify_gateway/config.py, with the reading of secrets, and
-- the test of the ports in src/feishu_dify_gateway/__main__.py. In every result `none` is an exception: a
-- ConfigurationError, or one of `int` or of the reading of a file. A negative port, which
-- `from_environment` accepts and to which no socket can be bound, is taken for such an exception.
pub mod Safe
use feishu_dify_gateway.Base.{
  ℕ, String, Bool, true, not, ◌&&◌, ◌||◌, Option, none, some, [], ◌∷◌, ◌==◌, if◌then◌else◌,
}
use feishu_dify_gateway.Partial.{◌>>=◌}
use feishu_dify_gateway.Text.{Text, codes, strip, is_blank}
use feishu_dify_gateway.Config.{Settings, route_prefix, env_bool}

-- What the system says of a path. `is_private` is `mode & 0o077 == 0`; `contents` is what
-- `read_text` returns.
pub record File : Type 0 where
  pub is_file : Bool
  pub is_symlink : Bool
  pub is_private : Bool
  pub contents : Option Text

-- The environment of the process; `int` and `lower` are Python's.
pub record Process : Type 0 where
  pub getenv : String → Option Text
  pub is_nt : Bool
  pub join : (directory name : Text) → Text
  pub file : (path : Text) → File
  pub int : Text → Option ℕ
  pub lower : Text → Text

-- `os.getenv(name, default)`
abbrev pub getenv_or : Process → String → Text → Text
getenv_or p name default = elim (p.getenv name) [ none ↦ default | some t ↦ t ]

-- `value` if it is not empty.
abbrev pub not_empty : Text → Option Text
not_empty [] = none
not_empty (c ∷ t) = some (c ∷ t)

unfoldable pub read_secret_path : Process → (path : Text) → Option Text
read_secret_path p path =
    let file = p.file path in
    if not file.is_file || file.is_symlink
    then none
    else if not p.is_nt && not file.is_private
    then none
    else file.contents >>= λ text. not_empty (strip text)

abbrev pub read_secret : Process → (directory name : Text) → Option Text
read_secret p directory name = read_secret_path p (p.join directory name)

unfoldable pub optional_secret : Process → (file_env value_env : String) → Option Text
optional_secret p file_env value_env =
    let file_name = strip (getenv_or p file_env []) in
    if not (is_blank file_name)
    then read_secret_path p file_name
    else some (getenv_or p value_env [])

unfoldable pub from_environment : Process → Option Settings
from_environment p = do
  let secrets_dir = getenv_or p "GATEWAY_SECRETS_DIR" (codes "/run/secrets")
  user_open_id ← read_secret p secrets_dir (codes "feishu_user_open_id")
  shared_secret ←
      optional_secret p "ADMINISTRATIVE_INGRESS_SHARED_SECRET_FILE"
        "ADMINISTRATIVE_INGRESS_SHARED_SECRET"
  communication_key ←
      optional_secret p "ADMINISTRATIVE_COMMUNICATION_HMAC_KEY_FILE"
        "ADMINISTRATIVE_COMMUNICATION_HMAC_KEY"
  app_id ← read_secret p secrets_dir (codes "feishu_app_id")
  app_secret ← read_secret p secrets_dir (codes "feishu_app_secret")
  user_hmac_key ← read_secret p secrets_dir (codes "user_hmac_key")
  notification_hmac_key ← read_secret p secrets_dir (codes "notification_hmac_key")
  control_plane_key ← read_secret p secrets_dir (codes "control_plane_key")
  prefix ← route_prefix (getenv_or p "ADMINISTRATIVE_ROUTE_PREFIX" (codes "/admin"))
  port ← p.int (getenv_or p "GATEWAY_PORT" (codes "8082"))
  public_port ← p.int (getenv_or p "GATEWAY_PUBLIC_PORT" (codes "8083"))
  ws_enabled ← env_bool p.lower (p.getenv "FEISHU_WS_ENABLED") true
  some (record {
    feishu_app_id = app_id;
    feishu_app_secret = app_secret;
    feishu_allowed_open_id = user_open_id;
    feishu_alert_recipient_open_id = user_open_id;
    user_hmac_key = user_hmac_key;
    notification_hmac_key = notification_hmac_key;
    control_plane_key = control_plane_key;
    state_db = getenv_or p "GATEWAY_STATE_DB" (codes "/var/lib/feishu-gateway/state.db");
    prometheus_base_url = getenv_or p "PROMETHEUS_BASE_URL" (codes "http://prometheus:9090");
    control_plane_base_url =
        getenv_or p "CONTROL_PLANE_BASE_URL" (codes "http://host.docker.internal:18083");
    administrative_ingress_base_url = getenv_or p "ADMINISTRATIVE_INGRESS_BASE_URL" [];
    administrative_ingress_shared_secret = shared_secret;
    administrative_communication_hmac_key = communication_key;
    administrative_route_prefix = prefix;
    feishu_base_url = getenv_or p "FEISHU_BASE_URL" (codes "https://open.feishu.cn");
    host = getenv_or p "GATEWAY_HOST" (codes "0.0.0.0");
    port = port;
    public_port = public_port;
    ws_enabled = ws_enabled;
    notification_ttl_seconds = 300;
    event_retention_seconds = 604800;
  })

-- `if settings.port == settings.public_port: raise`
abbrev pub with_two_ports : Settings → Option Settings
with_two_ports s = if s.port == s.public_port then none else some s

-- The settings with which `main` creates the application.
unfoldable pub main_settings : Process → Option Settings
unfolding from_environment
main_settings p = from_environment p >>= with_two_ports
