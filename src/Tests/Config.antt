-- ===== src/Tests/Config.antt =====
-- A start of src/feishu_dify_gateway/__main__.py with the settings of src/feishu_dify_gateway/config.py.
use feishu_dify_gateway.Base.{
  ℕ, ◌≡◌, refl, ◌≢◌, true, false, Option, none, some, [], ◌++◌, if◌then◌else◌,
}
use feishu_dify_gateway.Text.{
  Text, codes, same, strip, lstrip, rstrip, is_space, starts_with, any_space, rstrip_slash,
}
use feishu_dify_gateway.Config.{Settings, route_prefix, env_bool}
use feishu_dify_gateway.Config.Source.{
  File, Process, read_secret_path, optional_secret, from_environment, main_settings,
}
use feishu_dify_gateway.Config.Source.Safe.{IsSafe, main_settings-IsSafe}

-- Every secret file holds the same secret, on a line of its own.
abbrev secret_file : File
secret_file = record {
  is_file = true;
  is_symlink = false;
  is_private = true;
  contents = some (codes "s3cret\n");
}

abbrev read_port : Text → Option ℕ
read_port t = some (if same t (codes "8082") then 8082 else 8083)

-- No variable is set.
abbrev process : Process
process = record {
  getenv = λ name. none;
  is_nt = false;
  join = λ directory name. directory ++ (codes "/" ++ name);
  file = λ path. secret_file;
  int = read_port;
  lower = λ t. t;
}

abbrev settings : Settings
settings = record {
  feishu_app_id = codes "s3cret";
  feishu_app_secret = codes "s3cret";
  feishu_allowed_open_id = codes "s3cret";
  feishu_alert_recipient_open_id = codes "s3cret";
  user_hmac_key = codes "s3cret";
  notification_hmac_key = codes "s3cret";
  control_plane_key = codes "s3cret";
  state_db = codes "/var/lib/feishu-gateway/state.db";
  prometheus_base_url = codes "http://prometheus:9090";
  control_plane_base_url = codes "http://host.docker.internal:18083";
  administrative_ingress_base_url = [];
  administrative_ingress_shared_secret = [];
  administrative_communication_hmac_key = [];
  administrative_route_prefix = codes "/admin";
  feishu_base_url = codes "https://open.feishu.cn";
  host = codes "0.0.0.0";
  port = 8082;
  public_port = 8083;
  ws_enabled = true;
  notification_ttl_seconds = 300;
  event_retention_seconds = 604800;
}

started : main_settings process ≡ some settings
unfolding main_settings from_environment read_secret_path optional_secret route_prefix env_bool same
    strip lstrip rstrip is_space starts_with any_space rstrip_slash
started = refl

main_settings-IsSafe_example : IsSafe process settings × (settings.port ≢ settings.public_port)
main_settings-IsSafe_example = main_settings-IsSafe process settings started
