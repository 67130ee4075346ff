-- ===== src/Config/Source/Safe.antt =====
-- The settings that `main` of src/feishu_dify_gateway/__main__.py can start with, read by
-- src/feishu_dify_gateway/config.py.
use feishu_dify_gateway.Base.{
  ◌≡◌, refl, ◌≢◌, inl, inr, true, false, not, ◌&&◌, ◌||◌, some, [], ◌∷◌, arith, ◌==◌, Bool-cases,
}
use mathlib.Core.Path.{subst}
use feishu_dify_gateway.Partial.{bind_some, some_inj, none-some}
use feishu_dify_gateway.Text.{Text, codes, strip, any_space}
use feishu_dify_gateway.Config.{Settings, route_prefix, env_bool}
use feishu_dify_gateway.Config.RoutePrefix.{route_prefix-normalized_prefix}
use feishu_dify_gateway.Feishu.{normalized_prefix}
use feishu_dify_gateway.Config.Source.{
  Process, getenv_or, not_empty, read_secret_path, read_secret, optional_secret, from_environment,
  with_two_ports, main_settings,
}

-- A secret that a file holds: a regular file and no link, which no other user may read, and whose
-- text, less the whitespace around it, is the secret and is not empty.
pub record IsSecretOf (p : Process) (path value : Text) : Type 0 where
  pub regular : (p.file path).is_file ≡ true
  pub direct : (p.file path).is_symlink ≡ false
  pub closed : (p.is_nt || (p.file path).is_private) ≡ true
  pub text : Text
  pub contents : (p.file path).contents ≡ some text
  pub held : strip text ≡ value
  pub filled : value ≢ []

not_empty-some : (t : Text) {v : Text} → not_empty t ≡ some v → (t ≡ v) × (v ≢ [])
not_empty-some [] e = absurd (none-some e)
not_empty-some (c ∷ t) e = (some_inj e, λ blank. cc)

read_secret_path-IsSecretOf :
    (p : Process) (path : Text) {v : Text} → read_secret_path p path ≡ some v → IsSecretOf p path v
unfolding read_secret_path
read_secret_path-IsSecretOf p path {v} e =
    elim (Bool-cases (not (p.file path).is_file || (p.file path).is_symlink)) [
      | inl unsafe ↦ absurd (none-some (rw unsafe at e))
      | inr safe ↦ elim (Bool-cases (not p.is_nt && not (p.file path).is_private)) [
        | inl open_mode ↦ absurd (none-some (rw (safe, open_mode) at e))
        | inr closed ↦
            let (text, contents, kept) =
              bind_some (p.file path).contents (λ t. not_empty (strip t))
                (rw (safe, closed) at e) in
            let (held, filled) = not_empty-some (strip text) kept in
            record {
              regular = ground (arith, safe);
              direct = ground (arith, safe);
              closed = ground (arith, closed);
              text = text;
              contents = contents;
              held = held;
              filled = filled;
            }
      ]
    ]

-- What the settings are then.
pub record IsSafe (p : Process) (s : Settings) : Type 0 where
  pub directory : Text
  pub app_id : IsSecretOf p (p.join directory (codes "feishu_app_id")) s.feishu_app_id
  pub app_secret : IsSecretOf p (p.join directory (codes "feishu_app_secret")) s.feishu_app_secret
  pub user : IsSecretOf p (p.join directory (codes "feishu_user_open_id")) s.feishu_allowed_open_id
  pub recipient : s.feishu_alert_recipient_open_id ≡ s.feishu_allowed_open_id
  pub user_key : IsSecretOf p (p.join directory (codes "user_hmac_key")) s.user_hmac_key
  pub notification_key :
      IsSecretOf p (p.join directory (codes "notification_hmac_key")) s.notification_hmac_key
  pub control_key : IsSecretOf p (p.join directory (codes "control_plane_key")) s.control_plane_key
  pub prefix_clean : any_space s.administrative_route_prefix ≡ false
  pub prefix_normal :
      normalized_prefix s.administrative_route_prefix ≡ s.administrative_route_prefix

from_environment-IsSafe : (p : Process) (s : Settings) → from_environment p ≡ some s → IsSafe p s
unfolding from_environment
from_environment-IsSafe p s e =
    let directory = getenv_or p "GATEWAY_SECRETS_DIR" (codes "/run/secrets") in
    let (user_open_id, e1, h1) =
      bind_some (read_secret p directory (codes "feishu_user_open_id")) _ e in
    let (shared_secret, e2, h2) =
      bind_some
        (optional_secret p "ADMINISTRATIVE_INGRESS_SHARED_SECRET_FILE"
          "ADMINISTRATIVE_INGRESS_SHARED_SECRET")
        _ h1 in
    let (communication_key, e3, h3) =
      bind_some
        (optional_secret p "ADMINISTRATIVE_COMMUNICATION_HMAC_KEY_FILE"
          "ADMINISTRATIVE_COMMUNICATION_HMAC_KEY")
        _ h2 in
    let (app_id, e4, h4) = bind_some (read_secret p directory (codes "feishu_app_id")) _ h3 in
    let (app_secret, e5, h5) =
      bind_some (read_secret p directory (codes "feishu_app_secret")) _ h4 in
    let (user_hmac_key, e6, h6) =
      bind_some (read_secret p directory (codes "user_hmac_key")) _ h5 in
    let (notification_hmac_key, e7, h7) =
      bind_some (read_secret p directory (codes "notification_hmac_key")) _ h6 in
    let (control_plane_key, e8, h8) =
      bind_some (read_secret p directory (codes "control_plane_key")) _ h7 in
    let (prefix, e9, h9) =
      bind_some (route_prefix (getenv_or p "ADMINISTRATIVE_ROUTE_PREFIX" (codes "/admin"))) _ h8 in
    let (port, e10, h10) = bind_some (p.int (getenv_or p "GATEWAY_PORT" (codes "8082"))) _ h9 in
    let (public_port, e11, h11) =
      bind_some (p.int (getenv_or p "GATEWAY_PUBLIC_PORT" (codes "8083"))) _ h10 in
    let (ws_enabled, e12, h12) =
      bind_some (env_bool p.lower (p.getenv "FEISHU_WS_ENABLED") true) _ h11 in
    let (clean, normal) = route_prefix-normalized_prefix _ prefix e9 in
    subst (IsSafe p) (some_inj h12) (record {
      directory = directory;
      app_id = read_secret_path-IsSecretOf p _ e4;
      app_secret = read_secret_path-IsSecretOf p _ e5;
      user = read_secret_path-IsSecretOf p _ e1;
      recipient = refl;
      user_key = read_secret_path-IsSecretOf p _ e6;
      notification_key = read_secret_path-IsSecretOf p _ e7;
      control_key = read_secret_path-IsSecretOf p _ e8;
      prefix_clean = clean;
      prefix_normal = normal;
    })

-- Where `main` creates the application, the six secrets come from regular files, not through a
-- link, which on other systems than Windows nobody but their owner may read; none of them is empty.
-- Alerts go to the user who may write to the gateway, the route prefix has no whitespace and stands
-- as it is compared, and the internal port is not the public one.
pub main_settings-IsSafe :
    (p : Process) (s : Settings) → main_settings p ≡ some s → IsSafe p s × (s.port ≢ s.public_port)
unfolding main_settings
main_settings-IsSafe p s e =
    let (s', from, checked) = bind_some (from_environment p) with_two_ports e in
    elim (Bool-cases (s'.port == s'.public_port)) [
      | inl clash ↦ absurd (none-some (rw clash at checked))
      | inr apart ↦
          let same_settings : s' ≡ s = some_inj (rw apart at checked) in
          subst (λ t. IsSafe p t × (t.port ≢ t.public_port)) same_settings
            (from_environment-IsSafe p s' from, ground (arith, apart))
    ]
