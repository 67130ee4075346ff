-- ===== src/Tests/Clients.antt =====
-- Runs of the lane of a message, of the route prefix and of the Prometheus client
-- (src/feishu_dify_gateway/feishu.py, config.py and prometheus.py).
use feishu_dify_gateway.Base.{
  ◌≤◌, ◌≡◌, refl, ◌↔◌, true, false, some, [], ◌∷◌, All, length, List, if◌then◌else◌,
}
use feishu_dify_gateway.Text.{
  codes, same, starts_with, is_space, lstrip, rstrip, strip, rstrip_slash, Text, is_blank,
}
use feishu_dify_gateway.Feishu.{is_administrative_route, normalized_prefix}
use feishu_dify_gateway.Feishu.Route.{IsCommand, is_administrative_route_iff}
use feishu_dify_gateway.Prometheus.{
  Json, text, array, object, no_items, item, no_members, member, active_alerts, results, alert_of,
  first_items, listed, get,
}
use feishu_dify_gateway.Prometheus.Bounds.{IsShown, active_alerts-IsShown}
use feishu_dify_gateway.Errors.{ok}
use feishu_dify_gateway.Feishu.Ingress.{
  Answer, unreachable, status, Post, send_metadata, attempts, after_answer, is_retryable_http,
}
use feishu_dify_gateway.Feishu.Ingress.Attempts.{Ends, Posts, send_metadata-Ends}

is_administrative_route_iff_example :
    (is_administrative_route (codes " /admin list ") (codes "/admin/") ≡ true)
    ↔ IsCommand (strip (codes " /admin list ")) (normalized_prefix (codes "/admin/"))
is_administrative_route_iff_example =
    is_administrative_route_iff (codes " /admin list ") (codes "/admin/")

-- A longer word does not take the lane.
longer_word : is_administrative_route (codes "/administrator") (codes "/admin") ≡ false
unfolding is_administrative_route normalized_prefix same starts_with strip lstrip rstrip is_space
    rstrip_slash
longer_word = refl

abbrev disk_alert : Json
disk_alert = object (
    member (codes "labels") (object (member (codes "alertname") (text (codes "Disk")) no_members))
      (member (codes "state") (text (codes "firing")) no_members))

-- One alert, and an item that is left out since it has no labels.
abbrev payload : Json
payload = object (
    member (codes "status") (text (codes "success")) (
      member (codes "data")
        (object (
          member (codes "alerts") (array (item (object no_members) (item disk_alert no_items)))
            no_members))
        no_members))

one_alert : active_alerts (some payload) ≡ (codes "Disk", codes "firing") ∷ []
unfolding active_alerts results listed alert_of first_items get same
one_alert = refl

active_alerts-IsShown_example :
    (length (active_alerts (some payload)) ≤ 20) × All IsShown (active_alerts (some payload))
active_alerts-IsShown_example = active_alerts-IsShown (some payload)

-- The first post fails, the second is answered with 503, the third with 202.
abbrev answers : List Post → Answer
answers (_ ∷ []) = unreachable
answers (_ ∷ _ ∷ []) = status 503
answers _ = status 202

abbrev secret : Text
secret = codes " token "

send_metadata-Ends_example :
    let p = send_metadata answers secret 3 (codes "{}") [] in
    Ends answers p
    × Posts answers
        (record { token = strip secret; payload = codes "{}" })
        (if is_blank (strip secret) then 0 else 3)
        []
        p
send_metadata-Ends_example = send_metadata-Ends answers secret 3 (codes "{}") []

third_accepted : (send_metadata answers secret 3 (codes "{}") []).0 ≡ ok tt
unfolding send_metadata attempts after_answer is_retryable_http strip lstrip rstrip is_space
third_accepted = refl
