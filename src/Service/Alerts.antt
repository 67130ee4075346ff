-- ===== src/Service/Alerts.antt =====
-- `GatewayService.deliver_alerts`, `_alert_key` and `_format_alert` of
-- src/feishu_dify_gateway/service.py.
pub mod Batch
use feishu_dify_gateway.Base.{
  ℕ, zero, suc, ◌+◌, Option, none, some, List, [], ◌∷◌, ◌++◌, if◌then◌else◌, take,
}
use feishu_dify_gateway.Text.{Text, codes, same, is_blank}
use feishu_dify_gateway.Metrics.{Update}
use feishu_dify_gateway.Models.{Alert, AlertStatus, AlertmanagerPayload, AcceptedResponse}
use feishu_dify_gateway.Service.Monad.{Environment, Action, pure, inc, time, ◌>>=◌, ◌>>◌}
use feishu_dify_gateway.Service.Attempt.{claim, attempt}

abbrev pub status_text : AlertStatus → Text
status_text AlertStatus.firing = codes "firing"
status_text AlertStatus.resolved = codes "resolved"

abbrev pub ending : Option Text → Text
ending none = []
ending (some ends_at) = ends_at

-- The text that identifies one state of one alert.
unfoldable pub alert_material : Alert → Text
alert_material a =
    a.fingerprint
    ++ (codes "|"
        ++ (status_text a.status
            ++ (codes "|" ++ (a.starts_at ++ (codes "|" ++ ending a.ends_at)))))

unfoldable pub alert_key : Environment → Alert → Text
alert_key env a = codes "alert:" ++ env.sha256 (alert_material a)

-- `d.get(key, default)`
unfoldable pub get_or : Text → Text → List (Text × Text) → Text
get_or key default [] = default
get_or key default ((k, v) ∷ d) = if same k key then v else get_or key default d

abbrev pub state_text : AlertStatus → Text
state_text AlertStatus.firing = codes "FIRING"
state_text AlertStatus.resolved = codes "RESOLVED"

-- A line of its own, unless it is empty.
abbrev pub line : Text → Text
line t = if is_blank t then [] else codes "\n" ++ t

unfoldable pub format_alert : Alert → Text
unfolding get_or
format_alert a =
    let name = take 128 (get_or (codes "alertname") (codes "UnnamedAlert") a.labels) in
    let severity = take 32 (get_or (codes "severity") (codes "unknown") a.labels) in
    let summary = take 1024 (get_or (codes "summary") [] a.annotations) in
    let description = take 2048 (get_or (codes "description") [] a.annotations) in
    codes "["
    ++ (state_text a.status
        ++ (codes "] "
            ++ (name
                ++ (codes "\nseverity: " ++ (severity ++ (line summary ++ line description))))))

-- The counts of accepted and of deduplicated alerts.
abbrev pub Tally : Type 0
Tally = ℕ × ℕ

-- The end of an alert that was delivered, and an alert whose event is claimed or done.
abbrev pub alert_accepted : Tally → Action Tally
alert_accepted (accepted, deduplicated) = do
  inc (Update.deliveries "alertmanager" "success")
  inc (Update.delivery_states "alertmanager" "delivery_confirmed")
  inc (Update.delivery_attempts "alertmanager" "confirmed")
  pure (accepted + 1, deduplicated)

abbrev pub alert_deduplicated : Tally → Action Tally
alert_deduplicated (accepted, deduplicated) = do
  inc (Update.deliveries "alertmanager" "deduplicated")
  inc (Update.delivery_states "alertmanager" "deduplicated")
  pure (accepted, deduplicated + 1)

-- One round of the loop.
pub deliver_alert : Environment → Alert → Tally → Action Tally
deliver_alert env a tally = do
  let key = alert_key env a
  claimed ← claim env key
  if claimed
      then (attempt env "alertmanager" key key (format_alert a) >> alert_accepted tally)
      else alert_deduplicated tally

pub deliver_each : Environment → List Alert → Tally → Action Tally
deliver_each env [] tally = pure tally
deliver_each env (a ∷ alerts) tally = deliver_alert env a tally >>= deliver_each env alerts

-- `if accepted:`
abbrev pub note_success : Environment → ℕ → Action (Unit {0})
note_success env zero = pure tt
note_success env (suc _) = do now ← time env; inc (Update.last_success "alertmanager" now)

abbrev pub accepted_response : Environment → Tally → Action AcceptedResponse
accepted_response env (accepted, deduplicated) = do
  note_success env accepted
  pure (record { accepted = accepted; deduplicated = deduplicated })

unfoldable pub deliver_alerts : Environment → AlertmanagerPayload → Action AcceptedResponse
unfolding deliver_each deliver_alert
deliver_alerts env payload = deliver_each env payload.alerts (0, 0) >>= accepted_response env
