-- ===== src/Tests/Service.antt =====
-- Runs of the service (src/feishu_dify_gateway/service.py).
use feishu_dify_gateway.Base.{
  ◌+◌, ◌≤◌, ◌≡◌, refl, ◌≢◌, true, false, none, some, List, [], ◌∷◌, ◌++◌, arith, if◌then◌else◌, All,
  length, inr, ◌⊎◌,
}
use feishu_dify_gateway.Store.{
  StateStore, AdministrativeCommunicationLedgerEntry, administrative_communication_for,
  communication_row, DeliveryLedgerEntry, event_row, EventStatus, EventRow, DeliveryStatus,
  delivery_for, delivering_row, claim_event, mark_delivery_confirmed, mark_processed,
  begin_delivery,
}
use feishu_dify_gateway.Service.Communications.{send_administrative_communication}
use feishu_dify_gateway.Table.{find, insert_or_ignore, upsert, update}
use feishu_dify_gateway.Service.Alerts.Batch.{IsTaken, deliver_alerts_complete}
use feishu_dify_gateway.Service.Commands.Allowed.{Plans, command_or_chat-IsAllowed}
use feishu_dify_gateway.Service.Monad.{Environment, Send, World, failed, SendOutcome}
use feishu_dify_gateway.Models.{
  Alert, AlertmanagerPayload, AdministrativeCommunicationRequest, AcceptedResponse, Notification,
  AlertStatus, NotificationSource, Severity, NotificationStatus, NotificationAcceptedResponse,
}
use feishu_dify_gateway.Service.Communications.Once.{
  communication_send, Reports, communication_new, communication_replay,
}
use feishu_dify_gateway.Service.Communications.AtMostOnce.{
  sends_for, Call, is_recorded, communication_at_most_once,
}
use feishu_dify_gateway.Text.{
  Text, strip, same, codes, lstrip, rstrip, is_space, starts_with, is_ascii,
}
use feishu_dify_gateway.Store.Claims.{claim_of}
use feishu_dify_gateway.Errors.{Exn, ok, gateway, raised}
use feishu_dify_gateway.Service.Split.Chunks.{Splits, split_text-Splits}
use feishu_dify_gateway.Service.Sending.{empty_message, is_retryable, send_chunks}
use feishu_dify_gateway.Service.Alerts.{
  deliver_alerts, alert_key, alert_material, format_alert, get_or,
}
use feishu_dify_gateway.Service.Notifications.{
  deliver_notification, notification_key, confirmed_response,
}
use feishu_dify_gateway.Service.Commands.{
  command_or_chat, control_plane_command, control_plane_action, split_once, first_word, post,
  decided_by_feishu,
}
use feishu_dify_gateway.Service.Notifications.Outcomes.{
  Delivers, deliver_notification-Delivers, deliver_notification_once, deliver_notification_gives_up,
  deliver_notification_replay,
}
use feishu_dify_gateway.Service.Notifications.Reply.{duplicate, AnswersDuplicate, given_up}
use feishu_dify_gateway.Service.Split.{split_text, split_loop, split_at, rfind}
use feishu_dify_gateway.Table.Laws.{HasUniqueKeys}
use feishu_dify_gateway.Service.Attempt.{attempt}
use feishu_dify_gateway.Text.Decimal.{decimal}
use feishu_dify_gateway.Service.Sending.Sends.{
  OnlySends, SendsMessage, send_chunks-SendsPrefix, send_chunks-OnlySends,
}
use feishu_dify_gateway.Service.Monad.{accepted}
use feishu_dify_gateway.Service.Sending.{send_split, send_from}
use feishu_dify_gateway.Service.Notifications.{notification_message}
use feishu_dify_gateway.Service.Chat.{chat_key, handle_feishu_text}
use feishu_dify_gateway.Service.Chat.Handling.{Answers, handle_feishu_text-Answers}
use feishu_dify_gateway.Service.Synthetic.{synthetic_id, prepare_synthetic_notification}
use feishu_dify_gateway.Service.Synthetic.Prepared.{
  nothing_sent, prepare_synthetic_notification-prepared,
}

-- Another system's event, done long ago.
abbrev old_key : Text
old_key = codes "old"

abbrev pub start_store : StateStore
start_store = record {
  processed_events = event_row old_key EventStatus.delivered 1 ∷ [];
  conversations = [];
  notification_delivery_ledger = [];
  administrative_communication_ledger = [];
}

abbrev pub start : World
start = record { store = start_store; metrics = []; sent = []; requests = []; ticks = 0 }

-- The clock counts from 100, and the hashes are prefixes.
abbrev pub environment : (List Send → SendOutcome) → Environment
environment send = record {
  clock = λ t. 100 + t;
  send = send;
  sha256 = λ s. codes "sha256:" ++ s;
  uuid5 = λ s. codes "uuid5:" ++ s;
  uuid4 = λ n. decimal n;
  lower = λ s. s;
  control_plane = λ rs. inr (codes "done");
  feishu_ready = λ t. inr true;
  prometheus_ready = λ t. inr true;
  active_alerts = λ t. inr [];
  feishu_alert_recipient_open_id = codes "ou_ops";
  feishu_allowed_open_id = codes "ou_ops";
}

abbrev pub working : Environment
working = environment (λ sent. accepted (some (codes "om_1")))

abbrev rejected : Exn
rejected = gateway (record {
  code = "FEISHU_REJECTED";
  safe_message = "Feishu rejected the message";
  status_code = 400;
})

abbrev rejecting : Environment
rejecting = environment (λ sent. failed rejected)

abbrev event_id : Text
event_id = codes "build-1"

abbrev pub notification : Notification
notification = record {
  source = NotificationSource.github;
  severity = Severity.warning;
  title = codes "CI";
  text = codes "red";
  occurred_at = codes "t";
  url = none;
}

abbrev key : Text
key = notification_key event_id

pub start-HasUniqueKeys : HasUniqueKeys EventRow.event_id start_store.processed_events
unfolding find
start-HasUniqueKeys = (refl, tt)

key_free : claim_of start_store key ≡ none
unfolding claim_of find same notification_key
key_free = refl

deliver_notification-Delivers_example :
    Delivers working event_id notification []
      (deliver_notification working event_id notification start)
deliver_notification-Delivers_example =
    deliver_notification-Delivers working event_id notification start start-HasUniqueKeys key_free

delivered_ok :
    (deliver_notification working event_id notification start).0 ≡ ok (confirmed_response event_id)
unfolding deliver_notification notification_message attempt send_chunks send_split send_from
    split_text split_loop split_at strip lstrip rstrip is_space rfind claim_event find same
    notification_key insert_or_ignore
delivered_ok = refl

abbrev second_notification : Notification
second_notification = record notification { title = codes "again" }

deliver_notification_once_example :
    let w' = (deliver_notification working event_id notification start).1 in
    let (r, w'') = deliver_notification working event_id second_notification w' in
    (w''.sent ≡ w'.sent) × (r ≡ ok (duplicate event_id NotificationStatus.delivery_confirmed))
deliver_notification_once_example =
    deliver_notification_once working event_id notification start start-HasUniqueKeys key_free
      delivered_ok second_notification

delivery_rejected : (deliver_notification rejecting event_id notification start).0 ≡ raised rejected
unfolding deliver_notification notification_message attempt send_chunks send_split send_from
    split_text split_loop split_at strip lstrip rstrip is_space rfind claim_event find same
    notification_key insert_or_ignore is_retryable
delivery_rejected = refl

rejected_final : is_retryable rejected ≡ false
unfolding is_retryable
rejected_final = refl

deliver_notification_gives_up_example :
    let w' = (deliver_notification rejecting event_id notification start).1 in
    let (r, w'') = deliver_notification rejecting event_id second_notification w' in
    (w''.sent ≡ w'.sent)
    × ((e : DeliveryLedgerEntry) × (delivery_for w''.store event_id ≡ some e)
        × (e.status ≡ DeliveryStatus.permanent_failed)
        × (r ≡ ok (given_up event_id e)))
deliver_notification_gives_up_example =
    deliver_notification_gives_up rejecting event_id notification start start-HasUniqueKeys key_free
      delivery_rejected rejected_final second_notification

-- The event of the notification is claimed by another delivery.
abbrev claimed : World
claimed = record start {
  store = record start_store {
    processed_events = event_row key EventStatus.processing 1 ∷ [];
    notification_delivery_ledger = delivering_row event_id "github" 1 ∷ [];
  };
}

key_taken : claim_of claimed.store key ≢ none
unfolding claim_of find same notification_key
key_taken = λ e. cc

deliver_notification_replay_example :
    let (r, w') = deliver_notification working event_id notification claimed in
    (w'.sent ≡ [])
    × (w'.store ≡ claimed.store)
    × ((response : NotificationAcceptedResponse) × (r ≡ ok response)
        × AnswersDuplicate event_id (delivery_for claimed.store event_id) response)
deliver_notification_replay_example =
    deliver_notification_replay working event_id notification claimed key_taken

key_apart : same key old_key ≡ false
unfolding same notification_key
key_apart = refl

id_apart : same event_id old_key ≡ false
unfolding same
id_apart = refl

-- A batch with one alert twice.
abbrev alert : Alert
alert = record {
  status = AlertStatus.firing;
  labels = [];
  annotations = [];
  starts_at = codes "t";
  ends_at = none;
  generator_url = [];
  fingerprint = codes "f1";
}

abbrev batch : AlertmanagerPayload
batch = record { version = codes "4"; status = AlertStatus.firing; alerts = alert ∷ alert ∷ [] }

abbrev batch_response : AcceptedResponse
batch_response = record { accepted = 1; deduplicated = 1 }

batch_returned : (deliver_alerts working batch start).0 ≡ ok batch_response
unfolding deliver_alerts alert_key alert_material format_alert get_or attempt send_chunks send_split
    send_from split_text split_loop split_at strip lstrip rstrip is_space rfind claim_event find
    same insert_or_ignore mark_delivery_confirmed mark_processed begin_delivery upsert update
batch_returned = refl

deliver_alerts_complete_example :
    let s = (deliver_alerts working batch start).1.store in
    (1 + 1 ≡ length batch.alerts) × All (λ a. IsTaken s (alert_key working a)) batch.alerts
deliver_alerts_complete_example =
    deliver_alerts_complete working batch start batch_response start-HasUniqueKeys batch_returned

old-IsTaken : IsTaken start_store old_key
unfolding claim_of find same
old-IsTaken = λ e. cc

abbrev long_text : Text
long_text = codes "ab cd\nef"

split_text-Splits_example : Splits 4 long_text (split_text long_text 4)
split_text-Splits_example = split_text-Splits long_text 4 (omega arith)

split_long_text : split_text long_text 4 ≡ some (codes "ab" ∷ codes "cd" ∷ codes "ef" ∷ [])
unfolding split_text split_loop split_at strip lstrip rstrip is_space rfind
split_long_text = refl

send_chunks-SendsPrefix_example :
    let p = send_chunks rejecting (codes "ou_1") long_text key start in
    ((strip long_text ≡ []) × (p ≡ (raised (gateway empty_message), start)))
    ⊎ ((strip long_text ≢ []) × SendsMessage rejecting (codes "ou_1") key long_text [] p.0 p.1.sent)
send_chunks-SendsPrefix_example =
    send_chunks-SendsPrefix rejecting (codes "ou_1") key long_text start

send_chunks-OnlySends_example :
    OnlySends start (send_chunks working (codes "ou_1") long_text key start)
send_chunks-OnlySends_example = send_chunks-OnlySends working (codes "ou_1") key long_text start

blank_stripped : strip (codes " \n") ≡ []
unfolding strip lstrip rstrip is_space
blank_stripped = refl

abbrev communication : AdministrativeCommunicationRequest
communication = record {
  event_id = event_id;
  recipient_open_id = codes "ou_2";
  text = codes "hello";
  draft_kind = codes "notice";
}

abbrev body_digest : Text
body_digest = codes "d1"

communication_free : administrative_communication_for start_store event_id ≡ none
unfolding administrative_communication_for find
communication_free = refl

communication_new_example :
    let p = send_administrative_communication working event_id communication body_digest start in
    (p.1.sent ≡ communication_send working event_id communication body_digest ∷ [])
    × Reports working event_id communication body_digest (accepted (some (codes "om_1"))) p
communication_new_example =
    communication_new working event_id communication body_digest start communication_free

abbrev recorded_row : AdministrativeCommunicationLedgerEntry
recorded_row = communication_row event_id body_digest (codes "sha256:ou_2") 1

abbrev recorded_world : World
recorded_world = record start {
  store = record start_store { administrative_communication_ledger = recorded_row ∷ [] };
}

communication_recorded :
    administrative_communication_for recorded_world.store event_id ≡ some recorded_row
unfolding administrative_communication_for find same
communication_recorded = refl

communication_replay_example :
    let (r, w') =
      send_administrative_communication working event_id communication body_digest recorded_world in
    (w'.sent ≡ [])
    × (w'.store ≡ recorded_world.store)
    × (((recorded_row.body_digest ≡ body_digest)
          × (recorded_row.recipient_digest ≡ working.sha256 communication.recipient_open_id)
          × (r
              ≡ ok (record {
                event_id = event_id;
                status = recorded_row.status;
                transport_accepted = recorded_row.transport_accepted;
                delivery_confirmed = recorded_row.delivery_confirmed;
                provider_message_ref = recorded_row.provider_message_ref;
              })))
        ⊎ ((¬ (
              (recorded_row.body_digest ≡ body_digest)
              × (recorded_row.recipient_digest ≡ working.sha256 communication.recipient_open_id)))
            × (r
                ≡ raised (
                    gateway (record {
                      code = "EVENT_CONFLICT";
                      safe_message =
                          "Communication event identity was reused with different content";
                      status_code = 409;
                    })))))
communication_replay_example =
    communication_replay working event_id communication body_digest recorded_world recorded_row
      communication_recorded

apart : same event_id old_key ≡ false
unfolding same
apart = refl

-- One event twice, with different contents.
abbrev calls : List Call
calls =
    record { event_id = event_id; request = communication; body_digest = body_digest }
    ∷ record { event_id = event_id; request = communication; body_digest = codes "d2" }
    ∷ []

communication_at_most_once_example :
    sends_for rejecting event_id calls start ≤ (if is_recorded event_id start then 0 else 1)
communication_at_most_once_example = communication_at_most_once rejecting event_id calls start

command_or_chat-IsAllowed_example :
    Plans (command_or_chat (λ s. s) (codes "usage") (codes "help") (codes "/cp approve 7"))
command_or_chat-IsAllowed_example =
    command_or_chat-IsAllowed (λ s. s) (codes "usage") (codes "help") (codes "/cp approve 7")

approve_seven :
    command_or_chat (λ s. s) (codes "usage") (codes "help") (codes "/cp approve 7")
    ≡ post (codes "/v1/approvals/7/decision") (("action", codes "approve") ∷ decided_by_feishu)
unfolding command_or_chat control_plane_command control_plane_action split_once first_word same
    starts_with strip lstrip rstrip is_space
approve_seven = refl

abbrev operator : Text
operator = codes "ou_ops"

operator_ascii : is_ascii operator ≡ true
unfolding is_ascii
operator_ascii = refl

chat_free : claim_of start_store (chat_key working event_id) ≡ none
unfolding claim_of find same chat_key
chat_free = refl

handle_feishu_text-Answers_example :
    Answers
      (chat_key working event_id)
      start
      (handle_feishu_text working event_id operator (codes "/cp pause") start)
handle_feishu_text-Answers_example =
    handle_feishu_text-Answers working event_id operator (codes "/cp pause") start operator_ascii
      refl start-HasUniqueKeys chat_free

-- The event of the message is being handled.
abbrev handling : World
handling = record start {
  store = record start_store {
    processed_events = event_row (chat_key working event_id) EventStatus.processing 1 ∷ [];
  };
}

chat_taken : claim_of handling.store (chat_key working event_id) ≢ none
unfolding claim_of find same chat_key
chat_taken = λ e. cc

synthetic_fresh : delivery_for start_store (synthetic_id working 0) ≡ none
unfolding delivery_for find
synthetic_fresh = refl

prepare_synthetic_notification-prepared_example :
    let (r, w') = prepare_synthetic_notification working start in
    (r ≡ ok (nothing_sent (synthetic_id working 0)))
    × ((row : DeliveryLedgerEntry) × (delivery_for w'.store (synthetic_id working start.ticks)
          ≡ some row)
        × (row.status ≡ DeliveryStatus.prepared)
        × (row.synthetic ≡ true)
        × (row.source ≡ "test")
        × (row.transport_accepted ≡ false)
        × (row.delivery_confirmed ≡ false)
        × (row.attempts ≡ 0))
    × (w'.sent ≡ [])
    × (w'.requests ≡ [])
    × (w'.store.processed_events ≡ start_store.processed_events)
prepare_synthetic_notification-prepared_example =
    prepare_synthetic_notification-prepared working start synthetic_fresh
