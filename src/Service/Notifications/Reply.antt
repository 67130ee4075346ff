-- ===== src/Service/Notifications/Reply.antt =====
-- The answer to a duplicate of a notification (src/feishu_dify_gateway/service.py), described by the
-- names of the statuses.
use feishu_dify_gateway.Base.{String, ◌≡◌, refl, ◌⊎◌, inl, inr, true, false, Option, none, some}
use feishu_dify_gateway.Text.{Text}
use feishu_dify_gateway.Models.{NotificationAcceptedResponse, NotificationStatus}
use feishu_dify_gateway.Store.{DeliveryLedgerEntry, DeliveryStatus}
use feishu_dify_gateway.Service.Attempt.Settles.{IsConfirmed, IsFailed}
use feishu_dify_gateway.Service.Notifications.{replay_response, replay_status}

abbrev pub duplicate : Text → NotificationStatus → NotificationAcceptedResponse
duplicate event_id status = record {
  accepted = 0;
  deduplicated = 1;
  event_id = event_id;
  status = status;
  transport_accepted = true;
  delivery_confirmed = true;
}

-- The names of the statuses, in the ledger and in the response.
abbrev pub ledger_name : DeliveryStatus → String
ledger_name DeliveryStatus.prepared = "prepared"
ledger_name DeliveryStatus.delivering = "delivering"
ledger_name DeliveryStatus.retrying = "retrying"
ledger_name DeliveryStatus.permanent_failed = "permanent_failed"
ledger_name DeliveryStatus.delivery_confirmed = "delivery_confirmed"

abbrev pub response_name : NotificationStatus → String
response_name NotificationStatus.deduplicated = "deduplicated"
response_name NotificationStatus.delivering = "delivering"
response_name NotificationStatus.retrying = "retrying"
response_name NotificationStatus.permanent_failed = "permanent_failed"
response_name NotificationStatus.delivery_confirmed = "delivery_confirmed"

-- The response to a duplicate repeats the ledger's row.
abbrev pub Repeats : Option DeliveryLedgerEntry → NotificationAcceptedResponse → Type 0
Repeats none response =
    (response_name response.status ≡ "deduplicated")
    × (response.transport_accepted ≡ false)
    × (response.delivery_confirmed ≡ false)
Repeats (some e) response =
    ((response_name response.status ≡ ledger_name e.status)
      ⊎ ((response_name response.status ≡ "deduplicated") × (ledger_name e.status ≡ "prepared")))
    × (response.transport_accepted ≡ e.transport_accepted)
    × (response.delivery_confirmed ≡ e.delivery_confirmed)

abbrev pub AnswersDuplicate :
    (event_id : Text) → Option DeliveryLedgerEntry → NotificationAcceptedResponse → Type 0
AnswersDuplicate event_id row response =
    (response.accepted ≡ 0)
    × (response.deduplicated ≡ 1)
    × (response.event_id ≡ event_id)
    × Repeats row response

replay_name :
    (status : DeliveryStatus)
    → (response_name (replay_status status) ≡ ledger_name status)
      ⊎ ((response_name (replay_status status) ≡ "deduplicated")
          × (ledger_name status ≡ "prepared"))
replay_name DeliveryStatus.prepared = inr (refl, refl)
replay_name DeliveryStatus.delivering = inl refl
replay_name DeliveryStatus.retrying = inl refl
replay_name DeliveryStatus.permanent_failed = inl refl
replay_name DeliveryStatus.delivery_confirmed = inl refl

pub replay_response-AnswersDuplicate :
    (event_id : Text) (row : Option DeliveryLedgerEntry)
    → AnswersDuplicate event_id row (replay_response event_id row)
unfolding replay_response
replay_response-AnswersDuplicate event_id none = (refl, refl, refl, (refl, refl, refl))
replay_response-AnswersDuplicate event_id (some e) =
    (refl, refl, refl, (replay_name e.status, refl, refl))

-- The reply to a duplicate of a delivery that failed for good.
abbrev pub given_up : (event_id : Text) → DeliveryLedgerEntry → NotificationAcceptedResponse
given_up event_id e = record {
  accepted = 0;
  deduplicated = 1;
  event_id = event_id;
  status = NotificationStatus.permanent_failed;
  transport_accepted = true;
  delivery_confirmed = e.delivery_confirmed;
}

pub replay_failed :
    (event_id : Text) (code : String) (e : DeliveryLedgerEntry)
    → IsFailed DeliveryStatus.permanent_failed code e
    → replay_response event_id (some e) ≡ given_up event_id e
unfolding replay_response
replay_failed event_id code e f = rw (f.status_is, f.transport_accepted)

pub replay_confirmed :
    (event_id : Text) (e : DeliveryLedgerEntry)
    → IsConfirmed e
    → replay_response event_id (some e) ≡ duplicate event_id NotificationStatus.delivery_confirmed
unfolding replay_response
replay_confirmed event_id e c = rw (c.status, c.delivery_confirmed, c.transport_accepted)
