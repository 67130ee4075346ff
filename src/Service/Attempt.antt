-- ===== src/Service/Attempt.antt =====
-- The steps of a delivery that `deliver_notification` and `deliver_alerts` of
-- src/feishu_dify_gateway/service.py share.
pub mod Settles
pub mod Frame
pub mod Progress
pub mod Held
use feishu_dify_gateway.Base.{String, Bool, if◌then◌else◌}
use feishu_dify_gateway.Text.{Text, codes}
use feishu_dify_gateway.Errors.{Exn, ok}
use feishu_dify_gateway.Metrics.{Update}
use feishu_dify_gateway.Store.{
  EventStatus, claim_event, mark_processed, release_event, begin_delivery, mark_delivery_confirmed,
  mark_delivery_retrying, mark_delivery_permanent_failed, DeliveryStatus, DeliveryLedgerEntry,
  delivery_for,
}
use feishu_dify_gateway.Service.Monad.{
  Environment, Action, raise, modify, inc, time, ◌>>=◌, ◌>>◌, gets, catch, pure,
}
use feishu_dify_gateway.Service.Sending.{delivery_failure, send_chunks}
use feishu_dify_gateway.Models.{
  Severity, Notification, NotificationAcceptedResponse, NotificationStatus, source_name,
}

-- `self.store.claim_event(key)`
abbrev pub claim : Environment → Text → Action Bool
claim env key = do
  now ← time env
  λ w. let (claimed, s) = claim_event w.store key now in (ok claimed, record w { store = s })

-- The claim is won: the ledger row and the counters of an attempt.
unfoldable pub begin_attempt :
    Environment → (source : String) (ledger_id : Text) → Action (Unit {0})
begin_attempt env source ledger_id = do
  now ← time env
  modify (λ s. begin_delivery s ledger_id source now)
  inc (Update.delivery_states source "transport_accepted")
  inc (Update.delivery_states source "delivering")
  inc (Update.delivery_attempts source "attempt")

-- The two branches of the `except` block.
pub retry_later :
    Environment → (source : String) (ledger_id key : Text) (error_code : String) → Action (Unit {0})
retry_later env source ledger_id key error_code = do
  next_retry_at ← time env
  now ← time env
  modify (λ s. mark_delivery_retrying s ledger_id error_code next_retry_at now)
  inc (Update.delivery_states source "retrying")
  inc (Update.delivery_attempts source "retryable_failure")
  modify (λ s. release_event s key)

pub give_up :
    Environment → (source : String) (ledger_id key : Text) (error_code : String) → Action (Unit {0})
give_up env source ledger_id key error_code = do
  now ← time env
  modify (λ s. mark_delivery_permanent_failed s ledger_id error_code now)
  later ← time env
  modify (λ s. mark_processed s key EventStatus.permanent_failed later)
  inc (Update.delivery_states source "permanent_failed")
  inc (Update.delivery_attempts source "permanent_failure")

-- The `except` block, which ends in `raise`. `deliver_alerts` has the same block.
pub delivery_failed :
    Environment → (source : String) (ledger_id key : Text) → Exn → Action (Unit {0})
unfolding retry_later give_up delivery_failure
delivery_failed env source ledger_id key exc = do
  let failure = delivery_failure exc
  if failure.1
      then retry_later env source ledger_id key failure.0
      else give_up env source ledger_id key failure.0
  inc (Update.deliveries source "error")
  raise exc

-- The ledger and the event after the last chunk is sent.
pub delivery_succeeded : Environment → (ledger_id key : Text) → Action (Unit {0})
delivery_succeeded env ledger_id key = do
  now ← time env
  modify (λ s. mark_delivery_confirmed s ledger_id now)
  later ← time env
  modify (λ s. mark_processed s key EventStatus.delivered later)

-- One attempt at a delivery whose claim is won, as far as `deliver_notification` and
-- `deliver_alerts` do the same: the ledger row, the `try` with its `except`, and the confirmation.
unfoldable pub attempt :
    Environment → (source : String) (ledger_id key message : Text) → Action (Unit {0})
unfolding begin_attempt delivery_failed delivery_succeeded
attempt env source ledger_id key message = do
  begin_attempt env source ledger_id
  catch (send_chunks env env.feishu_alert_recipient_open_id message key)
      (delivery_failed env source ledger_id key)
  delivery_succeeded env ledger_id key
