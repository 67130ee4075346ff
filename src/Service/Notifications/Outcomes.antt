-- ===== src/Service/Notifications/Outcomes.antt =====
-- What `deliver_notification` of src/feishu_dify_gateway/service.py promises its caller.
use feishu_dify_gateway.Base.{String, ◌≡◌, refl, sym, ap, ◌∙◌, ◌≢◌, false, none, some, List}
use feishu_dify_gateway.Text.{Text}
use feishu_dify_gateway.Table.Laws.{HasUniqueKeys}
use feishu_dify_gateway.Errors.{Result, ok, raised, diverged, Exn}
use feishu_dify_gateway.Models.{
  Notification, NotificationAcceptedResponse, source_name, NotificationStatus,
}
use feishu_dify_gateway.Store.{EventRow, delivery_for, DeliveryLedgerEntry, DeliveryStatus}
use feishu_dify_gateway.Store.Claims.{claim_of}
use feishu_dify_gateway.Store.Views.{claim_event_held, claim_event_free, claim_event-HasUniqueKeys}
use feishu_dify_gateway.Service.Monad.{Environment, World, ◌>>◌, Send}
use feishu_dify_gateway.Service.Attempt.{attempt}
use feishu_dify_gateway.Service.Attempt.Settles.{Settles, attempt-Settles}
use feishu_dify_gateway.Service.Notifications.{
  notification_key, notification_message, confirmed_response, replay_response, deduplicated,
  deliver_claimed, deliver_notification, notification_succeeded,
}
use feishu_dify_gateway.Service.Sending.{is_retryable, failure_code}
use feishu_dify_gateway.Service.Sending.Sends.{SendsMessage}
use feishu_dify_gateway.Service.Attempt.Progress.{attempt-SendsMessage}
use feishu_dify_gateway.Service.Notifications.Message.{notification_message_filled}
use feishu_dify_gateway.Service.Notifications.Reply.{
  duplicate, AnswersDuplicate, replay_response-AnswersDuplicate, given_up, replay_failed,
  replay_confirmed,
}

-- The messages sent for a notification, from a log of all that was sent before.
abbrev pub SendsNotification :
    Environment
    → (event_id : Text) → Notification
    → List Send
    → Result (Unit {0})
    → List Send
    → Type 0
SendsNotification env event_id n =
    SendsMessage env env.feishu_alert_recipient_open_id (notification_key event_id)
      (notification_message n)

-- The outcome of a delivery whose event was free.
abbrev pub Delivers :
    Environment
    → (event_id : Text) → Notification
    → List Send
    → Result NotificationAcceptedResponse × World
    → Type 0
Delivers env event_id n log (ok response, w) =
    (response ≡ confirmed_response event_id)
    × Settles event_id (notification_key event_id) (ok tt, w)
    × SendsNotification env event_id n log (ok tt) w.sent
Delivers env event_id n log (raised exc, w) =
    Settles event_id (notification_key event_id) (raised exc, w)
    × SendsNotification env event_id n log (raised exc) w.sent
Delivers env event_id n log (diverged, w) = ⊥

module _ (env : Environment) (event_id : Text) (n : Notification) where
  deliver_claimed-Delivers :
      (source : String) (w : World)
      → Settles event_id
          (notification_key event_id)
          (attempt env source event_id (notification_key event_id) (notification_message n) w)
      → Delivers env event_id n w.sent (deliver_claimed env source event_id n w)
  unfolding deliver_claimed
  deliver_claimed-Delivers source w h =
      go (attempt env source event_id (notification_key event_id) (notification_message n) w) h (
        attempt-SendsMessage env source event_id (notification_key event_id)
          (notification_message n) w (notification_message_filled n))
    where
      go :
          (p : Result (Unit {0}) × World)
          → Settles event_id (notification_key event_id) p
          → SendsNotification env event_id n w.sent p.0 p.1.sent
          → Delivers env event_id n w.sent
              (((λ _. p) >> notification_succeeded env source event_id) w)
      go (ok _, w1) s sends = (refl, s, sends)
      go (raised exc, w1) s sends = (s, sends)
      go (diverged, w1) s sends = s

  -- In a table of events with unique keys, a notification whose event is free is cut into chunks that
  -- fit and hold its message, less whitespace, and these are sent to the recipient of alerts in order,
  -- up to the first that the sender refuses. Where the sender accepts all of them, the call returns and
  -- reports a confirmed delivery, and the event is done with a confirmed ledger row. Where it refuses
  -- one, the call raises the sender's exception, and the event is free again with a row that waits
  -- for a retry, or both have failed for good, as the exception is retryable or not. There is no
  -- other outcome.
  pub deliver_notification-Delivers :
      (w : World)
      → HasUniqueKeys EventRow.event_id w.store.processed_events
      → claim_of w.store (notification_key event_id) ≡ none
      → Delivers env event_id n w.sent (deliver_notification env event_id n w)
  unfolding deliver_notification
  deliver_notification-Delivers w keys free =
      let key = notification_key event_id in
      let now = env.clock w.ticks in
      let (won, held) = claim_event_free w.store key now keys free in
      rw won (
        deliver_claimed-Delivers (source_name n.source) _ (
          attempt-Settles env (source_name n.source) event_id key (notification_message n) _
            (claim_event-HasUniqueKeys w.store key now keys) held))

  -- What the response is and what the call leaves alone.
  replay_lem :
      (w : World)
      → claim_of w.store (notification_key event_id) ≢ none
      → let (r, w') = deliver_notification env event_id n w in
        (r ≡ ok (replay_response event_id (delivery_for w.store event_id)))
        × (w'.sent ≡ w.sent)
        × (w'.store ≡ w.store)
  unfolding deliver_notification deduplicated
  replay_lem w held =
      rw (claim_event_held w.store (notification_key event_id) (env.clock w.ticks) held)
        (refl, refl, refl)

  -- A notification whose event is claimed or done is answered as a duplicate. Nothing is sent and the
  -- store does not change. Where the ledger has a row of the event, the response has its two flags and
  -- its status, by its name; save that a row that is only prepared, and no row, count as deduplicated,
  -- and no row has neither flag.
  pub deliver_notification_replay :
      (w : World)
      → claim_of w.store (notification_key event_id) ≢ none
      → let (r, w') = deliver_notification env event_id n w in
        (w'.sent ≡ w.sent)
        × (w'.store ≡ w.store)
        × ((response : NotificationAcceptedResponse) × (r ≡ ok response)
            × AnswersDuplicate event_id (delivery_for w.store event_id) response)
  deliver_notification_replay w held =
      let (r, sent, store) = replay_lem w held in
      (
        sent,
        store,
        (
          replay_response event_id (delivery_for w.store event_id),
          r,
          replay_response-AnswersDuplicate event_id (delivery_for w.store event_id),
        ),
      )

module _ (env : Environment) (event_id : Text) (n : Notification) where
  -- In a table of events with unique keys, once a free notification was delivered, delivering its
  -- event again sends nothing, whatever the second request holds, and reports the confirmed
  -- delivery as a duplicate.
  pub deliver_notification_once :
      (w : World) {response : NotificationAcceptedResponse}
      → HasUniqueKeys EventRow.event_id w.store.processed_events
      → claim_of w.store (notification_key event_id) ≡ none
      → (deliver_notification env event_id n w).0 ≡ ok response
      → (n' : Notification)
      → let w' = (deliver_notification env event_id n w).1 in
        let (r, w'') = deliver_notification env event_id n' w' in
        (w''.sent ≡ w'.sent) × (r ≡ ok (duplicate event_id NotificationStatus.delivery_confirmed))
  deliver_notification_once w {response} keys free returned n' =
      again (deliver_notification env event_id n w)
        (deliver_notification-Delivers env event_id n w keys free) returned
    where
      again :
          (p : Result NotificationAcceptedResponse × World)
          → Delivers env event_id n w.sent p
          → p.0 ≡ ok response
          → let (r, w'') = deliver_notification env event_id n' p.1 in
            (w''.sent ≡ p.1.sent)
            × (r ≡ ok (duplicate event_id NotificationStatus.delivery_confirmed))
      again (ok _, w1) (_, (done, (e, found, confirmed)), _) _ =
          let (r, sent, _) = replay_lem env event_id n' w1 (λ free. cc (sym done ∙ free)) in
          (
            sent,
            r ∙ ap ok (ap (replay_response event_id) found ∙ replay_confirmed event_id e confirmed),
          )
      again (raised exc, w1) _ e = cc
      again (diverged, w1) _ e = cc

  -- In a table of events with unique keys, once the delivery of a free notification raised an
  -- exception that is not retryable, delivering its event again sends nothing and reports a duplicate
  -- that has failed for good. The ledger has a row of the event that says so.
  pub deliver_notification_gives_up :
      (w : World) {exc : Exn}
      → HasUniqueKeys EventRow.event_id w.store.processed_events
      → claim_of w.store (notification_key event_id) ≡ none
      → (deliver_notification env event_id n w).0 ≡ raised exc
      → is_retryable exc ≡ false
      → (n' : Notification)
      → let w' = (deliver_notification env event_id n w).1 in
        let (r, w'') = deliver_notification env event_id n' w' in
        (w''.sent ≡ w'.sent)
        × ((e : DeliveryLedgerEntry) × (delivery_for w''.store event_id ≡ some e)
            × (e.status ≡ DeliveryStatus.permanent_failed)
            × (r ≡ ok (given_up event_id e)))
  deliver_notification_gives_up w {exc} keys free failed final n' =
      again (deliver_notification env event_id n w)
        (deliver_notification-Delivers env event_id n w keys free) failed
    where
      again :
          (p : Result NotificationAcceptedResponse × World)
          → Delivers env event_id n w.sent p
          → p.0 ≡ raised exc
          → let (r, w'') = deliver_notification env event_id n' p.1 in
            (w''.sent ≡ p.1.sent)
            × ((e : DeliveryLedgerEntry) × (delivery_for w''.store event_id ≡ some e)
                × (e.status ≡ DeliveryStatus.permanent_failed)
                × (r ≡ ok (given_up event_id e)))
      again (ok _, w1) _ e = cc
      again (raised exc', w1) (settled, _) same_exc =
          let final' : is_retryable exc' ≡ false = ap is_retryable (cc) ∙ final in
          let (done, (e, found, failed_row)) = rw final' at settled in
          let (r, sent, store) = replay_lem env event_id n' w1 (λ free. cc (sym done ∙ free)) in
          (
            sent,
            (
              e,
              ap (λ s. delivery_for s event_id) store ∙ found,
              failed_row.status_is,
              r
                  ∙ ap ok (
                      ap (replay_response event_id) found
                      ∙ replay_failed event_id (failure_code exc') e failed_row),
            ),
          )
      again (diverged, w1) _ e = cc
