-- ===== src/Service/Notifications/Eventually.antt =====
-- A client of src/feishu_dify_gateway/service.py that repeats `deliver_notification` until it returns.
use feishu_dify_gateway.Base.{
  ℕ, zero, suc, ◌+◌, ◌≤◌, String, ◌≡◌, refl, ap, ◌∙◌, ◌≢◌, true, none, List, arith, length,
}
use feishu_dify_gateway.Text.{Text}
use feishu_dify_gateway.Table.Laws.{HasUniqueKeys}
use feishu_dify_gateway.Errors.{Exn, Result, ok, raised, diverged}
use feishu_dify_gateway.Models.{Notification, NotificationAcceptedResponse, source_name}
use feishu_dify_gateway.Store.{EventRow}
use feishu_dify_gateway.Store.Claims.{claim_of}
use feishu_dify_gateway.Store.Views.{claim_event_free, claim_event-HasUniqueKeys}
use feishu_dify_gateway.Service.Monad.{Environment, World, Send, failed, ◌>>◌}
use feishu_dify_gateway.Service.Sending.{is_retryable}
use feishu_dify_gateway.Service.Sending.Progress.{Progress}
use feishu_dify_gateway.Service.Attempt.{attempt}
use feishu_dify_gateway.Service.Attempt.Progress.{attempt-Progress}
use feishu_dify_gateway.Service.Attempt.Frame.{attempt-Touches}
use feishu_dify_gateway.Service.Notifications.{
  notification_key, notification_message, confirmed_response, deliver_claimed, deliver_notification,
  notification_succeeded,
}
use feishu_dify_gateway.Service.Notifications.Message.{notification_message_filled}
use feishu_dify_gateway.Service.Notifications.Outcomes.{Delivers, deliver_notification-Delivers}

module _ (env : Environment) (event_id : Text) (n : Notification) where
  deliver_claimed-Progress :
      (source : String) (w : World) → Progress env w.sent (deliver_claimed env source event_id n w)
  unfolding deliver_claimed
  deliver_claimed-Progress source w =
      go (attempt env source event_id (notification_key event_id) (notification_message n) w) (
        attempt-Progress env source event_id (notification_key event_id) (notification_message n) w
          (notification_message_filled n))
    where
      go :
          (p : Result (Unit {0}) × World)
          → Progress env w.sent p
          → Progress env w.sent (((λ _. p) >> notification_succeeded env source event_id) w)
      go (ok _, v) h = h
      go (raised exc, v) h = h
      go (diverged, v) h = h

  deliver_claimed-HasUniqueKeys :
      (source : String) (w : World)
      → HasUniqueKeys EventRow.event_id w.store.processed_events
      → HasUniqueKeys EventRow.event_id
          (deliver_claimed env source event_id n w).1.store.processed_events
  unfolding deliver_claimed
  deliver_claimed-HasUniqueKeys source w keys =
      go (attempt env source event_id (notification_key event_id) (notification_message n) w) (
        (attempt-Touches env source event_id (notification_key event_id) (notification_message n)
            w).keys
          keys)
    where
      go :
          (p : Result (Unit {0}) × World)
          → HasUniqueKeys EventRow.event_id p.1.store.processed_events
          → HasUniqueKeys EventRow.event_id
              (((λ _. p) >> notification_succeeded env source event_id) w).1.store.processed_events
      go (ok _, v) h = h
      go (raised exc, v) h = h
      go (diverged, v) h = h

  -- The delivery of a free event: how far it gets, and that the keys stay unique.
  deliver_free :
      (w : World)
      → HasUniqueKeys EventRow.event_id w.store.processed_events
      → claim_of w.store (notification_key event_id) ≡ none
      → let p = deliver_notification env event_id n w in
        Progress env w.sent p × HasUniqueKeys EventRow.event_id p.1.store.processed_events
  unfolding deliver_notification
  deliver_free w keys free =
      let key = notification_key event_id in
      let now = env.clock w.ticks in
      let (won, held) = claim_event_free w.store key now keys free in
      rw won (
        deliver_claimed-Progress (source_name n.source) _,
        deliver_claimed-HasUniqueKeys (source_name n.source) _
            (claim_event-HasUniqueKeys w.store key now keys),
      )

  -- The world after so many calls.
  unfoldable pub repeated : ℕ → World → World
  repeated zero w = w
  repeated (suc k) w = repeated k (deliver_notification env event_id n w).1

  -- One of the calls from `w` on returns that the notification is delivered, after at most `limit`
  -- others.
  abbrev pub DeliversWithin : (limit : ℕ) → World → Type 0
  DeliversWithin limit w =
      (k : ℕ) × (k ≤ limit)
      × ((deliver_notification env event_id n (repeated k w)).0 ≡ ok (confirmed_response event_id))

  module _ (outage : ℕ)
      (transient : (log : List Send) (exc : Exn)
        → env.send log ≡ failed exc
        → is_retryable exc ≡ true)
      (recovers : (log : List Send) (exc : Exn)
        → outage ≤ length log
        → env.send log ≢ failed exc) where
    returned :
        (d : ℕ) (w : World) {response : NotificationAcceptedResponse} {v : World}
        → deliver_notification env event_id n w ≡ (ok response, v)
        → response ≡ confirmed_response event_id
        → DeliversWithin d w
    unfolding repeated
    returned d w e confirmed = (0, omega arith, ap (λ p. p.0) e ∙ ap ok confirmed)

    -- The last call, once the sender has recovered.
    final_call :
        (w : World)
        → outage ≤ length w.sent
        → (p : Result NotificationAcceptedResponse × World)
        → deliver_notification env event_id n w ≡ p
        → Progress env w.sent p
        → Delivers env event_id n w.sent p
        → DeliversWithin 0 w
    final_call w near (ok response, v) e h (confirmed, _, _) = returned 0 w e confirmed
    final_call w near (raised exc, v) e (more, last) settled =
        absurd (recovers v.sent exc (omega (arith, near, more)) last)
    final_call w near (diverged, v) e h settled = elim h [ ]

    -- A call, with what the calls after it do where it raises.
    call :
        (d : ℕ) (w : World)
        → outage ≤ length w.sent + suc d
        → (p : Result NotificationAcceptedResponse × World)
        → deliver_notification env event_id n w ≡ p
        → Progress env w.sent p
        → Delivers env event_id n w.sent p
        → (outage ≤ length p.1.sent + d
            → claim_of p.1.store (notification_key event_id) ≡ none
            → DeliversWithin d p.1)
        → DeliversWithin (suc d) w
    unfolding repeated
    call d w near (ok response, v) e h (confirmed, _, _) rest = returned (suc d) w e confirmed
    call d w near (raised exc, v) e (more, last) settled rest =
        let (free, _) = rw (transient v.sent exc last) at settled.0 in
        let (k, few, delivered) = rest (omega (arith, near, more)) free in
        (suc k, omega (arith, few), rw e delivered)
    call d w near (diverged, v) e h settled rest = elim h [ ]

    eventually :
        (d : ℕ) (w : World)
        → outage ≤ length w.sent + d
        → HasUniqueKeys EventRow.event_id w.store.processed_events
        → claim_of w.store (notification_key event_id) ≡ none
        → DeliversWithin d w
    eventually zero w near keys free =
        final_call w (omega (arith, near)) (deliver_notification env event_id n w) refl
          (deliver_free w keys free).0 (deliver_notification-Delivers env event_id n w keys free)
    eventually (suc d) w near keys free =
        let p = deliver_notification env event_id n w in
        let (progress, keys') = deliver_free w keys free in
        call d w near p refl progress (deliver_notification-Delivers env event_id n w keys free)
          (λ near' free'. eventually d p.1 near' keys' free')

    -- Let every failure of the sender be one that a later attempt may outlive, and let the sender
    -- accept every message once it has been called `outage` times. In a table of events with unique
    -- keys, a client that repeats the delivery of a free notification then gets the answer that it
    -- is delivered, after at most `outage` other calls.
    pub deliver_notification_eventually :
        (w : World)
        → HasUniqueKeys EventRow.event_id w.store.processed_events
        → claim_of w.store (notification_key event_id) ≡ none
        → DeliversWithin outage w
    deliver_notification_eventually w keys free = eventually outage w (omega arith) keys free
