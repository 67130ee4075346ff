-- ===== src/App/Served.antt =====
-- What a client of src/feishu_dify_gateway/app.py gets that signs its notification as it should.
use feishu_dify_gateway.Base.{
  ℕ, suc, ◌+◌, ◌≤◌, ◌≡◌, refl, sym, ap, ◌∙◌, ◌⊎◌, inl, inr, true, false, not, ◌&&◌, Option, none,
  some, arith, length, List,
}
use mathlib.Core.Path.{subst}
use feishu_dify_gateway.Text.{Text}
use feishu_dify_gateway.Text.Decimal.{decimal}
use feishu_dify_gateway.Table.Laws.{HasUniqueKeys}
use feishu_dify_gateway.Errors.{GatewayError, gateway, other, Result, ok, raised, diverged}
use feishu_dify_gateway.Security.{
  verified, IsHexDigest, is_event_id, max_int_digits, sign_request, verify_request,
}
use feishu_dify_gateway.Security.Verify.{verify_request-sign_request}
use feishu_dify_gateway.Models.{Notification, NotificationAcceptedResponse, is_notification}
use feishu_dify_gateway.Store.{EventRow}
use feishu_dify_gateway.Store.Claims.{claim_of}
use feishu_dify_gateway.Service.Monad.{World, ◌>>=◌, catch, pure, Action, Environment, Send}
use feishu_dify_gateway.Service.Attempt.Settles.{Settles}
use feishu_dify_gateway.Service.Notifications.{
  notification_key, confirmed_response, deliver_notification,
}
use feishu_dify_gateway.Service.Notifications.Outcomes.{
  Delivers, deliver_notification-Delivers, SendsNotification,
}
use feishu_dify_gateway.App.Http.{
  App, Request, Response, Content, Endpoint, respond, is_internal, is_local,
}
use feishu_dify_gateway.App.Endpoints.{
  endpoint, notifications, authenticate, by_verdict, accept_notification,
}
use feishu_dify_gateway.App.Middleware.{
  by_exception, call_next, request_id, handled, observed, request_observability,
}
use feishu_dify_gateway.App.Access.Ports.{request_id-ok}

-- How a request with a free notification ends, from a log of all that was sent before: with 202, and
-- the sender has accepted every chunk and the event is done; or with the response of a GatewayError,
-- or with another exception, which the sender raised at the last chunk sent, and then the event and
-- its row are settled as the exception asks.
abbrev pub Served :
    Environment → (event_id : Text) → Notification → List Send → Result Response × World → Type 0
Served env event_id n log (ok response, w) =
    ((response.status_code ≡ 202)
      × (response.content ≡ Content.notification (confirmed_response event_id))
      × Settles event_id (notification_key event_id) (ok tt, w)
      × SendsNotification env event_id n log (ok tt) w.sent)
    ⊎ ((e : GatewayError) × (response.status_code ≡ e.status_code)
        × (response.content ≡ Content.error e.code e.safe_message)
        × Settles event_id (notification_key event_id) (raised (gateway e), w)
        × SendsNotification env event_id n log (raised (gateway e)) w.sent)
Served env event_id n log (raised exc, w) =
    (exc ≡ other)
    × Settles event_id (notification_key event_id) (raised other, w)
    × SendsNotification env event_id n log (raised other) w.sent
Served env event_id n log (diverged, w) = ⊥

module _ (app : App) (req : Request) where
  abbrev pub id : Text
  id = req.header "X-Event-ID"

  -- The endpoint and the exception handler, after a valid body.
  accepted-Served :
      (n : Notification) (w : World)
      → is_notification n ≡ true
      → HasUniqueKeys EventRow.event_id w.store.processed_events
      → claim_of w.store (notification_key id) ≡ none
      → Served app.env id n w.sent (catch (accept_notification app id (some n)) by_exception w)
  unfolding accept_notification
  accepted-Served n w valid keys free = rw valid (
      go (deliver_notification app.env id n w)
        (deliver_notification-Delivers app.env id n w keys free))
    where
      go :
          (p : Result NotificationAcceptedResponse × World)
          → Delivers app.env id n w.sent p
          → Served app.env id n w.sent
              (catch ((λ _. p) >>= λ r. pure (respond 202 (Content.notification r))) by_exception w)
      go (ok response, v) (confirmed, settled, sends) =
          inl (refl, ap Content.notification confirmed, settled, sends)
      go (raised (gateway e), v) (settled, sends) =
          unfold by_exception in inr (e, refl, refl, settled, sends)
      go (raised other, v) (settled, sends) = unfold by_exception in (refl, settled, sends)
      go (diverged, v) settled = elim settled [ ]

  -- What the middleware does after it.
  observed-Served :
      (request_id : Text) (n : Notification) (log : List Send) (p : Result Response × World)
      (w : World)
      → Served app.env id n log p
      → Served app.env id n log (((λ _. p) >>= observed app req request_id) w)
  observed-Served request_id n log (ok response, v) w h = h
  observed-Served request_id n log (raised exc, v) w h = h
  observed-Served request_id n log (diverged, v) w h = h

  -- Where the signature passes, the rest of the endpoint runs at the next reading of the clock.
  authenticate_verified :
      (key event_id body : Text) (k : Action Response) (w : World)
      → verify_request app.crypto key
          (req.header "X-Timestamp")
          event_id
          (req.header "X-Signature")
          body
          app.settings.notification_ttl_seconds
          (app.env.clock w.ticks)
        ≡ verified
      → authenticate app req key event_id body k w ≡ k (record w { ticks = suc w.ticks })
  unfolding authenticate by_verdict
  authenticate_verified key event_id body k w signed = rw signed refl

  -- What `notifications` runs after the signature.
  abbrev rest : Option Notification → Action Response
  rest o = accept_notification app id o

  call_next-Served :
      (n : Notification) (w : World)
      → verify_request app.crypto app.settings.notification_hmac_key
          (req.header "X-Timestamp")
          id
          (req.header "X-Signature")
          req.body
          app.settings.notification_ttl_seconds
          (app.env.clock w.ticks)
        ≡ verified
      → app.match req.method req.path ≡ Endpoint.notifications
      → app.parse_notification req.body ≡ some n
      → is_notification n ≡ true
      → HasUniqueKeys EventRow.event_id w.store.processed_events
      → claim_of w.store (notification_key id) ≡ none
      → Served app.env id n w.sent (call_next app req w)
  unfolding call_next endpoint notifications
  call_next-Served n w signed routed parsed valid keys free = rw routed (
      subst (λ p. Served app.env id n w.sent (catch (λ _. p) by_exception w))
        (sym (
          authenticate_verified app.settings.notification_hmac_key id req.body
            (rest (app.parse_notification req.body)) w signed
          ∙ ap (λ o. rest o (record w { ticks = suc w.ticks })) parsed))
        (accepted-Served n (record w { ticks = suc w.ticks }) valid keys free))

  handled-Served :
      (request_id : Text) (n : Notification) (log : List Send) (p : Result Response × World)
      (w : World)
      → Served app.env id n log p
      → call_next app req w ≡ p
      → Served app.env id n log (handled app req request_id w)
  unfolding handled
  handled-Served request_id n log p w h e =
      subst (λ q. Served app.env id n log (((λ _. q) >>= observed app req request_id) w)) (sym e)
        (observed-Served request_id n log p w h)

-- Where the digests are lower-case hexadecimal, let a request be routed to the endpoint of
-- notifications, on a path that is not internal or on the internal port, with a well-formed event
-- identity; let its timestamp, of at most 4300 digits, be at most `notification_ttl_seconds` away
-- from the next two readings of the clock, its signature that of this timestamp, of the event and of
-- the body under the key of notifications, its body a notification within the limits, and its event
-- free, in a table of events with unique keys. Then the message of the notification is cut into chunks
-- that fit and hold it, less whitespace, and these are sent to the recipient of alerts in order, up to
-- the first that the sender refuses. Where the sender accepts all, the answer is a 202 that reports a
-- confirmed delivery, and the event is done with a confirmed row. Where it refuses one with a
-- GatewayError, the answer is the response of this error, and where it raises another exception, this
-- is raised; then the event is free again with a row that waits for a retry, or both have failed for
-- good, as the error is retryable or not. There is no other outcome.
pub request_observability-Served :
    (app : App) (req : Request) (n : Notification) (sent_at : ℕ) (w : World)
    → IsHexDigest app.crypto
    → app.match req.method req.path ≡ Endpoint.notifications
    → (is_internal req.url_path ≡ false) ⊎ (is_local app req ≡ true)
    → is_event_id (req.header "X-Event-ID") ≡ true
    → length (decimal sent_at) ≤ max_int_digits
    → ((t : ℕ)
        → w.ticks ≤ t
        → t ≤ suc w.ticks
        → (app.env.clock t ≤ sent_at + app.settings.notification_ttl_seconds)
          × (sent_at ≤ app.env.clock t + app.settings.notification_ttl_seconds))
    → req.header "X-Timestamp" ≡ decimal sent_at
    → req.header "X-Signature"
      ≡ sign_request app.crypto app.settings.notification_hmac_key
          (decimal sent_at)
          (req.header "X-Event-ID")
          req.body
    → app.parse_notification req.body ≡ some n
    → is_notification n ≡ true
    → HasUniqueKeys EventRow.event_id w.store.processed_events
    → claim_of w.store (notification_key (req.header "X-Event-ID")) ≡ none
    → Served app.env (req.header "X-Event-ID") n w.sent (request_observability app req w)
unfolding request_observability
request_observability-Served app req n sent_at w hex routed open_path identity readable near
      timestamp signature parsed valid keys free =
    let (new_id, t, after, before, e) = request_id-ok app req w in
    let v : World = record w { ticks = t } in
    let signed : verify_request app.crypto app.settings.notification_hmac_key
          (req.header "X-Timestamp") (req.header "X-Event-ID") (req.header "X-Signature") req.body
          app.settings.notification_ttl_seconds (app.env.clock v.ticks)
        ≡ verified =
      rw (timestamp, signature)
        (verify_request-sign_request app.crypto app.settings.notification_hmac_key
          (req.header "X-Event-ID") req.body app.settings.notification_ttl_seconds sent_at
          (app.env.clock v.ticks) hex identity readable (near t after before).0
          (near t after before).1) in
    let pass : (is_internal req.url_path && not (is_local app req)) ≡ false = elim open_path [
      | inl outside ↦ ground (arith, outside)
      | inr local ↦ ground (arith, local)
    ] in
    rw pass (
      subst
        (λ p. Served app.env (req.header "X-Event-ID") n w.sent (((λ _. p) >>= handled app req) w))
        (sym e)
        (handled-Served app req new_id n w.sent (call_next app req v) v
          (call_next-Served app req n v signed routed parsed valid keys free) refl))
