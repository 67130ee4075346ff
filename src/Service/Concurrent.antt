-- ===== src/Service/Concurrent.antt =====
-- Deliveries of notifications that run at the same time, as the event loop runs the coroutine
-- `deliver_notification` of src/feishu_dify_gateway/service.py: it gives way to others only at
-- `await self.sender.send_text(...)`, so a step goes from one such call to the next.
pub mod Alone
pub mod Turns
pub mod Exclusive
use feishu_dify_gateway.Base.{ℕ, suc, Option, none, some, List, [], ◌∷◌, ◌++◌, if◌then◌else◌}
use feishu_dify_gateway.Text.{Text}
use feishu_dify_gateway.Errors.{Exn, Result, diverged, gateway}
use feishu_dify_gateway.Models.{Notification, NotificationAcceptedResponse, source_name}
use feishu_dify_gateway.Store.{claim_event}
use feishu_dify_gateway.Service.Monad.{Environment, World, SendOutcome, accepted, failed, ◌>>◌}
use feishu_dify_gateway.Service.Split.{split_text}
use feishu_dify_gateway.Service.Sending.{chunk_key, chunk_limit, empty_message}
use feishu_dify_gateway.Service.Attempt.{begin_attempt, delivery_failed, delivery_succeeded}
use feishu_dify_gateway.Service.Notifications.{
  notification_key, notification_message, deduplicated, notification_succeeded,
}

-- Where a coroutine stands: not yet begun, at the call of the sender for chunk `index` with the
-- chunks after it, or at its end.
pub data Task : Type 0 where
  ready : Task
  sending : (index : ℕ) (rest : List Text) → Task
  finished : Result NotificationAcceptedResponse → Task

-- A request that `deliver_notification` serves.
pub record Job : Type 0 where
  pub event_id : Text
  pub notification : Notification
  pub task : Task

abbrev pub returned : Result NotificationAcceptedResponse × World → Task × World
returned (r, w) = (finished r, w)

module _ (env : Environment) (event_id : Text) (n : Notification) where
  abbrev pub key : Text
  key = notification_key event_id

  -- The call of the sender for a chunk.
  abbrev pub send_next : (index : ℕ) → Text → List Text → World → Task × World
  send_next index c cs w = (
    sending index cs,
    record w {
      sent =
          record {
            recipient = env.feishu_alert_recipient_open_id;
            text = c;
            idempotency_key = chunk_key env key index;
          }
          ∷ w.sent;
    },
  )

  -- The `except` block, and what follows the `try`.
  abbrev pub failing : Exn → World → Result NotificationAcceptedResponse × World
  failing exc =
      delivery_failed env (source_name n.source) event_id key exc
      >> delivery_succeeded env event_id key
      >> notification_succeeded env (source_name n.source) event_id

  -- What follows the `try` after the last chunk.
  abbrev pub succeeding : World → Result NotificationAcceptedResponse × World
  succeeding =
      delivery_succeeded env event_id key
      >> notification_succeeded env (source_name n.source) event_id

  abbrev pub first_send : Option (List Text) → World → Task × World
  first_send none w = (finished diverged, w)
  first_send (some []) w = returned (failing (gateway empty_message) w)
  first_send (some (c ∷ cs)) w = send_next 0 c cs w

  -- From the beginning to the first call of the sender.
  unfoldable pub started : World → Task × World
  started w =
      let (claimed, s) = claim_event w.store key (env.clock w.ticks) in
      let w1 = record w { store = s; ticks = suc w.ticks } in
      if claimed
      then first_send (split_text (notification_message n) chunk_limit)
          (begin_attempt env (source_name n.source) event_id w1).1
      else returned (deduplicated (source_name n.source) event_id w1)

  -- From the answer of the sender to its next call.
  unfoldable pub resumed : (index : ℕ) (rest : List Text) → SendOutcome → World → Task × World
  resumed index rest (failed exc) w = returned (failing exc w)
  resumed index [] (accepted ref) w = returned (succeeding w)
  resumed index (c ∷ cs) (accepted ref) w = send_next (suc index) c cs w

  -- One step, where `outcome` is what the sender answers if it is called.
  unfoldable pub step : (outcome : SendOutcome) → Task → World → Task × World
  unfolding started resumed
  step outcome ready w = started w
  step outcome (sending index rest) w = resumed index rest outcome w
  step outcome (finished r) w = (finished r, w)

-- The coroutines of the process, and the world they share.
abbrev pub System : Type 0
System = List Job × World

abbrev pub stepped : Environment → SendOutcome → Job → World → Job × World
stepped env outcome j w =
    let (t, w') = step env j.event_id j.notification outcome j.task w in (record j { task = t }, w')

-- The event loop lets any one coroutine take a step, and the sender answers in any way.
pub data Step (env : Environment) : System → System → Type 0 where
  take_turn :
      (before : List Job) (j : Job) (after : List Job) (w : World) (outcome : SendOutcome)
      → Step env
          (before ++ j ∷ after, w)
          (before ++ (stepped env outcome j w).0 ∷ after, (stepped env outcome j w).1)

-- A run of the event loop.
pub data Reaches (env : Environment) : System → System → Type 0 where
  here : (s : System) → Reaches env s s
  there : (s t u : System) → Reaches env s t → Step env t u → Reaches env s u
