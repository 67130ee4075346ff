-- ===== src/Service/Concurrent/Alone.antt =====
-- A delivery that no other interrupts is a call of `deliver_notification` of
-- src/feishu_dify_gateway/service.py.
use feishu_dify_gateway.Base.{
  ℕ, zero, suc, ◌≡◌, refl, sym, ap, ◌∙◌, inl, inr, Bool, true, false, Option, none, some, List, [],
  ◌∷◌, Bool-cases,
}
use mathlib.Core.Path.{subst}
use feishu_dify_gateway.Text.{Text}
use feishu_dify_gateway.Errors.{Result}
use feishu_dify_gateway.Models.{Notification, NotificationAcceptedResponse, source_name}
use feishu_dify_gateway.Store.{claim_event}
use feishu_dify_gateway.Service.Monad.{
  Environment, World, SendOutcome, accepted, failed, send_result, ◌>>◌, catch,
}
use feishu_dify_gateway.Service.Split.{split_text}
use feishu_dify_gateway.Service.Sending.{chunk_limit, send_from, send_split, send_chunks}
use feishu_dify_gateway.Service.Attempt.{
  attempt, begin_attempt, delivery_failed, delivery_succeeded,
}
use feishu_dify_gateway.Service.Notifications.{
  notification_message, notification_succeeded, deliver_claimed, deliver_notification, deduplicated,
}
use feishu_dify_gateway.Service.Concurrent.{
  Task, ready, sending, returned, key, first_send, started, resumed, step, send_next,
}

module _ (env : Environment) (event_id : Text) (n : Notification) where
  -- So many steps of one coroutine, where the sender is that of the environment.
  unfoldable pub turns : ℕ → Task → World → Task × World
  turns zero t w = (t, w)
  turns (suc k) t w = let (t', w') = step env event_id n (env.send w.sent) t w in turns k t' w'

  turns-suc :
      (k : ℕ) (o : SendOutcome) (t : Task) (w : World)
      → env.send w.sent ≡ o
      → turns (suc k) t w ≡ turns k (step env event_id n o t w).0 (step env event_id n o t w).1
  unfolding turns
  turns-suc k o t w e =
      ap (λ (q : SendOutcome). turns k (step env event_id n q t w).0 (step env event_id n q t w).1)
        e

  -- What follows the `try` of the delivery, from the end of `_send_chunks`.
  abbrev after_sending : Result (Unit {0}) × World → Result NotificationAcceptedResponse × World
  after_sending p =
      (catch (λ _. p) (delivery_failed env (source_name n.source) event_id (key env event_id n))
          >> delivery_succeeded env event_id (key env event_id n)
          >> notification_succeeded env (source_name n.source) event_id)
        p.1

  -- The rest of the loop, from the call for chunk `index` on.
  abbrev loop : ℕ → List Text → World → Result (Unit {0}) × World
  loop index rest w =
      ((λ _. (send_result (env.send w.sent), w))
          >> send_from env env.feishu_alert_recipient_open_id (key env event_id n) (suc index) rest)
        w

  EndsAs : Task → World → Result NotificationAcceptedResponse × World → Type 0
  EndsAs t w p = (k : ℕ) × (turns k t w ≡ returned p)

  -- The loop, from an answer to chunk `index` on.
  abbrev answered : ℕ → List Text → SendOutcome → World → Result (Unit {0}) × World
  answered index rest o w =
      ((λ _. (send_result o, w))
          >> send_from env env.feishu_alert_recipient_open_id (key env event_id n) (suc index) rest)
        w

  last_answer-EndsAs :
      (index : ℕ) (o : SendOutcome) (w : World)
      → env.send w.sent ≡ o
      → EndsAs (sending index []) w (after_sending (answered index [] o w))
  unfolding EndsAs step resumed turns send_from
  last_answer-EndsAs index (failed exc) w e = (1, turns-suc 0 (failed exc) (sending index []) w e)
  last_answer-EndsAs index (accepted ref) w e =
      (1, turns-suc 0 (accepted ref) (sending index []) w e)

  answer-EndsAs :
      (index : ℕ) (c : Text) (cs : List Text) (o : SendOutcome) (w : World)
      → env.send w.sent ≡ o
      → (let v = (send_next env event_id n (suc index) c cs w).1 in
          EndsAs (sending (suc index) cs) v (after_sending (loop (suc index) cs v)))
      → EndsAs (sending index (c ∷ cs)) w (after_sending (answered index (c ∷ cs) o w))
  unfolding EndsAs step resumed turns send_from
  answer-EndsAs index c cs (failed exc) w e later =
      (1, turns-suc 0 (failed exc) (sending index (c ∷ cs)) w e)
  answer-EndsAs index c cs (accepted ref) w e (k, ends) =
      (suc k, turns-suc k (accepted ref) (sending index (c ∷ cs)) w e ∙ ends)

  sending-EndsAs :
      (index : ℕ) (rest : List Text) (w : World)
      → EndsAs (sending index rest) w (after_sending (loop index rest w))
  sending-EndsAs index [] w = last_answer-EndsAs index (env.send w.sent) w refl
  sending-EndsAs index (c ∷ cs) w =
      answer-EndsAs index c cs (env.send w.sent) w refl
        (sending-EndsAs (suc index) cs (send_next env event_id n (suc index) c cs w).1)

  first_send-EndsAs :
      (chunks : Option (List Text)) (w : World)
      → let (t, w') = first_send env event_id n chunks w in
        EndsAs t w' (
          after_sending
            (send_split env env.feishu_alert_recipient_open_id (key env event_id n) chunks w))
  unfolding EndsAs send_split send_from turns
  first_send-EndsAs none w = (0, refl)
  first_send-EndsAs (some []) w = (0, refl)
  first_send-EndsAs (some (c ∷ cs)) w = sending-EndsAs 0 cs _

  -- After the first step.
  begun :
      {t : Task} {v : World} (w : World) (p : Result NotificationAcceptedResponse × World)
      → started env event_id n w ≡ (t, v)
      → EndsAs t v p
      → EndsAs ready w p
  unfolding EndsAs turns step
  begun w p e (k, ends) = (suc k, ap (λ (q : Task × World). turns k q.0 q.1) e ∙ ends)

  -- The world after the claim, and after the start of the attempt.
  abbrev claimed_world : World → World
  claimed_world w = record w {
    store = (claim_event w.store (key env event_id n) (env.clock w.ticks)).1;
    ticks = suc w.ticks;
  }

  abbrev begun_world : World → World
  begun_world w = (begin_attempt env (source_name n.source) event_id (claimed_world w)).1

  abbrev Wins : Bool → World → Type 0
  Wins b w = (claim_event w.store (key env event_id n) (env.clock w.ticks)).0 ≡ b

  started_won :
      (w : World)
      → Wins true w
      → started env event_id n w
        ≡ first_send env event_id n
            (split_text (notification_message n) chunk_limit)
            (begun_world w)
  unfolding started
  started_won w e = rw e refl

  deliver_won :
      (w : World)
      → Wins true w
      → deliver_notification env event_id n w
        ≡ after_sending (
            send_split env env.feishu_alert_recipient_open_id
              (key env event_id n)
              (split_text (notification_message n) chunk_limit)
              (begun_world w))
  unfolding deliver_notification deliver_claimed attempt begin_attempt send_chunks
  deliver_won w e = rw e refl

  started_lost :
      (w : World)
      → Wins false w
      → started env event_id n w
        ≡ returned (deduplicated (source_name n.source) event_id (claimed_world w))
  unfolding started
  started_lost w e = rw e refl

  deliver_lost :
      (w : World)
      → Wins false w
      → deliver_notification env event_id n w
        ≡ deduplicated (source_name n.source) event_id (claimed_world w)
  unfolding deliver_notification
  deliver_lost w e = rw e refl

  -- Where no other delivery takes a turn and the sender answers as the environment says, the steps of a
  -- delivery come to an end, with the result and the world of a call of `deliver_notification`.
  pub turns-deliver_notification :
      (w : World) → (k : ℕ) × (turns k ready w ≡ returned (deliver_notification env event_id n w))
  unfolding EndsAs turns
  turns-deliver_notification w =
      elim (Bool-cases (claim_event w.store (key env event_id n) (env.clock w.ticks)).0) [
        | inl won ↦ subst (EndsAs ready w) (sym (deliver_won w won)) (
            begun w _ (started_won w won)
              (first_send-EndsAs (split_text (notification_message n) chunk_limit) (begun_world w)))
        | inr lost ↦
            subst (EndsAs ready w) (sym (deliver_lost w lost))
              (begun w _ (started_lost w lost) (0, refl))
      ]
