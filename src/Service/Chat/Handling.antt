-- ===== src/Service/Chat/Handling.antt =====
-- What `handle_feishu_text` of src/feishu_dify_gateway/service.py does for each message.
use feishu_dify_gateway.Base.{
  suc, ◌≡◌, refl, sym, ap, ◌∙◌, ◌≢◌, ◌⊎◌, inl, inr, Bool, true, none, some, List, ◌∷◌,
  if◌then◌else◌,
}
use feishu_dify_gateway.Text.{Text, is_ascii, same_refl, same_iff}
use feishu_dify_gateway.Service.Monad.{
  Environment, World, answer, ControlRequest, ◌>>=◌, pure, catch, ◌>>◌, gather,
}
use feishu_dify_gateway.Errors.{Exn, Result, ok, diverged, raised}
use feishu_dify_gateway.Service.Chat.{
  reply_to, run_plan, chat_key, handle_feishu_text, chat_claimed, handle_allowed, say, ask,
  chat_failed, chat_succeeded,
}
use feishu_dify_gateway.Service.Commands.Allowed.{IsAllowed, Plans, command_or_chat-IsAllowed}
use feishu_dify_gateway.Table.Laws.{HasUniqueKeys}
use feishu_dify_gateway.Service.Commands.{Plan, command_or_chat}
use feishu_dify_gateway.Service.Sending.{send_chunks}
use feishu_dify_gateway.Store.Claims.{claim_of}
use feishu_dify_gateway.Service.Sending.Sends.{send_chunks-OnlySends}
use feishu_dify_gateway.Store.{EventStatus, EventRow}
use feishu_dify_gateway.Store.Views.{
  claim_event_held, claim_event_free, claim_event-HasUniqueKeys, claim_of-mark_processed,
  release_event_processing,
}
use feishu_dify_gateway.Service.Replies.{status_reply, usage, alerts_reply, help}
use feishu_dify_gateway.Service.Commands.{show_status, show_alerts}

-- From `w` to `w'` at most one request was made of the control plane, and only one that a message
-- may make.
abbrev pub AsksOnce : World → World → Type 0
AsksOnce w w' =
    (w'.requests ≡ w.requests)
    ⊎ ((r : ControlRequest) × (w'.requests ≡ r ∷ w.requests) × IsAllowed r)

-- A computation that may ask the control plane once, and writes nothing.
record Asks {A : Type 0} (w : World) (p : Result A × World) : Type 0 where
  store : p.1.store ≡ w.store
  asks : AsksOnce w p.1
  ends : p.0 ≢ diverged

answer-ends : {A : Type 0} (a : Exn ⊎ A) → answer a ≢ diverged
answer-ends (inl exc) = λ e. cc
answer-ends (inr a) = λ e. cc

module _ (env : Environment) where
  run_plan-Asks : (plan : Plan) (w : World) → Plans plan → Asks w (run_plan env plan w)
  unfolding run_plan
  run_plan-Asks (say text) w h = record { store = refl; asks = inl refl; ends = λ e. cc }
  run_plan-Asks (ask r) w h = record {
    store = refl;
    asks = inr (r, refl, h);
    ends = answer-ends (env.control_plane (r ∷ w.requests));
  }
  run_plan-Asks show_status w h =
      go (gather (env.feishu_ready w.ticks) (env.prometheus_ready w.ticks))
    where
      w' : World
      w' = record w { ticks = suc w.ticks }

      go :
          (a : Exn ⊎ (Bool × Bool))
          → Asks w (((λ _. (answer a, w')) >>= λ up. pure (status_reply up)) w)
      go (inl exc) = record { store = refl; asks = inl refl; ends = λ e. cc }
      go (inr up) = record { store = refl; asks = inl refl; ends = λ e. cc }
  run_plan-Asks show_alerts w h = go (env.active_alerts w.ticks)
    where
      w' : World
      w' = record w { ticks = suc w.ticks }

      go :
          (a : Exn ⊎ List (Text × Text))
          → Asks w (((λ _. (answer a, w')) >>= λ alerts. pure (alerts_reply alerts)) w)
      go (inl exc) = record { store = refl; asks = inl refl; ends = λ e. cc }
      go (inr alerts) = record { store = refl; asks = inl refl; ends = λ e. cc }

  reply_to-Asks : (key open_id text : Text) (w : World) → Asks w (reply_to env key open_id text w)
  unfolding reply_to
  reply_to-Asks key open_id text w =
      go (run_plan env (command_or_chat env.lower usage help text) w) (
        run_plan-Asks (command_or_chat env.lower usage help text) w
          (command_or_chat-IsAllowed env.lower usage help text))
    where
      go :
          (p : Result Text × World)
          → Asks w p
          → Asks w (((λ _. p) >>= λ reply. send_chunks env open_id reply key) w)
      go (ok reply, w1) h =
          let sent = send_chunks-OnlySends env open_id key reply w1 in
          record { store = sent.store ∙ h.store; asks = rw sent.requests h.asks; ends = sent.ends }
      go (raised exc, w1) h = record { store = h.store; asks = h.asks; ends = λ e. cc }
      go (diverged, w1) h = absurd (h.ends refl)

-- The outcome of a message whose event was free.
abbrev pub Answers : (key : Text) → World → Result (Unit {0}) × World → Type 0
Answers key w (ok _, w') = (claim_of w'.store key ≡ some EventStatus.delivered) × AsksOnce w w'
Answers key w (raised exc, w') = (claim_of w'.store key ≡ none) × AsksOnce w w'
Answers key w (diverged, w') = ⊥

module _ (env : Environment) (event_id open_id text : Text) where
  abbrev key : Text
  key = chat_key env event_id

  chat_claimed-Answers :
      (w : World)
      → HasUniqueKeys EventRow.event_id w.store.processed_events
      → claim_of w.store key ≡ some EventStatus.processing
      → Answers key w (chat_claimed env key open_id text w)
  unfolding chat_claimed
  chat_claimed-Answers w keys held =
      go (reply_to env key open_id text w) (reply_to-Asks env key open_id text w)
    where
      go :
          (p : Result (Unit {0}) × World)
          → Asks w p
          → Answers key w ((catch (λ _. p) (chat_failed env key) >> chat_succeeded env key) w)
      go (ok _, w1) h =
          unfold chat_succeeded in
          (
            claim_of-mark_processed w1.store key key EventStatus.delivered (env.clock w1.ticks)
                  (rw h.store keys)
                ∙ ap (λ b. if b then some EventStatus.delivered else claim_of w1.store key)
                    (same_refl key),
            h.asks,
          )
      go (raised exc, w1) h =
          unfold chat_failed in
          (release_event_processing w1.store key (rw h.store keys) (rw h.store held), h.asks)
      go (diverged, w1) h = absurd (h.ends refl)

  -- In a table of events with unique keys, a message of the allowed user, whose identity is ASCII,
  -- makes at most one request of the control plane where its event is free, and one that
  -- `IsAllowed` lists. Where the handler returns the event is done; where it raises, the event is
  -- free again. There is no other outcome.
  pub handle_feishu_text-Answers :
      (w : World)
      → is_ascii open_id ≡ true
      → open_id ≡ env.feishu_allowed_open_id
      → HasUniqueKeys EventRow.event_id w.store.processed_events
      → claim_of w.store key ≡ none
      → Answers key w (handle_feishu_text env event_id open_id text w)
  unfolding handle_feishu_text handle_allowed
  handle_feishu_text-Answers w ascii allowed keys free =
      let now = env.clock w.ticks in
      let (won, held) = claim_event_free w.store key now keys free in
      let allowed_ascii = ap is_ascii (sym allowed) ∙ ascii in
      let alike = (same_iff open_id env.feishu_allowed_open_id).1 allowed in
      rw (ascii, allowed_ascii, alike, won)
        (chat_claimed-Answers _ (claim_event-HasUniqueKeys w.store key now keys) held)

  -- A message of the allowed user, whose identity is ASCII, is not handled where its event is
  -- claimed or done: the handler returns, nothing is sent or asked, and the store does not change.
  pub handle_feishu_text_duplicate :
      (w : World)
      → is_ascii open_id ≡ true
      → open_id ≡ env.feishu_allowed_open_id
      → claim_of w.store key ≢ none
      → let (r, w') = handle_feishu_text env event_id open_id text w in
        (r ≡ ok tt) × (w'.sent ≡ w.sent) × (w'.requests ≡ w.requests) × (w'.store ≡ w.store)
  unfolding handle_feishu_text handle_allowed
  handle_feishu_text_duplicate w ascii allowed held =
      let allowed_ascii = ap is_ascii (sym allowed) ∙ ascii in
      let alike = (same_iff open_id env.feishu_allowed_open_id).1 allowed in
      rw (ascii, allowed_ascii, alike, claim_event_held w.store key (env.clock w.ticks) held)
        (refl, refl, refl, refl)
