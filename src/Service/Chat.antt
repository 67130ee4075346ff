-- ===== src/Service/Chat.antt =====
-- `GatewayService.handle_feishu_text` of src/feishu_dify_gateway/service.py. The hash of the user is
-- computed and passed on there, but nothing reads it.
pub mod Handling
use feishu_dify_gateway.Base.{Bool, ◌&&◌, ◌++◌, if◌then◌else◌}
use feishu_dify_gateway.Service.Monad.{
  Action, Environment, inc, catch, ◌>>◌, pure, modify, request, raise, ◌>>=◌, time, readiness,
  active_alerts,
}
use feishu_dify_gateway.Service.Commands.{Plan, command_or_chat, say, ask}
use feishu_dify_gateway.Text.{Text, codes, is_ascii, same}
use feishu_dify_gateway.Errors.{Exn, other}
use feishu_dify_gateway.Service.Replies.{usage, help, status_reply, alerts_reply}
use feishu_dify_gateway.Store.{release_event, mark_processed, EventStatus}
use feishu_dify_gateway.Service.Sending.{send_chunks}
use feishu_dify_gateway.Service.Attempt.{claim}
use feishu_dify_gateway.Metrics.{Update}
use feishu_dify_gateway.Service.Commands.{Plan, say, ask, show_status, show_alerts}

-- What a plan does: it is a reply, or one request or query that gives the reply.
pub run_plan : Environment → Plan → Action Text
run_plan env (say text) = pure text
run_plan env (ask r) = request env r
run_plan env show_status = do up ← readiness env; pure (status_reply up)
run_plan env show_alerts = do alerts ← active_alerts env; pure (alerts_reply alerts)

-- The `try` block.
unfoldable pub reply_to : Environment → (key open_id text : Text) → Action (Unit {0})
unfolding run_plan
reply_to env key open_id text =
    run_plan env (command_or_chat env.lower usage help text) >>= λ reply.
    send_chunks env open_id reply key

-- The `except` block.
pub chat_failed : Environment → (key : Text) → Exn → Action (Unit {0})
chat_failed env key exc = do
  modify (λ s. release_event s key)
  inc (Update.deliveries "feishu-chat" "error")
  raise exc

pub chat_succeeded : Environment → (key : Text) → Action (Unit {0})
chat_succeeded env key = do
  now ← time env
  modify (λ s. mark_processed s key EventStatus.delivered now)
  inc (Update.deliveries "feishu-chat" "success")
  later ← time env
  inc (Update.last_success "chat" later)

-- The claim is won.
pub chat_claimed : Environment → (key open_id text : Text) → Action (Unit {0})
unfolding chat_failed chat_succeeded
chat_claimed env key open_id text =
    catch (reply_to env key open_id text) (chat_failed env key) >> chat_succeeded env key

unfoldable pub chat_key : Environment → Text → Text
chat_key env event_id = codes "feishu:" ++ env.sha256 event_id

-- `hmac.compare_digest(open_id, self.settings.feishu_allowed_open_id)`, which raises TypeError
-- unless both texts are ASCII.
abbrev pub is_allowed : Environment → (open_id : Text) → Action Bool
is_allowed env open_id =
    if is_ascii open_id && is_ascii env.feishu_allowed_open_id
    then pure (same open_id env.feishu_allowed_open_id)
    else raise other

-- An event that is claimed or done.
abbrev pub chat_deduplicated : Action (Unit {0})
chat_deduplicated = inc (Update.deliveries "feishu-chat" "deduplicated")

pub handle_allowed : Environment → (event_id open_id text : Text) → Action (Unit {0})
unfolding chat_claimed
handle_allowed env event_id open_id text = do
  claimed ← claim env (chat_key env event_id)
  if claimed then chat_claimed env (chat_key env event_id) open_id text else chat_deduplicated

unfoldable pub handle_feishu_text : Environment → (event_id open_id text : Text) → Action (Unit {0})
unfolding handle_allowed
handle_feishu_text env event_id open_id text = do
  allowed ← is_allowed env open_id
  if allowed
      then handle_allowed env event_id open_id text
      else inc (Update.deliveries "feishu-chat" "forbidden")
