-- ===== src/Feishu/Sender.antt =====
-- `FeishuSender` of src/feishu_dify_gateway/feishu.py. The waits between two attempts, and the
-- histogram of durations, are not modelled; a time is a whole second. The token is taken to be ASCII:
-- a header that is not is an exception of httpx that is no RequestError, which is not modelled.
pub mod Token
pub mod Delivery
pub mod Unauthorized
use feishu_dify_gateway.Base.{
  ℕ, zero, suc, ◌+◌, ◌-◌, max, String, Bool, true, false, not, ◌&&◌, ◌||◌, Option, none, some, List,
  [], ◌∷◌, ltb, leb, ◌==◌, if◌then◌else◌,
}
use feishu_dify_gateway.Text.{Text, is_blank}
use feishu_dify_gateway.Errors.{
  GatewayError, Exn, Result, ok, raised, diverged, gateway, gateway_error,
}
use feishu_dify_gateway.Metrics.{Update, Metrics}
use feishu_dify_gateway.Feishu.Ingress.{is_retryable_http}

-- A response: its status, whether `raise_for_status` returns, and the model that
-- `model_validate(response.json())` returns; `none` is a ValueError or a ValidationError.
pub record Reply (A : Type 0) : Type 0 where
  pub status_code : ℕ
  pub is_success : Bool
  pub parsed : Option A

-- How a POST with ASCII headers ends: with an httpx.RequestError, or with a response.
pub data Posted (A : Type 0) : Type 0 where
  unreachable : Posted A
  responded : Reply A → Posted A

-- `code_is_zero` is `code == 0`; a negative `expire` counts as 0.
pub record FeishuTokenResponse : Type 0 where
  pub code_is_zero : Bool
  pub tenant_access_token : Option Text
  pub expire : ℕ

-- `message_id` is `data["message_id"]`, where `data` has it and it is a text.
pub record FeishuMessageResponse : Type 0 where
  pub code_is_zero : Bool
  pub message_id : Option Text

-- One POST of a message.
pub record Message : Type 0 where
  pub token : Text
  pub receive_id : Text
  pub text : Text
  pub uuid : Text

-- The provider, whose answers may depend on all that was posted before, and the clock.
pub record Provider : Type 0 where
  pub clock : ℕ → ℕ
  pub authenticate : (posts : ℕ) → Posted FeishuTokenResponse
  pub deliver : List Message → Posted FeishuMessageResponse

-- The sender: the cached token, the number of token requests and the messages posted, the latest
-- first.
pub record Session : Type 0 where
  pub token : Text
  pub token_expires_at : ℕ
  pub token_posts : ℕ
  pub posts : List Message
  pub metrics : Metrics
  pub ticks : ℕ

abbrev pub Run : Type 0 → Type 0
Run A = Result A × Session

-- `_provider_status_code`
unfoldable pub provider_status_code : ℕ → ℕ
provider_status_code s = if leb 400 s then s else 422

abbrev pub failed_with : (code message : String) (status_code : ℕ) → Exn
failed_with code message status_code =
    gateway (record { code = code; safe_message = message; status_code = status_code })

abbrev pub auth_failed : ℕ → Exn
auth_failed s = failed_with "FEISHU_AUTH_FAILED" "Feishu authentication failed" s

-- The clock is read also where there is no token.
-- `self._token and time.time() < self._token_expires_at`
abbrev pub is_cached : Provider → Session → Bool
is_cached p s = not (is_blank s.token) && ltb (p.clock s.ticks) s.token_expires_at

abbrev pub tick : Session → Session
tick s = record s { ticks = suc s.ticks }

-- The new token is cached.
abbrev pub cache : Provider → Text → (expire : ℕ) → Session → Session
cache p token expire s = record s {
  token = token;
  token_expires_at = p.clock s.ticks + max 60 (expire - 60);
  ticks = suc s.ticks;
}

abbrev pub or_blank : Option Text → Text
or_blank none = []
or_blank (some t) = t

-- What a parsed response does.
abbrev pub accept_token : Provider → ℕ → FeishuTokenResponse → Session → Run Text
accept_token p status r s =
    let token = or_blank r.tenant_access_token in
    if not r.code_is_zero || is_blank token
    then (raised (auth_failed (provider_status_code status)), s)
    else (ok token, cache p token r.expire s)

abbrev pub parsed_token :
    Provider → Reply FeishuTokenResponse → Option FeishuTokenResponse → Session → Run Text
parsed_token p r none s = (raised (auth_failed (provider_status_code r.status_code)), s)
parsed_token p r (some t) s = accept_token p r.status_code t s

-- What follows an answer, where `left` attempts are left and `rest` is what they do.
unfoldable pub after_token :
    Provider → Posted FeishuTokenResponse → (left : ℕ) (rest : Run Text) → Session → Run Text
unfolding is_retryable_http provider_status_code
after_token p unreachable left rest s = rest
after_token p (responded r) left rest s =
    if is_retryable_http r.status_code && not (left == 0)
    then rest
    else if r.is_success
    then parsed_token p r r.parsed s
    else (raised (auth_failed (provider_status_code r.status_code)), s)

abbrev pub token_posted : Session → Session
token_posted s = record s { token_posts = suc s.token_posts }

unfoldable pub token_attempts : Provider → (left : ℕ) → Session → Run Text
unfolding after_token
token_attempts p zero s = (raised (auth_failed 502), s)
token_attempts p (suc left) s =
    let rest = token_attempts p left (token_posted s) in
    after_token p (p.authenticate (suc s.token_posts)) left rest (token_posted s)

-- The cache is looked at again under the lock.
unfoldable pub access_token : Provider → (max_attempts : ℕ) → Session → Run Text
unfolding token_attempts
access_token p max_attempts s =
    if is_cached p s
    then (ok s.token, tick s)
    else if is_cached p (tick s)
    then (ok s.token, tick (tick s))
    else token_attempts p max_attempts (tick (tick s))

-- `message_id if isinstance(message_id, str) and message_id else None`
abbrev pub provider_ref : Option Text → Option Text
provider_ref none = none
provider_ref (some t) = if is_blank t then none else some t

abbrev pub send_failed : ℕ → Exn
send_failed s = failed_with "FEISHU_SEND_FAILED" "Feishu message delivery failed" s

abbrev pub send_rejected : ℕ → Exn
send_rejected s = failed_with "FEISHU_SEND_FAILED" "Feishu rejected the message" s

abbrev pub parsed_message :
    Reply FeishuMessageResponse → Option FeishuMessageResponse → Session → Run (Option Text)
parsed_message r none s = (raised (send_failed (provider_status_code r.status_code)), s)
parsed_message r (some m) s =
    if m.code_is_zero
    then (ok (provider_ref m.message_id), s)
    else (raised (send_rejected (provider_status_code r.status_code)), s)

-- A 401 clears the cached token.
abbrev pub clear_on_401 : ℕ → Session → Session
clear_on_401 status s = if status == 401 then record s { token = []; token_expires_at = 0 } else s

unfoldable pub after_message :
    Posted FeishuMessageResponse
    → (left : ℕ) (rest : Session → Run (Option Text)) → Session
    → Run (Option Text)
unfolding is_retryable_http provider_status_code
after_message unreachable left rest s = rest s
after_message (responded r) left rest s =
    let s' = clear_on_401 r.status_code s in
    if is_retryable_http r.status_code && not (left == 0)
    then rest s'
    else if r.is_success
    then parsed_message r r.parsed s'
    else (raised (send_failed (provider_status_code r.status_code)), s')

abbrev pub message_posted : Message → Session → Session
message_posted m s = record s { posts = m ∷ s.posts }

-- The POST of one attempt, once there is a token, and what follows it.
unfoldable pub post_message :
    Provider
    → (recipient_open_id text idempotency_key token : Text) → (left : ℕ)
    → (rest : Session → Run (Option Text)) → Session
    → Run (Option Text)
unfolding after_message
post_message p recipient_open_id text idempotency_key token left rest s =
    let m : Message = record {
      token = token;
      receive_id = recipient_open_id;
      text = text;
      uuid = idempotency_key;
    } in
    after_message (p.deliver (m ∷ s.posts)) left rest (message_posted m s)

-- What the result of `_access_token` does to an attempt.
abbrev pub with_token : Run Text → (Text → Session → Run (Option Text)) → Run (Option Text)
with_token (ok token, s) k = k token s
with_token (raised exc, s) k = (raised exc, s)
with_token (diverged, s) k = (diverged, s)

unfoldable pub message_attempts :
    Provider
    → (max_attempts : ℕ) → (recipient_open_id text idempotency_key : Text) → (left : ℕ) → Session
    → Run (Option Text)
unfolding post_message
message_attempts p max_attempts recipient_open_id text idempotency_key zero s =
    (raised (send_failed 502), s)
message_attempts p max_attempts recipient_open_id text idempotency_key (suc left) s =
    with_token (access_token p max_attempts s) (λ token.
      post_message p recipient_open_id text idempotency_key token left
        (message_attempts p max_attempts recipient_open_id text idempotency_key left))

-- `except GatewayError`, and the counter of a success. Within this model every exception is a
-- GatewayError.
abbrev pub counted : Run (Option Text) → Run (Option Text)
counted (ok ref, s) =
    (ok ref, record s { metrics = Update.external_requests "feishu" "success" ∷ s.metrics })
counted (raised exc, s) =
    (raised exc, record s { metrics = Update.external_requests "feishu" "error" ∷ s.metrics })
counted (diverged, s) = (diverged, s)

unfoldable pub send_text :
    Provider
    → (max_attempts : ℕ) → (recipient_open_id text idempotency_key : Text) → Session
    → Run (Option Text)
unfolding message_attempts
send_text p max_attempts recipient_open_id text idempotency_key s =
    counted (message_attempts p max_attempts recipient_open_id text idempotency_key max_attempts s)

-- `ready()`
unfoldable pub ready : Provider → (max_attempts : ℕ) → Session → Bool × Session
ready p max_attempts s =
    let (r, s') = access_token p max_attempts s in
    elim r [ ok token ↦ (true, s') | raised exc ↦ (false, s') | diverged ↦ (false, s') ]
