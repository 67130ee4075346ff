-- ===== src/Feishu/Ingress.antt =====
-- `AdministrativeIngressClient.send_metadata` of src/feishu_dify_gateway/feishu.py. The payload is
-- the JSON text of `metadata.provider_envelope()`; the waits between two attempts are not
-- modelled. The shared secret is taken to be ASCII: a header that is not is an exception of httpx that
-- is no RequestError, which is not modelled.
pub mod Attempts
use feishu_dify_gateway.Base.{
  ℕ, zero, suc, Bool, not, ◌&&◌, ◌||◌, List, ◌∷◌, leb, ◌==◌, if◌then◌else◌,
}
use feishu_dify_gateway.Text.{Text, strip, is_blank}
use feishu_dify_gateway.Errors.{GatewayError, Result, ok, raised, gateway}

-- How a POST with ASCII headers ends: with an httpx.RequestError, or with a response of some status.
pub data Answer : Type 0 where
  unreachable : Answer
  status : ℕ → Answer

-- RETRYABLE_HTTP_STATUSES
unfoldable pub is_retryable_http : ℕ → Bool
is_retryable_http s = s == 429 || s == 500 || s == 502 || s == 503 || s == 504

abbrev pub auth_unavailable : GatewayError
auth_unavailable = record {
  code = "ADMIN_INGRESS_AUTH_UNAVAILABLE";
  safe_message = "Administrative ingress transport authentication is unavailable";
  status_code = 503;
}

abbrev pub ingress_rejected : ℕ → GatewayError
ingress_rejected s = record {
  code = "ADMIN_INGRESS_REJECTED";
  safe_message = "Administrative ingress rejected the event";
  status_code = if leb 400 s then s else 502;
}

abbrev pub ingress_unavailable : GatewayError
ingress_unavailable = record {
  code = "ADMIN_INGRESS_UNAVAILABLE";
  safe_message = "Administrative ingress is unavailable";
  status_code = 503;
}

-- One POST: the value of X-Administrative-Ingress-Token, and the payload.
pub record Post : Type 0 where
  pub token : Text
  pub payload : Text

-- The result, and the posts made, the latest first.
abbrev pub Run : Type 0
Run = Result (Unit {0}) × List Post

-- What follows an answer, where `left` attempts are left and `rest` is what they do.
unfoldable pub after_answer : Answer → (left : ℕ) (rest : Run) → List Post → Run
unfolding is_retryable_http
after_answer unreachable left rest log = rest
after_answer (status s) left rest log =
    if s == 202
    then (ok tt, log)
    else if is_retryable_http s && not (left == 0)
    then rest
    else (raised (gateway (ingress_rejected s)), log)

-- The loop, with so many attempts left. `answer` is the answer to the latest of the posts made.
unfoldable pub attempts : (answer : List Post → Answer) → Post → (left : ℕ) → List Post → Run
unfolding after_answer
attempts answer post zero log = (raised (gateway ingress_unavailable), log)
attempts answer post (suc left) log =
    let rest = attempts answer post left (post ∷ log) in
    after_answer (answer (post ∷ log)) left rest (post ∷ log)

-- `shared_secret` as the constructor is given it.
unfoldable pub send_metadata :
    (answer : List Post → Answer) (shared_secret : Text) (max_attempts : ℕ) (payload : Text)
    → List Post
    → Run
unfolding attempts
send_metadata answer shared_secret max_attempts payload log =
    let token = strip shared_secret in
    if is_blank token
    then (raised (gateway auth_unavailable), log)
    else attempts answer (record { token = token; payload = payload }) max_attempts log
