-- ===== src/Feishu/Sender/Unauthorized.antt =====
-- A token that the provider refuses, in `send_text` of src/feishu_dify_gateway/feishu.py, and what
-- `_delivery_failure` of src/feishu_dify_gateway/service.py makes of the error.
use feishu_dify_gateway.Base.{
  ℕ, zero, suc, ◌≤◌, ◌≡◌, refl, true, false, Option, [], ◌∷◌, arith, List,
}
use feishu_dify_gateway.Text.{Text}
use feishu_dify_gateway.Errors.{ok, diverged, raised, ok}
use feishu_dify_gateway.Service.Sending.{is_retryable}
use feishu_dify_gateway.Feishu.Ingress.{is_retryable_http}
use feishu_dify_gateway.Feishu.Sender.{
  counted, Reply, responded, FeishuMessageResponse, Provider, Session, is_cached, send_failed,
  after_message, post_message, message_attempts, send_text, access_token, provider_status_code, Run,
  tick, Message,
}

-- What a run ends with where the token is refused, and what it has posted.
record IsRefused (posts : List Message) (r : Run (Option Text)) : Type 0 where
  result : r.0 ≡ raised (send_failed 401)
  cleared : r.1.token ≡ []
  posted : r.1.posts ≡ posts

cached_token :
    (p : Provider) (n : ℕ) (s : Session)
    → is_cached p s ≡ true
    → access_token p n s ≡ (ok s.token, tick s)
unfolding access_token
cached_token p n s hit = rw hit refl

after_401 :
    (r : Reply FeishuMessageResponse) (left : ℕ) (rest : Session → Run (Option Text)) (s : Session)
    → r.status_code ≡ 401
    → r.is_success ≡ false
    → IsRefused s.posts (after_message (responded r) left rest s)
unfolding after_message is_retryable_http provider_status_code
after_401 r left rest s status failure =
    rw (status, failure) (record { result = refl; cleared = refl; posted = refl })

counted-IsRefused :
    (posts : List Message) (r : Run (Option Text)) → IsRefused posts r → IsRefused posts (counted r)
counted-IsRefused posts (ok ref, s) h = record {
  result = h.result;
  cleared = h.cleared;
  posted = h.posted;
}
counted-IsRefused posts (raised exc, s) h = record {
  result = h.result;
  cleared = h.cleared;
  posted = h.posted;
}
counted-IsRefused posts (diverged, s) h = record {
  result = h.result;
  cleared = h.cleared;
  posted = h.posted;
}

attempts-IsRefused :
    (p : Provider) (n left : ℕ) (recipient_open_id text idempotency_key : Text) (s : Session)
    (r : Reply FeishuMessageResponse)
    → is_cached p s ≡ true
    → p.deliver (
        record {
          token = s.token;
          receive_id = recipient_open_id;
          text = text;
          uuid = idempotency_key;
        }
        ∷ s.posts)
      ≡ responded r
    → r.status_code ≡ 401
    → r.is_success ≡ false
    → IsRefused
        (record {
          token = s.token;
          receive_id = recipient_open_id;
          text = text;
          uuid = idempotency_key;
        }
          ∷ s.posts)
        (message_attempts p n recipient_open_id text idempotency_key (suc left) s)
unfolding message_attempts post_message
attempts-IsRefused p n left to text key s r hit answered status failure =
    rw (cached_token p n s hit, answered)
      (after_401 r left (message_attempts p n to text key left) _ status failure)

-- Where the cached token has not expired, at least one attempt is allowed and the provider answers
-- the message with a 401 and no success, `send_text` forgets the token and raises
-- FEISHU_SEND_FAILED with the status 401. The message is posted once, however many attempts are
-- allowed, and `_delivery_failure` takes the error for one that no retry can mend.
pub send_text_unauthorized :
    (p : Provider) (max_attempts : ℕ) (recipient_open_id text idempotency_key : Text) (s : Session)
    (r : Reply FeishuMessageResponse)
    → is_cached p s ≡ true
    → 1 ≤ max_attempts
    → p.deliver (
        record {
          token = s.token;
          receive_id = recipient_open_id;
          text = text;
          uuid = idempotency_key;
        }
        ∷ s.posts)
      ≡ responded r
    → r.status_code ≡ 401
    → r.is_success ≡ false
    → let q = send_text p max_attempts recipient_open_id text idempotency_key s in
      (q.0 ≡ raised (send_failed 401))
      × (q.1.token ≡ [])
      × (q.1.posts
          ≡ record {
            token = s.token;
            receive_id = recipient_open_id;
            text = text;
            uuid = idempotency_key;
          }
            ∷ s.posts)
      × (is_retryable (send_failed 401) ≡ false)
unfolding send_text message_attempts post_message is_retryable
send_text_unauthorized p zero to text key s r hit positive answered status failure =
    absurd (omega (arith, positive))
send_text_unauthorized p (suc left) to text key s r hit positive answered status failure =
    let refused =
      counted-IsRefused _ (message_attempts p (suc left) to text key (suc left) s)
        (attempts-IsRefused p (suc left) left to text key s r hit answered status failure) in
    (refused.result, refused.cleared, refused.posted, refl)
