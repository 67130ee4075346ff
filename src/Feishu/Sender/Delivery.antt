-- ===== src/Feishu/Sender/Delivery.antt =====
-- What `send_text` of src/feishu_dify_gateway/feishu.py posts, and how it ends.
use feishu_dify_gateway.Base.{
  ℕ, zero, suc, ◌≤◌, ◌≡◌, refl, sym, ap, ◌∙◌, ◌≢◌, inl, inr, true, not, ◌&&◌, Option, none, some,
  List, [], ◌∷◌, ◌++◌, append_assoc, arith, ◌==◌, Bool-cases, All, length, length-append,
  All-append,
}
use feishu_dify_gateway.Text.{Text}
use feishu_dify_gateway.Errors.{Result, ok, raised, diverged}
use feishu_dify_gateway.Metrics.{Update}
use feishu_dify_gateway.Feishu.Ingress.{is_retryable_http}
use feishu_dify_gateway.Feishu.Sender.{
  Reply, Posted, unreachable, responded, FeishuMessageResponse, Provider, Session, Run, Message,
  send_failed, provider_ref, parsed_message, clear_on_401, after_message, message_posted,
  post_message, with_token, message_attempts, counted, send_text, access_token,
}
use feishu_dify_gateway.Feishu.Sender.Token.{
  IsProviderError, provider_status_code-le, Fetches, access_token-Fetches,
}

-- The provider has accepted the last post and named the message `ref`.
pub record IsAccepted (p : Provider) (ref : Option Text) (posts : List Message) : Type 0 where
  pub reply : Reply FeishuMessageResponse
  pub model : FeishuMessageResponse
  pub answered : p.deliver posts ≡ responded reply
  pub success : reply.is_success ≡ true
  pub parsed : reply.parsed ≡ some model
  pub code : model.code_is_zero ≡ true
  pub named : ref ≡ provider_ref model.message_id

-- How a call ends: the provider has accepted the last post, or a GatewayError is raised.
abbrev pub Ends : Provider → Run (Option Text) → Type 0
Ends p (ok ref, s) = IsAccepted p ref s.posts
Ends p (raised exc, s) = IsProviderError exc
Ends p (diverged, s) = ⊥

-- The count of an outcome.
abbrev pub outcome : Result (Option Text) → Update
outcome (ok ref) = Update.external_requests "feishu" "success"
outcome (raised exc) = Update.external_requests "feishu" "error"
outcome diverged = Update.external_requests "feishu" "error"

module _ (p : Provider) (recipient_open_id text idempotency_key : Text) where
  -- A post of the message, under the idempotency key, with some token.
  pub record IsPost (m : Message) : Type 0 where
    pub to : m.receive_id ≡ recipient_open_id
    pub content : m.text ≡ text
    pub key : m.uuid ≡ idempotency_key
    pub authorized : m.token ≢ []

  -- From `s`, with at most `n` posts of the message.
  pub record Delivers (s : Session) (n : ℕ) (r : Run (Option Text)) : Type 0 where
    pub ends : Ends p r
    pub new : List Message
    pub few : length new ≤ n
    pub alike : All IsPost new
    pub posts : r.1.posts ≡ new ++ s.posts
    pub metrics : r.1.metrics ≡ s.metrics

  -- A run after one more post.
  Delivers-posted :
      {u : Session} {n : ℕ} {r : Run (Option Text)} (s : Session) (m : Message)
      → IsPost m
      → u.posts ≡ m ∷ s.posts
      → u.metrics ≡ s.metrics
      → Delivers u n r
      → Delivers s (suc n) r
  Delivers-posted {u} s m is_post posts metrics d = record {
    ends = d.ends;
    new = d.new ++ m ∷ [];
    few = omega (arith, length-append {0} d.new (m ∷ []), d.few);
    alike = All-append IsPost d.new (m ∷ []) d.alike (is_post, tt);
    posts = d.posts ∙ ap (λ l. d.new ++ l) posts ∙ sym (append_assoc d.new (m ∷ []) s.posts);
    metrics = d.metrics ∙ metrics;
  }

  -- A run that ends with no post.
  ended : (s : Session) (r : Result (Option Text)) → Ends p (r, s) → Delivers s 0 (r, s)
  ended s r e = record {
    ends = e;
    new = [];
    few = omega arith;
    alike = tt;
    posts = refl;
    metrics = refl;
  }

  Delivers-weaken :
      {s : Session} {n : ℕ} {r : Run (Option Text)} (k : ℕ)
      → n ≤ k
      → Delivers s n r
      → Delivers s k r
  Delivers-weaken k le d = record {
    ends = d.ends;
    new = d.new;
    few = omega (arith, d.few);
    alike = d.alike;
    posts = d.posts;
    metrics = d.metrics;
  }

  -- A change of the token and of the clock alone.
  Delivers-from :
      {s u : Session} {n : ℕ} {r : Run (Option Text)}
      → u.posts ≡ s.posts
      → u.metrics ≡ s.metrics
      → Delivers u n r
      → Delivers s n r
  Delivers-from posts metrics d = record {
    ends = d.ends;
    new = d.new;
    few = d.few;
    alike = d.alike;
    posts = d.posts ∙ ap (λ l. d.new ++ l) posts;
    metrics = d.metrics ∙ metrics;
  }

  clear_on_401-keeps :
      (status : ℕ) (s : Session)
      → ((clear_on_401 status s).posts ≡ s.posts) × ((clear_on_401 status s).metrics ≡ s.metrics)
  clear_on_401-keeps status s = elim (Bool-cases (status == 401)) [
    | inl hit ↦ rw hit (refl, refl)
    | inr miss ↦ rw miss (refl, refl)
  ]

  parsed_message-Delivers :
      (r : Reply FeishuMessageResponse) (o : Option FeishuMessageResponse) (s : Session)
      → r.parsed ≡ o
      → r.is_success ≡ true
      → p.deliver s.posts ≡ responded r
      → Delivers s 0 (parsed_message r o s)
  parsed_message-Delivers r none s parsed success answered =
      ended s _ (_, refl, provider_status_code-le r.status_code)
  parsed_message-Delivers r (some m) s parsed success answered = elim (Bool-cases m.code_is_zero) [
    | inl zero_code ↦ rw zero_code (
        ended s _ (record {
          reply = r;
          model = m;
          answered = answered;
          success = success;
          parsed = parsed;
          code = zero_code;
          named = refl;
        }))
    | inr refused ↦ rw refused (ended s _ (_, refl, provider_status_code-le r.status_code))
  ]

  after_message-Delivers :
      (a : Posted FeishuMessageResponse) (left : ℕ) (rest : Session → Run (Option Text))
      (s : Session)
      → p.deliver s.posts ≡ a
      → ((u : Session) → Delivers u left (rest u))
      → Delivers s left (after_message a left rest s)
  unfolding after_message
  after_message-Delivers unreachable left rest s answered ih = ih s
  after_message-Delivers (responded r) left rest s answered ih =
      let (posts, metrics) = clear_on_401-keeps r.status_code s in
      Delivers-from {u = clear_on_401 r.status_code s} posts metrics
        (elim (Bool-cases (is_retryable_http r.status_code && not (left == 0))) [
          | inl again ↦ rw again (ih (clear_on_401 r.status_code s))
          | inr final ↦ rw final (elim (Bool-cases r.is_success) [
            | inl success ↦ rw success (
                Delivers-weaken left (omega arith) (
                  parsed_message-Delivers r r.parsed (clear_on_401 r.status_code s) refl success
                    (ap p.deliver posts ∙ answered)))
            | inr failure ↦ rw failure (
                Delivers-weaken left (omega arith) (
                  ended (clear_on_401 r.status_code s) _
                    (_, refl, provider_status_code-le r.status_code)))
          ])
        ])

  post_message-Delivers :
      (token : Text) (left : ℕ) (rest : Session → Run (Option Text)) (s : Session)
      → token ≢ []
      → ((u : Session) → Delivers u left (rest u))
      → Delivers s
          (suc left)
          (post_message p recipient_open_id text idempotency_key token left rest s)
  unfolding post_message
  post_message-Delivers token left rest s filled ih =
      let m : Message = record {
        token = token;
        receive_id = recipient_open_id;
        text = text;
        uuid = idempotency_key;
      } in
      Delivers-posted {u = message_posted m s} s m
        (record { to = refl; content = refl; key = refl; authorized = filled }) refl refl
        (after_message-Delivers (p.deliver (m ∷ s.posts)) left rest (message_posted m s) refl ih)

  -- Once the token is known, or its request has failed.
  with_token-Delivers :
      (n left : ℕ) (rest : Session → Run (Option Text)) (s : Session) (r : Run Text)
      → Fetches s n r
      → ((u : Session) → Delivers u left (rest u))
      → Delivers s (suc left) (
          with_token r
            (λ token. post_message p recipient_open_id text idempotency_key token left rest))
  with_token-Delivers n left rest s (ok token, u) f ih =
      Delivers-from {u = u} f.posts f.metrics (post_message-Delivers token left rest u f.ends ih)
  with_token-Delivers n left rest s (raised exc, u) f ih =
      Delivers-from {u = u} f.posts f.metrics
        (Delivers-weaken (suc left) (omega arith) (ended u (raised exc) f.ends))
  with_token-Delivers n left rest s (diverged, u) f ih = elim f.ends [ ]

  message_attempts-Delivers :
      (max_attempts left : ℕ) (s : Session)
      → Delivers s left
          (message_attempts p max_attempts recipient_open_id text idempotency_key left s)
  unfolding message_attempts
  message_attempts-Delivers max_attempts zero s =
      ended s (raised (send_failed 502)) (_, refl, omega arith)
  message_attempts-Delivers max_attempts (suc left) s =
      with_token-Delivers max_attempts left
        (message_attempts p max_attempts recipient_open_id text idempotency_key left) s
        (access_token p max_attempts s) (access_token-Fetches p max_attempts s)
        (message_attempts-Delivers max_attempts left)

  -- From `s`, with at most `n` posts of the message, and one count of the outcome.
  pub record Sends (s : Session) (n : ℕ) (r : Run (Option Text)) : Type 0 where
    pub ends : Ends p r
    pub new : List Message
    pub few : length new ≤ n
    pub alike : All IsPost new
    pub posts : r.1.posts ≡ new ++ s.posts
    pub metrics : r.1.metrics ≡ outcome r.0 ∷ s.metrics

  counted-Sends :
      (s : Session) (n : ℕ) (r : Run (Option Text)) → Delivers s n r → Sends s n (counted r)
  counted-Sends s n (ok ref, u) d = record {
    ends = d.ends;
    new = d.new;
    few = d.few;
    alike = d.alike;
    posts = d.posts;
    metrics = ap (λ l. Update.external_requests "feishu" "success" ∷ l) d.metrics;
  }
  counted-Sends s n (raised exc, u) d = record {
    ends = d.ends;
    new = d.new;
    few = d.few;
    alike = d.alike;
    posts = d.posts;
    metrics = ap (λ l. Update.external_requests "feishu" "error" ∷ l) d.metrics;
  }
  counted-Sends s n (diverged, u) d = elim d.ends [ ]

  -- From every session and with every provider, `send_text` posts the message at most
  -- `max_attempts` times, each time to the same recipient, with the same text and idempotency key
  -- and with a token that is not empty. It returns only where the provider has accepted the last
  -- post, and what it returns is then that answer's message id, if it has one that is not empty.
  -- Otherwise it raises a GatewayError with a status of 400 or more. In both cases it counts its
  -- outcome once.
  pub send_text-Sends :
      (max_attempts : ℕ) (s : Session)
      → Sends s max_attempts (send_text p max_attempts recipient_open_id text idempotency_key s)
  unfolding send_text
  send_text-Sends max_attempts s =
      counted-Sends s max_attempts
        (message_attempts p max_attempts recipient_open_id text idempotency_key max_attempts s)
        (message_attempts-Delivers max_attempts max_attempts s)
