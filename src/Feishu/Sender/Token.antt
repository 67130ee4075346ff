-- ===== src/Feishu/Sender/Token.antt =====
-- What `_access_token` of src/feishu_dify_gateway/feishu.py returns.
use feishu_dify_gateway.Base.{
  ℕ, zero, suc, ◌+◌, ◌≤◌, ◌≡◌, refl, ◌≢◌, inl, inr, true, false, not, ◌&&◌, ◌||◌, Option, none,
  some, [], ◌∷◌, arith, ◌==◌, Bool-cases,
}
use feishu_dify_gateway.Text.{Text, is_blank}
use feishu_dify_gateway.Errors.{GatewayError, Exn, Result, ok, raised, diverged, gateway}
use feishu_dify_gateway.Feishu.Ingress.{is_retryable_http}
use feishu_dify_gateway.Feishu.Sender.{
  Reply, Posted, unreachable, responded, FeishuTokenResponse, Provider, Session, Run,
  provider_status_code, is_cached, tick, or_blank, accept_token, parsed_token, after_token,
  token_posted, token_attempts, access_token,
}

-- A GatewayError with an error status.
abbrev pub IsProviderError : Exn → Type 0
IsProviderError exc = (e : GatewayError) × (exc ≡ gateway e) × (400 ≤ e.status_code)

pub provider_status_code-le : (s : ℕ) → 400 ≤ provider_status_code s
unfolding provider_status_code
provider_status_code-le s = ground arith

-- A token that is not empty, or a GatewayError.
abbrev pub TokenEnds : Result Text → Type 0
TokenEnds (ok token) = token ≢ []
TokenEnds (raised exc) = IsProviderError exc
TokenEnds diverged = ⊥

-- From `s`, with at most `n` requests for a token: nothing else is posted or counted.
pub record Fetches (s : Session) (n : ℕ) (p : Run Text) : Type 0 where
  pub ends : TokenEnds p.0
  pub posts : p.1.posts ≡ s.posts
  pub metrics : p.1.metrics ≡ s.metrics
  pub tries : p.1.token_posts ≤ s.token_posts + n

filled : (t : Text) → is_blank t ≡ false → t ≢ []
filled [] h = ground arith
filled (c ∷ t) h = λ e. cc

accept_token-Fetches :
    (p : Provider) (status : ℕ) (r : FeishuTokenResponse) (s : Session)
    → Fetches s 0 (accept_token p status r s)
accept_token-Fetches p status r s =
    elim (Bool-cases (not r.code_is_zero || is_blank (or_blank r.tenant_access_token))) [
      | inl bad ↦ rw bad (record {
        ends = (_, refl, provider_status_code-le status);
        posts = refl;
        metrics = refl;
        tries = omega arith;
      })
      | inr good ↦ rw good (record {
        ends = filled (or_blank r.tenant_access_token) (ground arith);
        posts = refl;
        metrics = refl;
        tries = omega arith;
      })
    ]

parsed_token-Fetches :
    (p : Provider) (r : Reply FeishuTokenResponse) (o : Option FeishuTokenResponse) (s : Session)
    → Fetches s 0 (parsed_token p r o s)
parsed_token-Fetches p r none s = record {
  ends = (_, refl, provider_status_code-le r.status_code);
  posts = refl;
  metrics = refl;
  tries = omega arith;
}
parsed_token-Fetches p r (some t) s = accept_token-Fetches p r.status_code t s

-- A request more may be allowed.
Fetches-posted :
    {s : Session} {n : ℕ} {p : Run Text} → Fetches (token_posted s) n p → Fetches s (suc n) p
Fetches-posted f = record {
  ends = f.ends;
  posts = f.posts;
  metrics = f.metrics;
  tries = omega (arith, f.tries);
}

Fetches-weaken :
    {s : Session} {n : ℕ} {p : Run Text} (m : ℕ) → n ≤ m → Fetches s n p → Fetches s m p
Fetches-weaken m le f = record {
  ends = f.ends;
  posts = f.posts;
  metrics = f.metrics;
  tries = omega (arith, f.tries);
}

after_token-Fetches :
    (p : Provider) (a : Posted FeishuTokenResponse) (left : ℕ) (rest : Run Text) (s : Session)
    → Fetches s left rest
    → Fetches s left (after_token p a left rest s)
unfolding after_token
after_token-Fetches p unreachable left rest s f = f
after_token-Fetches p (responded r) left rest s f =
    elim (Bool-cases (is_retryable_http r.status_code && not (left == 0))) [
      | inl again ↦ rw again f
      | inr final ↦ rw final (elim (Bool-cases r.is_success) [
        | inl success ↦
            rw success (Fetches-weaken left (omega arith) (parsed_token-Fetches p r r.parsed s))
        | inr failure ↦ rw failure (record {
          ends = (_, refl, provider_status_code-le r.status_code);
          posts = refl;
          metrics = refl;
          tries = omega arith;
        })
      ])
    ]

token_attempts-Fetches :
    (p : Provider) (left : ℕ) (s : Session) → Fetches s left (token_attempts p left s)
unfolding token_attempts
token_attempts-Fetches p zero s = record {
  ends = (_, refl, omega arith);
  posts = refl;
  metrics = refl;
  tries = omega arith;
}
token_attempts-Fetches p (suc left) s = Fetches-posted (
    after_token-Fetches p (p.authenticate (suc s.token_posts)) left
      (token_attempts p left (token_posted s)) (token_posted s)
      (token_attempts-Fetches p left (token_posted s)))

cached-Fetches :
    (p : Provider) (n : ℕ) (s u : Session)
    → is_cached p u ≡ true
    → u.token ≡ s.token
    → u.token_posts ≡ s.token_posts
    → u.posts ≡ s.posts
    → u.metrics ≡ s.metrics
    → Fetches s n (ok u.token, tick u)
cached-Fetches p n s u hit token tries posts metrics = record {
  ends = filled u.token (ground arith);
  posts = posts;
  metrics = metrics;
  tries = omega (arith, tries);
}

-- `_access_token` returns a token that is not empty or raises a GatewayError with a status of 400 or
-- more; it asks for a token at most `max_attempts` times, posts no message and counts nothing.
pub access_token-Fetches :
    (p : Provider) (max_attempts : ℕ) (s : Session)
    → Fetches s max_attempts (access_token p max_attempts s)
unfolding access_token
access_token-Fetches p max_attempts s = elim (Bool-cases (is_cached p s)) [
  | inl hit ↦ rw hit (cached-Fetches p max_attempts s s hit refl refl refl refl)
  | inr miss ↦ rw miss (elim (Bool-cases (is_cached p (tick s))) [
    | inl hit ↦ rw hit (cached-Fetches p max_attempts s (tick s) hit refl refl refl refl)
    | inr again ↦ rw again (
        let f = token_attempts-Fetches p max_attempts (tick (tick s)) in
        record { ends = f.ends; posts = f.posts; metrics = f.metrics; tries = f.tries })
  ])
]
