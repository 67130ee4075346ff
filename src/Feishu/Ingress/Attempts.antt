-- ===== src/Feishu/Ingress/Attempts.antt =====
-- How often `send_metadata` of src/feishu_dify_gateway/feishu.py posts an event, and with what.
use feishu_dify_gateway.Base.{
  ℕ, zero, suc, ◌≤◌, ◌≡◌, refl, ap, ◌∙◌, inl, inr, not, ◌&&◌, List, [], ◌∷◌, arith, ◌==◌,
  if◌then◌else◌, Bool-cases,
}
use feishu_dify_gateway.Text.{Text, strip, is_blank}
use feishu_dify_gateway.Errors.{GatewayError, ok, raised, diverged, gateway}
use feishu_dify_gateway.Feishu.Ingress.{
  Answer, unreachable, status, Post, Run, after_answer, attempts, send_metadata, is_retryable_http,
  auth_unavailable,
}

-- The log with `n` more posts of the same kind.
unfoldable pub posted {ℓ} : {A : Type ℓ} → ℕ → A → List A → List A
posted zero post log = log
posted (suc n) post log = posted n post (post ∷ log)

module _ (answer : List Post → Answer) where
  -- The end of a run: it returns on an answer 202 to the last post, or raises a GatewayError with an
  -- error status. There is no other end.
  abbrev pub Ends : Run → Type 0
  Ends (ok _, log) = answer log ≡ status 202
  Ends (raised exc, log) = (e : GatewayError) × (exc ≡ gateway e) × (400 ≤ e.status_code)
  Ends (diverged, log) = ⊥

  abbrev pub Posts : Post → ℕ → List Post → Run → Type 0
  Posts post most log p = (n : ℕ) × (n ≤ most) × (p.1 ≡ posted n post log)

  after_answer-Ends :
      (a : Answer) (left : ℕ) (rest : Run) (log : List Post)
      → answer log ≡ a
      → Ends rest
      → Ends (after_answer a left rest log)
  unfolding after_answer
  after_answer-Ends unreachable left rest log e h = h
  after_answer-Ends (status s) left rest log e h = elim (Bool-cases (s == 202)) [
    | inl accepted ↦ rw accepted (e ∙ ap status (ground arith))
    | inr other ↦ rw other (elim (Bool-cases (is_retryable_http s && not (left == 0))) [
      | inl again ↦ rw again h
      | inr final ↦ rw final (_, refl, ground arith)
    ])
  ]

  after_answer-Posts :
      (a : Answer) (left : ℕ) (rest : Run) (post : Post) (log : List Post)
      → Posts post left (post ∷ log) rest
      → Posts post (suc left) log (after_answer a left rest (post ∷ log))
  unfolding after_answer posted
  after_answer-Posts unreachable left rest post log (n, most, e) = (suc n, omega arith, e)
  after_answer-Posts (status s) left rest post log (n, most, e) = elim (Bool-cases (s == 202)) [
    | inl accepted ↦ rw accepted (1, omega arith, refl)
    | inr other ↦ rw other (elim (Bool-cases (is_retryable_http s && not (left == 0))) [
      | inl again ↦ rw again (suc n, omega arith, e)
      | inr final ↦ rw final (1, omega arith, refl)
    ])
  ]

  attempts-Ends : (post : Post) (left : ℕ) (log : List Post) → Ends (attempts answer post left log)
  unfolding attempts
  attempts-Ends post zero log = (_, refl, omega arith)
  attempts-Ends post (suc left) log =
      after_answer-Ends (answer (post ∷ log)) left (attempts answer post left (post ∷ log))
        (post ∷ log) refl (attempts-Ends post left (post ∷ log))

  attempts-Posts :
      (post : Post) (left : ℕ) (log : List Post)
      → Posts post left log (attempts answer post left log)
  unfolding attempts posted
  attempts-Posts post zero log = (0, omega arith, refl)
  attempts-Posts post (suc left) log =
      after_answer-Posts (answer (post ∷ log)) left (attempts answer post left (post ∷ log)) post
        log (attempts-Posts post left (post ∷ log))

  -- The event is posted at most `max_attempts` times, each time with the shared secret, less the
  -- whitespace around it, and that payload, and never where that secret is empty. The call returns
  -- only on a 202 to its last post, and else raises a GatewayError with a status of 400 or more.
  -- There is no other outcome.
  pub send_metadata-Ends :
      (shared_secret : Text) (max_attempts : ℕ) (payload : Text) (log : List Post)
      → let p = send_metadata answer shared_secret max_attempts payload log in
        let token = strip shared_secret in
        Ends p
        × Posts
            (record { token = token; payload = payload })
            (if is_blank token then 0 else max_attempts)
            log
            p
  unfolding send_metadata posted
  send_metadata-Ends shared_secret max_attempts payload log = go (strip shared_secret)
    where
      go :
          (token : Text)
          → let post : Post = record { token = token; payload = payload } in
            let p =
              (if is_blank token
                then (raised (gateway auth_unavailable), log)
                else attempts answer post max_attempts log) in
            Ends p × Posts post (if is_blank token then 0 else max_attempts) log p
      go [] = ((_, refl, omega arith), (0, omega arith, refl))
      go (c ∷ t) = (
        attempts-Ends (record { token = c ∷ t; payload = payload }) max_attempts log,
        attempts-Posts (record { token = c ∷ t; payload = payload }) max_attempts log,
      )
