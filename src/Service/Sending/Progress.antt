-- ===== src/Service/Sending/Progress.antt =====
-- How far a call that sends a message (src/feishu_dify_gateway/service.py) gets before it raises.
use feishu_dify_gateway.Base.{ℕ, suc, ◌≤◌, ◌<◌, ◌≡◌, refl, ◌≢◌, some, List, [], ◌∷◌, arith, length}
use feishu_dify_gateway.Text.{Text, strip}
use feishu_dify_gateway.Errors.{Result, ok, diverged, raised}
use feishu_dify_gateway.Service.Split.Chunks.{split_text-Splits, split_text-nil}
use feishu_dify_gateway.Service.Monad.{
  Environment, World, Send, SendOutcome, accepted, failed, send_result, ◌>>◌,
}
use feishu_dify_gateway.Service.Sending.{chunk_limit, chunk_key, send_from, send_split, send_chunks}
use feishu_dify_gateway.Service.Split.{split_text}

-- The log only grows, and a call that raises has sent something: its exception is the sender's, on
-- the last send.
abbrev pub Progress {ℓ} :
    {A : Type ℓ} → Environment → (sent : List Send) → Result A × World → Type 0
Progress env sent (ok _, w) = length sent ≤ length w.sent
Progress env sent (raised exc, w) = (length sent < length w.sent) × (env.send w.sent ≡ failed exc)
Progress env sent (diverged, w) = ⊥

module _ (env : Environment) (recipient key : Text) where
  send_from-Progress :
      (index : ℕ) (chunks : List Text) (w : World)
      → Progress env w.sent (send_from env recipient key index chunks w)
  unfolding send_from
  send_from-Progress index [] w = omega arith
  send_from-Progress index (c ∷ cs) w =
      step (env.send log) refl (send_from env recipient key (suc index) cs w')
        (send_from-Progress (suc index) cs w')
    where
      log : List Send
      log =
          record { recipient = recipient; text = c; idempotency_key = chunk_key env key index }
          ∷ w.sent

      w' : World
      w' = record w { sent = log }

      step :
          (o : SendOutcome)
          → env.send log ≡ o
          → (p : Result (Unit {0}) × World) → Progress env log p
          → Progress env w.sent (((λ _. (send_result o, w')) >> λ _. p) w)
      step (accepted ref) e (ok _, v) h = omega (arith, h)
      step (accepted ref) e (raised exc, v) (h, last) = (omega (arith, h), last)
      step (accepted ref) e (diverged, v) h = h
      step (failed exc) e p h = (omega arith, e)

  -- A message that is not blank.
  pub send_chunks-Progress :
      (text : Text) (w : World)
      → strip text ≢ []
      → Progress env w.sent (send_chunks env recipient text key w)
  unfolding send_chunks send_split
  send_chunks-Progress text w some_text =
      let (chunks, returned, good, kept) = split_text-Splits text chunk_limit (omega arith) in
      rw returned (go chunks returned)
    where
      go :
          (chunks : List Text)
          → split_text text chunk_limit ≡ some chunks
          → Progress env w.sent (send_split env recipient key (some chunks) w)
      go [] e = absurd (some_text ((split_text-nil text chunk_limit (omega arith)).0 e))
      go (c ∷ cs) e = send_from-Progress 0 (c ∷ cs) w
