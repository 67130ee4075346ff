-- ===== src/Service/Sending/Sends.antt =====
-- What `_send_chunks` of src/feishu_dify_gateway/service.py sends, and what it leaves alone.
use feishu_dify_gateway.Base.{
  ℕ, suc, ◌≡◌, refl, ap, ◌≢◌, some, List, [], ◌∷◌, arith, All, ◌⊎◌, inl, inr, ◌++◌, sym, Option,
  ◌∙◌,
}
use feishu_dify_gateway.Text.{Text, strip}
use feishu_dify_gateway.Text.Strip.{squeeze}
use feishu_dify_gateway.Errors.{Result, ok, diverged, raised, gateway, Exn}
use feishu_dify_gateway.Service.Split.{split_text}
use feishu_dify_gateway.Service.Split.Chunks.{split_text-Splits, split_text-nil, IsChunk, joined}
use feishu_dify_gateway.Service.Monad.{
  Environment, World, Send, SendOutcome, accepted, failed, send_result, ◌>>◌,
}
use feishu_dify_gateway.Service.Sending.{
  chunk_limit, chunk_key, send_from, send_split, send_chunks, empty_message,
}

-- Sending changes neither the store nor the counters, the clock and the requests, and it always
-- ends.
pub record OnlySends (w : World) (p : Result (Unit {0}) × World) : Type 0 where
  pub store : p.1.store ≡ w.store
  pub metrics : p.1.metrics ≡ w.metrics
  pub ticks : p.1.ticks ≡ w.ticks
  pub requests : p.1.requests ≡ w.requests
  pub ends : p.0 ≢ diverged

-- The log after the chunks from `index` on are sent.
pub log_after : Environment → (recipient key : Text) → ℕ → List Text → List Send → List Send
log_after env recipient key index [] log = log
log_after env recipient key index (c ∷ cs) log =
    log_after env recipient key (suc index) cs
      (record { recipient = recipient; text = c; idempotency_key = chunk_key env key index } ∷ log)

-- The sender accepts each of these chunks, sent one after the other from `index` on.
pub Accepts : Environment → (recipient key : Text) → ℕ → List Text → List Send → Type 0
Accepts env recipient key index [] log = Unit
Accepts env recipient key index (c ∷ cs) log =
    let now_sent : List Send =
      record { recipient = recipient; text = c; idempotency_key = chunk_key env key index } ∷ log in
    ((ref : Option Text) × (env.send now_sent ≡ accepted ref))
    × Accepts env recipient key (suc index) cs now_sent

-- How it ends after the chunks `done`, where `rest` are left: it returns once there is none, or the
-- sender refuses the next, which is then the last sent, and its exception is raised.
abbrev pub Stops :
    Environment
    → (recipient key : Text) → ℕ
    → (done rest : List Text) → List Send
    → Result (Unit {0})
    → List Send
    → Type 0
Stops env recipient key index done rest log r sent =
    ((rest ≡ []) × (r ≡ ok tt) × (sent ≡ log_after env recipient key index done log))
    ⊎ ((c : Text) × (cs : List Text) × (exc : Exn) × (rest ≡ c ∷ cs)
        × (sent ≡ log_after env recipient key index (done ++ c ∷ []) log)
        × (env.send sent ≡ failed exc)
        × (r ≡ raised exc))

-- The chunks are sent in order, each under its own key, up to the first that the sender refuses.
pub record SendsPrefix (env : Environment) (recipient key : Text) (index : ℕ) (chunks : List Text)
    (log : List Send) (r : Result (Unit {0})) (sent : List Send) : Type 0 where
  pub done : List Text
  pub rest : List Text
  pub all : chunks ≡ done ++ rest
  pub accepted : Accepts env recipient key index done log
  pub stops : Stops env recipient key index done rest log r sent

-- The chunks of a message fit, hold the message, less whitespace, and are sent so.
pub record SendsMessage (env : Environment) (recipient key text : Text) (log : List Send)
    (r : Result (Unit {0})) (sent : List Send) : Type 0 where
  pub chunks : List Text
  pub fit : All (IsChunk chunk_limit) chunks
  pub whole : squeeze (joined chunks) ≡ squeeze text
  pub in_order : SendsPrefix env recipient key 0 chunks log r sent

module _ (env : Environment) (recipient key : Text) where
  send_from-OnlySends :
      (index : ℕ) (chunks : List Text) (w : World)
      → OnlySends w (send_from env recipient key index chunks w)
  unfolding send_from
  send_from-OnlySends index [] w = record {
    store = refl;
    metrics = refl;
    ticks = refl;
    requests = refl;
    ends = λ e. cc;
  }
  send_from-OnlySends index (c ∷ cs) w = step (env.send log) (send_from-OnlySends (suc index) cs w')
    where
      log : List Send
      log =
          record { recipient = recipient; text = c; idempotency_key = chunk_key env key index }
          ∷ w.sent

      w' : World
      w' = record w { sent = log }

      step :
          (o : SendOutcome)
          → OnlySends w' (send_from env recipient key (suc index) cs w')
          → OnlySends w
              (((λ _. (send_result o, w')) >> send_from env recipient key (suc index) cs) w)
      step (accepted ref) h = record {
        store = h.store;
        metrics = h.metrics;
        ticks = h.ticks;
        requests = h.requests;
        ends = h.ends;
      }
      step (failed e) h = record {
        store = refl;
        metrics = refl;
        ticks = refl;
        requests = refl;
        ends = λ q. cc;
      }

  -- One more accepted chunk before the others.
  SendsPrefix-cons :
      (index : ℕ) (c : Text) (cs : List Text) (log : List Send) (ref : Option Text)
      {r : Result (Unit {0})} {sent : List Send}
      → (let now_sent : List Send =
            record { recipient = recipient; text = c; idempotency_key = chunk_key env key index }
            ∷ log in
          (env.send now_sent ≡ accepted ref)
          × SendsPrefix env recipient key (suc index) cs now_sent r sent)
      → SendsPrefix env recipient key index (c ∷ cs) log r sent
  unfolding Accepts log_after
  SendsPrefix-cons index c cs log ref (e, h) = record {
    done = c ∷ h.done;
    rest = h.rest;
    all = ap (λ t. c ∷ t) h.all;
    accepted = ((ref, e), h.accepted);
    stops = h.stops;
  }

  send_from-SendsPrefix :
      (index : ℕ) (chunks : List Text) (w : World)
      → let p = send_from env recipient key index chunks w in
        SendsPrefix env recipient key index chunks w.sent p.0 p.1.sent
  unfolding send_from log_after Accepts
  send_from-SendsPrefix index [] w = record {
    done = [];
    rest = [];
    all = refl;
    accepted = tt;
    stops = inl (refl, refl, refl);
  }
  send_from-SendsPrefix index (c ∷ cs) w =
      step (env.send log) refl (send_from env recipient key (suc index) cs w')
        (send_from-SendsPrefix (suc index) cs w')
    where
      log : List Send
      log =
          record { recipient = recipient; text = c; idempotency_key = chunk_key env key index }
          ∷ w.sent

      w' : World
      w' = record w { sent = log }

      step :
          (o : SendOutcome)
          → env.send log ≡ o
          → (q : Result (Unit {0}) × World)
          → SendsPrefix env recipient key (suc index) cs log q.0 q.1.sent
          → let p = ((λ _. (send_result o, w')) >> λ _. q) w in
            SendsPrefix env recipient key index (c ∷ cs) w.sent p.0 p.1.sent
      step (accepted ref) e (ok _, v) h = SendsPrefix-cons index c cs w.sent ref (e, h)
      step (accepted ref) e (raised exc, v) h = SendsPrefix-cons index c cs w.sent ref (e, h)
      step (accepted ref) e (diverged, v) h = SendsPrefix-cons index c cs w.sent ref (e, h)
      step (failed exc) e q h = record {
        done = [];
        rest = c ∷ cs;
        all = refl;
        accepted = tt;
        stops = inr (c, cs, exc, refl, refl, e, refl);
      }

  pub send_chunks-OnlySends :
      (text : Text) (w : World) → OnlySends w (send_chunks env recipient text key w)
  unfolding send_chunks send_split
  send_chunks-OnlySends text w =
      let (chunks, returned, good, kept) = split_text-Splits text chunk_limit (omega arith) in
      rw returned (go chunks)
    where
      go : (chunks : List Text) → OnlySends w (send_split env recipient key (some chunks) w)
      go [] = record { store = refl; metrics = refl; ticks = refl; requests = refl; ends = λ q. cc }
      go (c ∷ cs) = send_from-OnlySends 0 (c ∷ cs) w

  -- Every message is cut into chunks that fit and hold the message, less whitespace. The chunks go
  -- to the recipient in order, chunk `i` under the idempotency key of `i`. The sender accepts those
  -- before the last that is sent; it accepts the last too, and then all were sent and `_send_chunks`
  -- returns, or it refuses the last, and then its exception is raised. A message of nothing but
  -- whitespace is refused with EMPTY_MESSAGE and sends nothing.
  pub send_chunks-SendsPrefix :
      (text : Text) (w : World)
      → let p = send_chunks env recipient text key w in
        ((strip text ≡ []) × (p ≡ (raised (gateway empty_message), w)))
        ⊎ ((strip text ≢ []) × SendsMessage env recipient key text w.sent p.0 p.1.sent)
  unfolding send_chunks send_split
  send_chunks-SendsPrefix text w =
      let (chunks, returned, good, kept) = split_text-Splits text chunk_limit (omega arith) in
      rw returned (go chunks returned good kept)
    where
      go :
          (chunks : List Text)
          → split_text text chunk_limit ≡ some chunks
          → All (IsChunk chunk_limit) chunks
          → squeeze (joined chunks) ≡ squeeze text
          → let p = send_split env recipient key (some chunks) w in
            ((strip text ≡ []) × (p ≡ (raised (gateway empty_message), w)))
            ⊎ ((strip text ≢ []) × SendsMessage env recipient key text w.sent p.0 p.1.sent)
      go [] returned good kept =
          inl ((split_text-nil text chunk_limit (omega arith)).0 returned, refl)
      go (c ∷ cs) returned good kept = inr (
        λ blank. cc (sym returned ∙ (split_text-nil text chunk_limit (omega arith)).1 blank),
        record {
          chunks = c ∷ cs;
          fit = good;
          whole = kept;
          in_order = send_from-SendsPrefix 0 (c ∷ cs) w;
        },
      )
