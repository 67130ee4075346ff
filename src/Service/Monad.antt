-- ===== src/Service/Monad.antt =====
-- The world of `GatewayService` (src/feishu_dify_gateway/service.py): its state, what it asks of
-- other systems, and its calls as actions that return or raise.
use feishu_dify_gateway.Base.{ℕ, suc, String, ◌≡◌, Bool, Option, List, ◌∷◌, ◌⊎◌, inl, inr}
use feishu_dify_gateway.Text.{Text}
use feishu_dify_gateway.Errors.{Exn, Result, ok, raised, diverged}
use feishu_dify_gateway.Metrics.{Update, Metrics}
use feishu_dify_gateway.Store.{StateStore}

-- One call of `Sender.send_text`.
pub record Send : Type 0 where
  pub recipient : Text
  pub text : Text
  pub idempotency_key : Text

-- How a call of the sender ends: it returns, or it raises.
pub data SendOutcome : Type 0 where
  accepted : Option Text → SendOutcome
  failed : Exn → SendOutcome

-- One call of `ControlPlaneClient.request`; a body is a JSON object of texts.
pub record ControlRequest : Type 0 where
  pub method : String
  pub path : Text
  pub body : Option (List (String × Text))

-- What the service is given: the clock, as the value of `int(time.time())` at each reading; the
-- sender, whose answer may depend on all that was sent before; the hashes of the standard library,
-- as the text of their hexadecimal digest, and `str.lower`; what `ControlPlaneClient.request` returns
-- or raises, and the state of Feishu and Prometheus at each query; and the settings that it reads.
pub record Environment : Type 0 where
  pub clock : ℕ → ℕ
  pub send : List Send → SendOutcome
  pub sha256 : Text → Text
  pub uuid5 : Text → Text
  pub uuid4 : ℕ → Text
  pub lower : Text → Text
  pub control_plane : List ControlRequest → Exn ⊎ Text
  pub feishu_ready : ℕ → Exn ⊎ Bool
  pub prometheus_ready : ℕ → Exn ⊎ Bool
  pub active_alerts : ℕ → Exn ⊎ List (Text × Text)
  pub feishu_alert_recipient_open_id : Text
  pub feishu_allowed_open_id : Text

-- `metrics`, `sent` and `requests` have the latest entry first; `ticks` counts the readings of the
-- clock and of the other systems' states.
pub record World : Type 0 where
  pub store : StateStore
  pub metrics : Metrics
  pub sent : List Send
  pub requests : List ControlRequest
  pub ticks : ℕ

abbrev pub Action {ℓ} : Type ℓ → Type ℓ
Action A = World → Result A × World

module _ {ℓ} {A : Type ℓ} where
  abbrev pub pure : A → Action A
  pure a w = (ok a, w)

  abbrev pub raise : Exn → Action A
  raise e w = (raised e, w)

  abbrev pub diverge : Action A
  diverge w = (diverged, w)

  -- `try: m except Exception as exc: handler exc`
  abbrev pub catch : Action A → (Exn → Action A) → Action A
  catch m handler w =
      let (r, w') = m w in
      elim r [ ok a ↦ (ok a, w') | raised e ↦ handler e w' | diverged ↦ (diverged, w') ]

infixl 5 ◌>>=◌ ◌>>◌
abbrev pub ◌>>=◌ {ℓ κ} : {A : Type ℓ} {B : Type κ} → Action A → (A → Action B) → Action B
◌>>=◌ m f w =
    let (r, w') = m w in
    elim r [ ok a ↦ f a w' | raised e ↦ (raised e, w') | diverged ↦ (diverged, w') ]

abbrev pub ◌>>◌ {ℓ κ} : {A : Type ℓ} {B : Type κ} → Action A → Action B → Action B
m >> k = m >>= λ _. k

abbrev pub gets {ℓ} : {A : Type ℓ} → (StateStore → A) → Action A
gets f w = (ok (f w.store), w)

abbrev pub modify : (StateStore → StateStore) → Action (Unit {0})
modify f w = (ok tt, record w { store = f w.store })

-- `counter.labels(...).inc()`
abbrev pub inc : Update → Action (Unit {0})
inc u w = (ok tt, record w { metrics = u ∷ w.metrics })

-- `int(time.time())`
abbrev pub time : Environment → Action ℕ
time env w = (ok (env.clock w.ticks), record w { ticks = suc w.ticks })

abbrev pub send_result : SendOutcome → Result (Option Text)
send_result (accepted ref) = ok ref
send_result (failed e) = raised e

-- `await self.sender.send_text(recipient, text, idempotency_key)`
abbrev pub send_text : Environment → Text → Text → Text → Action (Option Text)
send_text env recipient text idempotency_key w =
    let now_sent : List Send =
      record { recipient = recipient; text = text; idempotency_key = idempotency_key } ∷ w.sent in
    (send_result (env.send now_sent), record w { sent = now_sent })

-- The answer of another system: it returns, or it raises.
abbrev pub answer {ℓ} : {A : Type ℓ} → Exn ⊎ A → Result A
answer (inl exc) = raised exc
answer (inr a) = ok a

-- `await self.control_plane.request(method, path, body)`
abbrev pub request : Environment → ControlRequest → Action Text
request env r w =
    let now_requested : List ControlRequest = r ∷ w.requests in
    (answer (env.control_plane now_requested), record w { requests = now_requested })

-- `await self.sender.ready()`, which is `core_readiness`
abbrev pub core_readiness : Environment → Action Bool
core_readiness env w = (answer (env.feishu_ready w.ticks), record w { ticks = suc w.ticks })

-- `asyncio.gather` of two answers; of two exceptions the first is raised.
abbrev pub gather {ℓ κ} : {A : Type ℓ} {B : Type κ} → Exn ⊎ A → Exn ⊎ B → Exn ⊎ (A × B)
gather (inl exc) b = inl exc
gather (inr a) (inl exc) = inl exc
gather (inr a) (inr b) = inr (a, b)

-- `await self.readiness()`
abbrev pub readiness : Environment → Action (Bool × Bool)
readiness env w = (
  answer (gather (env.feishu_ready w.ticks) (env.prometheus_ready w.ticks)),
  record w { ticks = suc w.ticks },
)

-- `await self.prometheus.active_alerts()`
abbrev pub active_alerts : Environment → Action (List (Text × Text))
active_alerts env w = (answer (env.active_alerts w.ticks), record w { ticks = suc w.ticks })

-- What follows a call that raises is not run.
pub bind_raised {ℓ κ} :
    {A : Type ℓ} {B : Type κ} (p : Result A × World) (k : A → Action B) (w : World) {e : Exn}
    → p.0 ≡ raised e
    → ((λ _. p) >>= k) w ≡ (raised e, p.1)
bind_raised (ok a, w') k w r = cc
bind_raised (raised e', w') k w r = cc
bind_raised (diverged, w') k w r = cc
