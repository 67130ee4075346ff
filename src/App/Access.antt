-- ===== src/App/Access.antt =====
-- Who can make the application of src/feishu_dify_gateway/app.py send or record anything.
pub mod Ports
use feishu_dify_gateway.Base.{
  ℕ, suc, ◌≡◌, refl, ◌∙◌, ◌≢◌, ◌⊎◌, inl, inr, true, Option, none, some, [], ◌∷◌, if◌then◌else◌,
  Bool-cases,
}
use feishu_dify_gateway.Text.{Text, same, same→eq, is_blank}
use feishu_dify_gateway.Errors.{Exn, Result, ok, raised, diverged, gateway, other}
use feishu_dify_gateway.Security.{
  Verdict, verified, signature_error, type_error, value_error, verify_request, IsHexDigest,
}
use feishu_dify_gateway.Security.Verify.{IsAuthentic, verify_request_iff}
use feishu_dify_gateway.Models.{AdministrativeCommunicationRequest, is_communication}
use feishu_dify_gateway.Service.Monad.{World, Action, pure, catch, ◌>>=◌}
use feishu_dify_gateway.App.Http.{App, Request, Response}
use feishu_dify_gateway.App.Endpoints.{
  by_verdict, authenticate, notifications, administrative_communications, accept_communication,
  not_configured,
}
use feishu_dify_gateway.App.Middleware.{by_exception}

-- Nothing is recorded, sent or asked of the control plane.
pub record Unchanged (w w' : World) : Type 0 where
  pub store : w'.store ≡ w.store
  pub sent : w'.sent ≡ w.sent
  pub requests : w'.requests ≡ w.requests

pub Unchanged-refl : (w : World) → Unchanged w w
Unchanged-refl w = record { store = refl; sent = refl; requests = refl }

pub Unchanged-trans : {u v w : World} → Unchanged u v → Unchanged v w → Unchanged u w
Unchanged-trans a b = record {
  store = b.store ∙ a.store;
  sent = b.sent ∙ a.sent;
  requests = b.requests ∙ a.requests;
}

-- `P` holds, or nothing changes.
abbrev pub UnchangedUnless : Type 0 → (w w' : World) → Type 0
UnchangedUnless P w w' = Unchanged w w' ⊎ P

pub Unchanged-after :
    (P : Type 0) {u v w : World} → Unchanged u v → UnchangedUnless P v w → UnchangedUnless P u w
Unchanged-after P a (inl b) = inl (Unchanged-trans a b)
Unchanged-after P a (inr permit) = inr permit

module _ {A B : Type 0} (P : Type 0) where
  -- An action after another, and one that catches the exceptions of another.
  pub unless-bind :
      (p : Result A × World) (k : A → Action B) (w : World)
      → UnchangedUnless P w p.1
      → ((a : A) (v : World) → Unchanged v (k a v).1)
      → UnchangedUnless P w (((λ _. p) >>= k) w).1
  unless-bind (ok a, v) k w (inl same_world) h = inl (Unchanged-trans same_world (h a v))
  unless-bind (raised exc, v) k w (inl same_world) h = inl same_world
  unless-bind (diverged, v) k w (inl same_world) h = inl same_world
  unless-bind (r, v) k w (inr permit) h = inr permit

pub unless-catch :
    {A : Type 0} (P : Type 0) (p : Result A × World) (k : Exn → Action A) (w : World)
    → UnchangedUnless P w p.1
    → ((exc : Exn) (v : World) → Unchanged v (k exc v).1)
    → UnchangedUnless P w (catch (λ _. p) k w).1
unless-catch P (ok a, v) k w h quiet = h
unless-catch P (raised exc, v) k w (inl same_world) quiet =
    inl (Unchanged-trans same_world (quiet exc v))
unless-catch P (raised exc, v) k w (inr permit) quiet = inr permit
unless-catch P (diverged, v) k w h quiet = h

pub by_exception-Unchanged : (exc : Exn) (w : World) → Unchanged w (by_exception exc w).1
unfolding by_exception
by_exception-Unchanged (gateway e) w = Unchanged-refl w
by_exception-Unchanged other w = Unchanged-refl w

module _ (app : App) (req : Request) where
  -- The request bears a signature of `body` under `key` that is authentic at some reading of the
  -- clock.
  abbrev pub IsSigned : (key event_id body : Text) → Type 0
  IsSigned key event_id body =
      (t : ℕ) × IsAuthentic app.crypto key (req.header "X-Timestamp") event_id
        (req.header "X-Signature") body app.settings.notification_ttl_seconds (app.env.clock t)

  abbrev pub IsSignedNotification : Type 0
  IsSignedNotification =
      IsSigned app.settings.notification_hmac_key (req.header "X-Event-ID") req.body

  by_verdict-Unchanged :
      (P : Type 0) (v : Verdict) (k : Action Response) (w : World)
      → (v ≡ verified → UnchangedUnless P w (k w).1)
      → UnchangedUnless P w (by_verdict v k w).1
  unfolding by_verdict
  by_verdict-Unchanged P verified k w h = h refl
  by_verdict-Unchanged P (signature_error m) k w h = inl (Unchanged-refl w)
  by_verdict-Unchanged P type_error k w h = inl (Unchanged-refl w)
  by_verdict-Unchanged P value_error k w h = inl (Unchanged-refl w)

  module _ (hex : IsHexDigest app.crypto) where
    -- Where a signature is required, what follows runs for signed requests only.
    authenticate-Unchanged :
        (P : Type 0) (key event_id body : Text) (k : Action Response) (w : World)
        → (IsSigned key event_id body → (v : World) → UnchangedUnless P v (k v).1)
        → UnchangedUnless P w (authenticate app req key event_id body k w).1
    unfolding authenticate
    authenticate-Unchanged P key event_id body k w h =
        Unchanged-after P (record { store = refl; sent = refl; requests = refl })
          (by_verdict-Unchanged P
            (verify_request app.crypto key (req.header "X-Timestamp") event_id
              (req.header "X-Signature") body app.settings.notification_ttl_seconds
              (app.env.clock w.ticks))
            k (record w { ticks = suc w.ticks })
            (λ passed.
              h
                (
                  w.ticks,
                  (verify_request_iff app.crypto key (req.header "X-Timestamp") event_id
                        (req.header "X-Signature") body app.settings.notification_ttl_seconds
                        (app.env.clock w.ticks) hex).0
                      passed,
                )
                (record w { ticks = suc w.ticks })))

    pub notifications-Unchanged :
        (w : World) → UnchangedUnless IsSignedNotification w (notifications app req w).1
    unfolding notifications
    notifications-Unchanged w =
        authenticate-Unchanged IsSignedNotification app.settings.notification_hmac_key
          (req.header "X-Event-ID") req.body _ w (λ signed v. inr signed)

    -- A communication that may be sent: the key is configured, the request is signed under it, and
    -- its body is within the limits and names the event of the signature.
    abbrev pub IsSignedCommunication : Type 0
    IsSignedCommunication =
        (app.settings.administrative_communication_hmac_key ≢ [])
        × IsSigned app.settings.administrative_communication_hmac_key (req.header "X-Event-ID")
            req.body
        × ((c : AdministrativeCommunicationRequest) × (app.parse_communication req.body ≡ some c)
            × (is_communication c ≡ true)
            × (c.event_id ≡ req.header "X-Event-ID"))

    accept_communication-Unchanged :
        (P : Type 0) (event_id body : Text) (o : Option AdministrativeCommunicationRequest)
        (w : World)
        → ((c : AdministrativeCommunicationRequest)
            → o ≡ some c
            → is_communication c ≡ true
            → c.event_id ≡ event_id
            → P)
        → UnchangedUnless P w (accept_communication app event_id body o w).1
    unfolding accept_communication
    accept_communication-Unchanged P event_id body none w h = inl (Unchanged-refl w)
    accept_communication-Unchanged P event_id body (some c) w h =
        elim (Bool-cases (is_communication c)) [
          | inr bad ↦ rw bad (inl (Unchanged-refl w))
          | inl good ↦ elim (Bool-cases (same c.event_id event_id)) [
            | inr differ ↦ rw (good, differ) (inl (Unchanged-refl w))
            | inl alike ↦ inr (h c refl good (same→eq c.event_id event_id alike))
          ]
        ]

    -- Where the digests are lower-case hexadecimal, `POST /v1/administrative/communications` records,
    -- sends and asks nothing unless the key of administrative communications is configured and the
    -- request bears a signature under it, authentic at some reading of the clock, with a body that is
    -- within the limits and names the signed event.
    pub administrative_communications-IsSigned :
        (w : World)
        → UnchangedUnless IsSignedCommunication w (administrative_communications app req w).1
    unfolding administrative_communications
    administrative_communications-IsSigned w =
        go app.settings.administrative_communication_hmac_key refl
      where
        key : Text
        key = app.settings.administrative_communication_hmac_key

        accept : Action Response
        accept =
            accept_communication app (req.header "X-Event-ID") req.body
              (app.parse_communication req.body)

        go :
            (k : Text)
            → key ≡ k
            → UnchangedUnless IsSignedCommunication w
                ((if is_blank k
                    then pure not_configured
                    else authenticate app req key (req.header "X-Event-ID") req.body accept)
                  w).1
        go [] e = inl (Unchanged-refl w)
        go (c ∷ k) e =
            authenticate-Unchanged IsSignedCommunication key (req.header "X-Event-ID") req.body
              accept w
              (λ signed v.
                accept_communication-Unchanged IsSignedCommunication (req.header "X-Event-ID")
                  req.body (app.parse_communication req.body) v
                  (λ c parsed good alike. (λ blank. cc, signed, (c, parsed, good, alike))))
