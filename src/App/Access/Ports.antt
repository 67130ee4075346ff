-- ===== src/App/Access/Ports.antt =====
-- The two ports of src/feishu_dify_gateway/app.py: what a request on either can do.
use feishu_dify_gateway.Base.{
  none, some, ℕ, suc, ◌≡◌, refl, sym, ap, ◌∙◌, ◌⊎◌, inl, inr, Bool, true, false, not, ◌||◌, [], ◌∷◌,
  ◌++◌, append-nil, arith, ltb, if◌then◌else◌, Bool-cases, length, ◌≤◌, ◌≢◌, some, Option, ◌==◌,
}
use feishu_dify_gateway.Text.{Text, same_refl, starts_with, is_ascii, is_blank, codes}
use feishu_dify_gateway.Errors.{Exn, ok}
use feishu_dify_gateway.Security.{IsHexDigest}
use feishu_dify_gateway.Service.Monad.{World, pure, answer, ◌>>=◌}
use feishu_dify_gateway.App.Http.{
  App, Request, Response, Endpoint, IsRouting, is_internal, is_local, not_found, alertmanager_path,
  synthetic_prefix, delivery_ledger_prefix, communications_path, Content,
}
use feishu_dify_gateway.App.Endpoints.{endpoint, ready, readiness_response}
use feishu_dify_gateway.App.Middleware.{
  by_exception, call_next, request_id, with_request_id, handled, observed, request_observability,
}
use feishu_dify_gateway.App.Access.{
  Unchanged, UnchangedUnless, IsSignedNotification, notifications-Unchanged, Unchanged-refl,
  Unchanged-after, unless-bind, unless-catch, by_exception-Unchanged,
}
use feishu_dify_gateway.Service.Synthetic.{uuid4}
use mathlib.Core.Path.{subst}

is_internal_alertmanager : is_internal alertmanager_path ≡ true
unfolding is_internal
is_internal_alertmanager = rw (same_refl alertmanager_path) refl

starts_with-append : (p s : Text) → starts_with (p ++ s) p ≡ true
unfolding starts_with
starts_with-append [] s = refl
starts_with-append (c ∷ p) s = ground (arith, starts_with-append p s)

is_internal_synthetic : (s : Text) → is_internal (synthetic_prefix ++ s) ≡ true
unfolding is_internal
is_internal_synthetic s = ground (arith, starts_with-append synthetic_prefix s)

is_internal_delivery_ledger : (s : Text) → is_internal (delivery_ledger_prefix ++ s) ≡ true
unfolding is_internal
is_internal_delivery_ledger s = ground (arith, starts_with-append delivery_ledger_prefix s)

is_internal_communications : (s : Text) → is_internal (communications_path ++ s) ≡ true
unfolding is_internal
is_internal_communications s = ground (arith, starts_with-append communications_path s)

is_internal-communications_path : is_internal communications_path ≡ true
is_internal-communications_path =
    ap is_internal (sym (append-nil communications_path)) ∙ is_internal_communications []

-- The paths for the internal port.
abbrev pub IsInternalPath : Text → Type 0
IsInternalPath path =
    (path ≡ codes "/v1/alerts/alertmanager")
    ⊎ ((rest : Text) × ((path ≡ codes "/v1/notifications/synthetic" ++ rest)
          ⊎ ((path ≡ codes "/v1/delivery-ledger/" ++ rest)
              ⊎ (path ≡ codes "/v1/administrative/communications" ++ rest))))

IsInternalPath-is_internal : (path : Text) → IsInternalPath path → is_internal path ≡ true
IsInternalPath-is_internal path (inl alerts) = ap is_internal alerts ∙ is_internal_alertmanager
IsInternalPath-is_internal path (inr (rest, inl e)) = ap is_internal e ∙ is_internal_synthetic rest
IsInternalPath-is_internal path (inr (rest, inr (inl e))) =
    ap is_internal e ∙ is_internal_delivery_ledger rest
IsInternalPath-is_internal path (inr (rest, inr (inr e))) =
    ap is_internal e ∙ is_internal_communications rest

module _ (app : App) (req : Request) where
  is_local-false : req.server_port ≢ some app.settings.port → is_local app req ≡ false
  unfolding is_local
  is_local-false other_port = go req.server_port other_port
    where
      go :
          (o : Option ℕ)
          → o ≢ some app.settings.port
          → elim o [ none ↦ false | some p ↦ p == app.settings.port ] ≡ false
      go none h = refl
      go (some p) h = elim (Bool-cases (p == app.settings.port)) [
        | inl alike ↦ absurd (h (ap some (ground (arith, alike))))
        | inr differ ↦ differ
      ]

  -- The middleware always finds an identity, and changes nothing for it but at most one tick.
  pub request_id-ok :
      (w : World)
      → (id : Text) × (n : ℕ) × (w.ticks ≤ n)
        × (n ≤ suc w.ticks)
        × (request_id app req w ≡ (ok id, record w { ticks = n }))
  unfolding request_id
  request_id-ok w = go (
      ltb 64 (length (req.header "X-Request-ID"))
      || not (is_ascii (req.header "X-Request-ID"))
      || is_blank (req.header "X-Request-ID"))
    where
      go :
          (b : Bool)
          → (id : Text) × (n : ℕ) × (w.ticks ≤ n)
            × (n ≤ suc w.ticks)
            × ((if b then uuid4 app.env else pure (req.header "X-Request-ID")) w
                ≡ (ok id, record w { ticks = n }))
      go true = (_, suc w.ticks, omega arith, omega arith, refl)
      go false = (_, w.ticks, omega arith, omega arith, refl)

  -- The middleware's two tests.
  blocked :
      (w : World)
      → is_internal req.url_path ≡ true
      → is_local app req ≡ false
      → let (r, w') = request_observability app req w in
        ((id : Text) × (r ≡ ok (with_request_id id not_found)))
        × Unchanged w w'
        × (w'.metrics ≡ w.metrics)
  unfolding request_observability
  blocked w internal public =
      let (id, n, _, _, e) = request_id-ok w in
      rw (internal, public)
        (subst
          (λ p.
            let (r, w') =
              ((λ _. p) >>= λ (i : Text). pure {A = Response} (with_request_id i not_found)) w in
            ((i : Text) × (r ≡ ok (with_request_id i not_found)))
            × Unchanged w w'
            × (w'.metrics ≡ w.metrics))
          (sym e) ((id, refl), record { store = refl; sent = refl; requests = refl }, refl))

  -- Whatever its headers and its body, a request is answered with 404 by the middleware, and nothing
  -- is recorded, sent or asked and no counter changes, where the port of its server is missing or is
  -- not the internal port, and its path is that of the alerts, or starts with that of the synthetic
  -- notifications, of the delivery ledger or of the administrative communications.
  pub request_observability_blocked :
      (w : World)
      → IsInternalPath req.url_path
      → req.server_port ≢ some app.settings.port
      → let (r, w') = request_observability app req w in
        ((response : Response) × (r ≡ ok response)
          × (response.status_code ≡ 404)
          × (response.content ≡ Content.error "NOT_FOUND" "Resource not found"))
        × Unchanged w w'
        × (w'.metrics ≡ w.metrics)
  request_observability_blocked w internal public =
      let ((id, answered), same_world, counters) =
        blocked w (IsInternalPath-is_internal req.url_path internal) (is_local-false public) in
      ((with_request_id id not_found, answered, refl, refl), same_world, counters)

  ready-Unchanged : (w : World) → Unchanged w (ready app w).1
  unfolding ready
  ready-Unchanged w = go (app.env.feishu_ready w.ticks)
    where
      v : World
      v = record w { ticks = suc w.ticks }

      go :
          (a : Exn ⊎ Bool)
          → Unchanged w
              (((λ _. (answer a, v)) >>= λ up u.
                  pure
                    (readiness_response up (not app.ws_enabled || app.connection_running u.ticks))
                    u)
                w).1
      go (inl exc) = record { store = refl; sent = refl; requests = refl }
      go (inr up) = record { store = refl; sent = refl; requests = refl }

  module _ (routing : IsRouting app.match) (hex : IsHexDigest app.crypto) where
    -- The endpoint of a request changes nothing, or its path is internal, or it is signed.
    endpoint-Unchanged :
        (e : Endpoint) (w : World)
        → app.match req.method req.path ≡ e
        → UnchangedUnless
            ((is_internal req.path ≡ true) ⊎ IsSignedNotification app req)
            w
            (endpoint app req e w).1
    unfolding endpoint
    endpoint-Unchanged Endpoint.health w m = inl (Unchanged-refl w)
    endpoint-Unchanged Endpoint.ready w m = inl (ready-Unchanged w)
    endpoint-Unchanged Endpoint.metrics w m = inl (Unchanged-refl w)
    endpoint-Unchanged (Endpoint.unmatched status_code) w m = inl (Unchanged-refl w)
    endpoint-Unchanged Endpoint.notifications w m = elim (notifications-Unchanged app req hex w) [
      | inl same_world ↦ inl same_world
      | inr signed ↦ inr (inr signed)
    ]
    endpoint-Unchanged Endpoint.alertmanager w m =
        inr (inl (ap is_internal (routing.to_alertmanager _ _ m) ∙ is_internal_alertmanager))
    endpoint-Unchanged Endpoint.communications w m =
        inr
          (inl (ap is_internal (routing.to_communications _ _ m) ∙ is_internal-communications_path))
    endpoint-Unchanged Endpoint.prepare w m =
        inr (inl (ap is_internal (routing.to_prepare _ _ m) ∙ is_internal_synthetic _))
    endpoint-Unchanged Endpoint.probe w m =
        inr (inl (ap is_internal (routing.to_probe _ _ m) ∙ is_internal_synthetic _))
    endpoint-Unchanged (Endpoint.communication_ledger id) w m = inr (
        inl (
          ap is_internal (routing.to_communication_ledger _ _ id m) ∙ is_internal_communications _))
    endpoint-Unchanged (Endpoint.delivery_ledger id) w m = inr (
        inl (ap is_internal (routing.to_delivery_ledger _ _ id m) ∙ is_internal_delivery_ledger id))

    handled-Unchanged :
        (id : Text) (w : World)
        → UnchangedUnless
            ((is_internal req.path ≡ true) ⊎ IsSignedNotification app req)
            w
            (handled app req id w).1
    unfolding handled call_next
    handled-Unchanged id w =
        let P = (is_internal req.path ≡ true) ⊎ IsSignedNotification app req in
        let e = app.match req.method req.path in
        unless-bind P (call_next app req w) (observed app req id) w
          (unless-catch P (endpoint app req e w) by_exception w (endpoint-Unchanged e w refl)
            by_exception-Unchanged)
          (λ a v. record { store = refl; sent = refl; requests = refl })

    -- Where the routes are those that the decorators declare, the digests are lower-case hexadecimal,
    -- and the path that the middleware looks at is the one that is routed, a request changes nothing,
    -- that is records nothing in the store, sends no message and asks nothing of the control plane,
    -- unless it arrives on the internal port or bears a signature of its body under the key of
    -- notifications that is authentic at some reading of the clock.
    pub request_observability-IsSigned :
        (w : World)
        → req.url_path ≡ req.path
        → UnchangedUnless
            ((is_local app req ≡ true) ⊎ IsSignedNotification app req)
            w
            (request_observability app req w).1
    unfolding request_observability
    request_observability-IsSigned w seen = elim (Bool-cases (is_local app req)) [
      | inl local ↦ inr (inl local)
      | inr foreign ↦ elim (Bool-cases (is_internal req.url_path)) [
        | inl internal ↦ inl (blocked w internal foreign).1
        | inr open_path ↦ rw open_path (public open_path)
      ]
    ]
      where
        Q : Type 0
        Q = (is_local app req ≡ true) ⊎ IsSignedNotification app req

        -- On a path that is not internal only a signature is left.
        signed_only :
            (v v' : World)
            → is_internal req.url_path ≡ false
            → UnchangedUnless ((is_internal req.path ≡ true) ⊎ IsSignedNotification app req) v v'
            → UnchangedUnless Q v v'
        signed_only v v' open_path (inl same_world) = inl same_world
        signed_only v v' open_path (inr (inl internal)) =
            absurd (ground (arith, ap is_internal seen))
        signed_only v v' open_path (inr (inr signed)) = inr (inr signed)

        public :
            is_internal req.url_path ≡ false
            → UnchangedUnless Q w ((request_id app req >>= handled app req) w).1
        public open_path =
            let (id, n, _, _, e) = request_id-ok w in
            let v : World = record w { ticks = n } in
            subst (λ p. UnchangedUnless Q w (((λ _. p) >>= handled app req) w).1) (sym e)
              (Unchanged-after Q (record { store = refl; sent = refl; requests = refl })
                (signed_only v (handled app req id v).1 open_path (handled-Unchanged id v)))
