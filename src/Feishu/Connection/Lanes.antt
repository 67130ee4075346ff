-- ===== src/Feishu/Connection/Lanes.antt =====
-- Which execution system one message of the long connection reaches (`on_message` of
-- src/feishu_dify_gateway/feishu.py, as src/feishu_dify_gateway/app.py sets it up).
use feishu_dify_gateway.Base.{
  ℕ, ◌≤◌, ◌≡◌, refl, sym, ap, ◌∙◌, inl, inr, true, Option, none, some, List, arith, Bool-cases,
  Option-cases,
}
use mathlib.Core.Path.{subst}
use feishu_dify_gateway.Partial.{bind_some, some_inj}
use feishu_dify_gateway.Text.{Text, strip}
use feishu_dify_gateway.Config.{Settings, route_prefix}
use feishu_dify_gateway.Config.RoutePrefix.{route_prefix-normalized_prefix}
use feishu_dify_gateway.Service.Monad.{World}
use feishu_dify_gateway.Service.Chat.{handle_feishu_text}
use feishu_dify_gateway.Feishu.{normalized_prefix, is_administrative_route}
use feishu_dify_gateway.Feishu.Route.{IsCommand, is_administrative_route_iff}
use feishu_dify_gateway.Feishu.Ingress.{Post}
use feishu_dify_gateway.Feishu.Ingress.Attempts.{posted, send_metadata-Ends}
use feishu_dify_gateway.Feishu.Metadata.{
  EventMessage, Event, FeishuEventMetadata, extract_feishu_event_metadata, provider_envelope,
}
use feishu_dify_gateway.Feishu.Connection.{
  Gateway, has_ingress, connection_prefix, message_text, Dispatched, hand_off, dispatch, identified,
  message_dispatched, on_message, start, received,
}

-- A message with no text, or whose text is an administrative command.
abbrev pub IsReserved : (prefix : Text) → Option Text → Type 0
IsReserved prefix none = Unit
IsReserved prefix (some text) = IsCommand (strip text) (normalized_prefix prefix)

-- The post of an event's metadata.
abbrev pub post_of : Gateway → FeishuEventMetadata → Post
post_of g m = record {
  token = strip g.settings.administrative_ingress_shared_secret;
  payload = g.serialize (provider_envelope m);
}

-- The three ways of a message: it is dropped, it reaches the chat handler alone, or its metadata
-- reach the administrative ingress alone.
pub data Lane (g : Gateway) (e : Event) (w : World) (log : List Post)
    : World × List Post → Type 0 where
  dropped : Lane g e w log (w, log)
  to_chat :
      (event_id open_id text : Text) (message : EventMessage)
      → identified e ≡ some (event_id, open_id, message)
      → message_text g.loads message ≡ some (some text)
      → ¬ IsCommand (strip text) (normalized_prefix (connection_prefix g.settings))
      → Lane g e w log ((handle_feishu_text g.env event_id open_id text w).1, log)
  to_ingress :
      (event_id open_id : Text) (text : Option Text) (message : EventMessage)
      (m : FeishuEventMetadata) (n : ℕ)
      → identified e ≡ some (event_id, open_id, message)
      → message_text g.loads message ≡ some text
      → IsReserved (connection_prefix g.settings) text
      → extract_feishu_event_metadata e ≡ some (some m)
      → has_ingress g.settings ≡ true
      → n ≤ 3
      → Lane g e w log (w, posted n (post_of g m) log)

module _ (g : Gateway) (e : Event) (w : World) (log : List Post) where
  posted-Lane :
      (event_id open_id : Text) (text : Option Text) (message : EventMessage)
      (m : FeishuEventMetadata) {log' : List Post}
      → identified e ≡ some (event_id, open_id, message)
      → message_text g.loads message ≡ some text
      → IsReserved (connection_prefix g.settings) text
      → extract_feishu_event_metadata e ≡ some (some m)
      → has_ingress g.settings ≡ true
      → {limit : ℕ} → limit ≤ 3
      → (n : ℕ) × (n ≤ limit) × (log' ≡ posted n (post_of g m) log)
      → Lane g e w log (w, log')
  posted-Lane event_id open_id text message m parts spelled reserved metadata ingress few
        (n, le, posts) =
      subst (λ l. Lane g e w log (w, l)) (sym posts)
        (to_ingress event_id open_id text message m n parts spelled reserved metadata ingress
          (omega (arith, le, few)))

  hand_off-Lane :
      (event_id open_id : Text) (text : Option Text) (message : EventMessage)
      (metadata : Option FeishuEventMetadata)
      → identified e ≡ some (event_id, open_id, message)
      → message_text g.loads message ≡ some text
      → IsReserved (connection_prefix g.settings) text
      → extract_feishu_event_metadata e ≡ some metadata
      → Lane g e w log (start g (hand_off (has_ingress g.settings) metadata) (w, log))
  unfolding start
  hand_off-Lane event_id open_id text message none parts spelled reserved no_metadata = dropped
  hand_off-Lane event_id open_id text message (some m) parts spelled reserved metadata =
      elim (Bool-cases (has_ingress g.settings)) [
        | inl ingress ↦ rw ingress (
            posted-Lane event_id open_id text message m parts spelled reserved metadata ingress
              (ground arith)
              (send_metadata-Ends g.answer g.settings.administrative_ingress_shared_secret 3
                (g.serialize (provider_envelope m)) log).1)
        | inr none_there ↦ rw none_there dropped
      ]

  dispatch-Lane :
      (event_id open_id : Text) (text : Option Text) (message : EventMessage)
      (metadata : Option FeishuEventMetadata)
      → identified e ≡ some (event_id, open_id, message)
      → message_text g.loads message ≡ some text
      → extract_feishu_event_metadata e ≡ some metadata
      → Lane g e w log (start g (dispatch g.settings event_id open_id text metadata) (w, log))
  unfolding dispatch start
  dispatch-Lane event_id open_id none message metadata parts spelled read =
      hand_off-Lane event_id open_id none message metadata parts spelled tt read
  dispatch-Lane event_id open_id (some text) message metadata parts spelled read =
      let route = is_administrative_route_iff text (connection_prefix g.settings) in
      elim (Bool-cases (is_administrative_route text (connection_prefix g.settings))) [
        | inl administrative ↦ rw administrative (
            hand_off-Lane event_id open_id (some text) message metadata parts spelled
              (route.0 administrative) read)
        | inr ordinary ↦ rw ordinary (
            to_chat event_id open_id text message parts spelled
              (λ command. let yes = route.1 command in cc))
      ]

  started-Lane :
      (d : Dispatched) → message_dispatched g e ≡ some d → Lane g e w log (start g d (w, log))
  unfolding message_dispatched
  started-Lane d going =
      let ((event_id, open_id, message), parts, rest) = bind_some (identified e) _ going in
      let (metadata, read, rest') = bind_some (extract_feishu_event_metadata e) _ rest in
      let (text, spelled, last) = bind_some (message_text g.loads message) _ rest' in
      subst (λ d'. Lane g e w log (start g d' (w, log))) (some_inj last)
        (dispatch-Lane event_id open_id text message metadata parts spelled read)

  -- Every message is dropped, or it reaches the chat handler alone, or its metadata alone are posted,
  -- at most three times, to the administrative ingress. It reaches the chat handler only with a text
  -- that is no administrative command, and the ingress only without such a text and where an ingress
  -- is configured. So the state of the gateway is unchanged or nothing is posted.
  pub received-Lane : Lane g e w log (received g e (w, log))
  unfolding received on_message
  received-Lane = elim (Option-cases (message_dispatched g e)) [
    | inl stopped ↦ rw stopped (unfold start in dropped)
    | inr (d, going) ↦ rw going (started-Lane d going)
  ]

prefix_kept :
    (s : Settings)
    → has_ingress s ≡ true
    → normalized_prefix s.administrative_route_prefix ≡ s.administrative_route_prefix
    → normalized_prefix (connection_prefix s) ≡ s.administrative_route_prefix
unfolding connection_prefix
prefix_kept s ingress kept = rw (ingress, kept, kept) refl

-- A message that does not reach the chat handler.
unmoved :
    (g : Gateway) (e : Event) (w : World) (log : List Post) (event_id open_id text : Text)
    (message : EventMessage)
    → identified e ≡ some (event_id, open_id, message)
    → message_text g.loads message ≡ some (some text)
    → IsCommand (strip text) (normalized_prefix (connection_prefix g.settings))
    → {s : World × List Post} → Lane g e w log s
    → s.0 ≡ w
unmoved g e w log event_id open_id text message parts spelled command dropped = refl
unmoved g e w log event_id open_id text message parts spelled command
      (to_chat id' open_id' text' message' parts' spelled' ordinary) =
    let message_eq : message ≡ message' = ap (λ q. q.2) (some_inj (sym parts ∙ parts')) in
    let text_eq : text ≡ text' =
      some_inj (some_inj (sym spelled ∙ ap (message_text g.loads) message_eq ∙ spelled')) in
    absurd (
      ordinary (
        subst (λ t. IsCommand (strip t) (normalized_prefix (connection_prefix g.settings))) text_eq
          command))
unmoved g e w log event_id open_id text message parts spelled command
      (to_ingress id' open_id' text' message' m n parts' spelled' reserved metadata ingress few) =
    refl

-- Where an administrative ingress is configured, and `ADMINISTRATIVE_ROUTE_PREFIX` has been accepted
-- as the prefix of the settings, a text message that is this prefix, or goes on after it with
-- whitespace, leaves the state of the gateway as it is: no chat command is run, nothing is sent, and
-- neither the store nor a metric changes.
pub received_command :
    (g : Gateway) (e : Event) (w : World) (log : List Post) (raw event_id open_id text : Text)
    (message : EventMessage)
    → has_ingress g.settings ≡ true
    → route_prefix raw ≡ some g.settings.administrative_route_prefix
    → identified e ≡ some (event_id, open_id, message)
    → message_text g.loads message ≡ some (some text)
    → IsCommand (strip text) g.settings.administrative_route_prefix
    → (received g e (w, log)).0 ≡ w
received_command g e w log raw event_id open_id text message ingress accepted parts spelled
      command =
    let (_, kept) =
      route_prefix-normalized_prefix raw g.settings.administrative_route_prefix accepted in
    unmoved g e w log event_id open_id text message parts spelled
      (rw (prefix_kept g.settings ingress kept) command) (received-Lane g e w log)
