-- ===== src/Feishu/Connection.antt =====
-- `FeishuLongConnection` of src/feishu_dify_gateway/feishu.py as the `lifespan` of
-- src/feishu_dify_gateway/app.py sets it up: what one message of the long connection starts. The
-- thread, the log lines and the SDK's loop are not modelled; a message is handled before the next.
pub mod Lanes
pub mod Senders
use feishu_dify_gateway.Base.{
  Bool, false, not, Option, none, some, List, [], ◌∷◌, if◌then◌else◌, or_else,
}
use feishu_dify_gateway.Partial.{◌>>=◌}
use feishu_dify_gateway.Text.{Text, same, strip, is_blank, codes}
use feishu_dify_gateway.Errors.{Result}
use feishu_dify_gateway.Config.{Settings}
use feishu_dify_gateway.Service.Monad.{Environment, World}
use feishu_dify_gateway.Service.Chat.{handle_feishu_text}
use feishu_dify_gateway.Feishu.{normalized_prefix, is_administrative_route}
use feishu_dify_gateway.Feishu.Ingress.{Answer, Post, send_metadata}
use feishu_dify_gateway.Feishu.Metadata.{
  EventMessage, Event, FeishuEventMetadata, nonblank_text, truthy, extract_feishu_event_metadata,
  ProviderEnvelope, provider_envelope,
}

-- What `json.loads` makes of a text: a ValueError, a value with no `get`, or an object with the
-- value of "text", where that is a text.
pub data Content : Type 0 where
  invalid : Content
  not_an_object : Content
  object : Option Text → Content

-- The settings, the service's environment, the answers of the administrative ingress, `json.loads`
-- and the JSON text of an envelope.
pub record Gateway : Type 0 where
  pub settings : Settings
  pub env : Environment
  pub answer : List Post → Answer
  pub loads : Text → Content
  pub serialize : ProviderEnvelope → Text

-- `administrative_ingress is not None`
abbrev pub has_ingress : Settings → Bool
has_ingress s = not (is_blank (strip s.administrative_ingress_base_url))

-- The prefix that `lifespan` passes, as the connection keeps it.
unfoldable pub connection_prefix : Settings → Text
connection_prefix s =
    normalized_prefix (if has_ingress s then s.administrative_route_prefix else [])

-- `content or "{}"`
abbrev pub content_or_empty : Option Text → Text
content_or_empty none = codes "{}"
content_or_empty (some []) = codes "{}"
content_or_empty (some (c ∷ t)) = c ∷ t

-- `content.get("text")`, which raises where there is no `get`; the outer `none` is that exception.
abbrev pub content_text : Content → Option (Option Text)
content_text invalid = some none
content_text not_an_object = none
content_text (object text) = some (nonblank_text text)

abbrev pub is_text_message : Option Text → Bool
is_text_message none = false
is_text_message (some t) = same t (codes "text")

unfoldable pub message_text : (loads : Text → Content) → EventMessage → Option (Option Text)
message_text loads message =
    if is_text_message message.message_type
    then content_text (loads (content_or_empty message.content))
    else some none

-- What a message starts: nothing, the chat handler, or the metadata handler.
pub data Dispatched : Type 0 where
  nothing : Dispatched
  chat : (event_id open_id text : Text) → Dispatched
  handed_off : FeishuEventMetadata → Dispatched

-- `if self._metadata_handler is not None and metadata is not None`
abbrev pub hand_off : Bool → Option FeishuEventMetadata → Dispatched
hand_off has_handler none = nothing
hand_off has_handler (some m) = if has_handler then handed_off m else nothing

-- `dispatch`, with the test before it that leaves out a call that would do nothing.
unfoldable pub dispatch :
    Settings
    → (event_id open_id : Text) → (text : Option Text) → Option FeishuEventMetadata
    → Dispatched
dispatch s event_id open_id none metadata = hand_off (has_ingress s) metadata
dispatch s event_id open_id (some text) metadata =
    if is_administrative_route text (connection_prefix s)
    then hand_off (has_ingress s) metadata
    else chat event_id open_id text

-- The parts that `on_message` takes from an event before it looks at the text; `none` is a return.
unfoldable pub identified : Event → Option (Text × Text × EventMessage)
identified e = do
  event ← e.event
  message ← event.message
  sender ← event.sender
  sender_id ← sender.sender_id
  open_id ← truthy sender_id
  event_id ←
      or_else (truthy message.message_id) (e.header >>= λ header. nonblank_text header.event_id)
  some (event_id, open_id, message)

-- The body of `on_message`; `none` is a return or an exception.
unfoldable pub message_dispatched : Gateway → Event → Option Dispatched
unfolding identified message_text dispatch
message_dispatched g e = do
  (event_id, open_id, message) ← identified e
  metadata ← extract_feishu_event_metadata e
  text ← message_text g.loads message
  some (dispatch g.settings event_id open_id text metadata)

abbrev pub or_nothing : Option Dispatched → Dispatched
or_nothing none = nothing
or_nothing (some d) = d

-- `on_message`; an exception is logged.
unfoldable pub on_message : Gateway → Event → Dispatched
unfolding message_dispatched
on_message g e = or_nothing (message_dispatched g e)

-- What is started, with the posts to the administrative ingress, the latest first. An exception of
-- a handler is logged.
unfoldable pub start : Gateway → Dispatched → World × List Post → World × List Post
start g nothing (w, log) = (w, log)
start g (chat event_id open_id text) (w, log) =
    ((handle_feishu_text g.env event_id open_id text w).1, log)
start g (handed_off m) (w, log) = (
  w,
  (send_metadata g.answer g.settings.administrative_ingress_shared_secret 3
      (g.serialize (provider_envelope m)) log).1,
)

unfoldable pub received : Gateway → Event → World × List Post → World × List Post
unfolding on_message start
received g e state = start g (on_message g e) state
