-- ===== src/Feishu/Connection/Senders.antt =====
-- Whose messages can change anything: `on_message` of src/feishu_dify_gateway/feishu.py and
-- `handle_feishu_text` of src/feishu_dify_gateway/service.py.
use feishu_dify_gateway.Base.{◌≡◌, refl, inl, inr, some, List, Bool-cases}
use feishu_dify_gateway.Text.{Text, is_ascii, same, same→eq, strip}
use feishu_dify_gateway.Service.Monad.{Environment, World}
use feishu_dify_gateway.Service.Chat.{handle_feishu_text}
use feishu_dify_gateway.App.Access.{UnchangedUnless}
use feishu_dify_gateway.Feishu.{normalized_prefix}
use feishu_dify_gateway.Feishu.Route.{IsCommand}
use feishu_dify_gateway.Feishu.Ingress.{Post}
use feishu_dify_gateway.Feishu.Metadata.{Event, EventMessage}
use feishu_dify_gateway.Feishu.Connection.{
  Gateway, identified, message_text, connection_prefix, received,
}
use feishu_dify_gateway.Feishu.Connection.Lanes.{Lane, dropped, to_chat, to_ingress, received-Lane}

module _ (env : Environment) (event_id open_id text : Text) where
  -- The handler changes something for the allowed user only, whatever the identities are.
  handle_feishu_text-Unchanged :
      (w : World)
      → UnchangedUnless
          (open_id ≡ env.feishu_allowed_open_id)
          w
          (handle_feishu_text env event_id open_id text w).1
  unfolding handle_feishu_text
  handle_feishu_text-Unchanged w = elim (Bool-cases (is_ascii open_id)) [
    | inr foreign ↦ rw foreign (inl (record { store = refl; sent = refl; requests = refl }))
    | inl ascii ↦ elim (Bool-cases (is_ascii env.feishu_allowed_open_id)) [
      | inr foreign ↦
          rw (ascii, foreign) (inl (record { store = refl; sent = refl; requests = refl }))
      | inl allowed_ascii ↦ elim (Bool-cases (same open_id env.feishu_allowed_open_id)) [
        | inl alike ↦ inr (same→eq open_id env.feishu_allowed_open_id alike)
        | inr differ ↦
            rw (ascii, allowed_ascii, differ)
              (inl (record { store = refl; sent = refl; requests = refl }))
      ]
    ]
  ]

-- The event is a text message of the allowed user that is no administrative command.
abbrev pub IsFromAllowedUser : Gateway → Event → Type 0
IsFromAllowedUser g e =
    (event_id : Text) × (open_id : Text) × (text : Text) × (message : EventMessage) × (identified e
      ≡ some (event_id, open_id, message))
    × (open_id ≡ g.env.feishu_allowed_open_id)
    × (message_text g.loads message ≡ some (some text))
    × (¬ IsCommand (strip text) (normalized_prefix (connection_prefix g.settings)))

-- A message of the long connection leaves the store, the sent messages and the requests of the
-- control plane as they are, unless its sender's identity is that of the allowed user and it is a
-- text that is no administrative command.
pub received-IsFromAllowedUser :
    (g : Gateway) (e : Event) (w : World) (log : List Post)
    → UnchangedUnless (IsFromAllowedUser g e) w (received g e (w, log)).0
received-IsFromAllowedUser g e w log = go (received-Lane g e w log)
  where
    go : {s : World × List Post} → Lane g e w log s → UnchangedUnless (IsFromAllowedUser g e) w s.0
    go dropped = inl (record { store = refl; sent = refl; requests = refl })
    go (to_ingress _ _ _ _ _ _ _ _ _ _ _ _) =
        inl (record { store = refl; sent = refl; requests = refl })
    go (to_chat event_id open_id text message parts spelled ordinary) =
        elim (handle_feishu_text-Unchanged g.env event_id open_id text w) [
          | inl same_world ↦ inl same_world
          | inr allowed ↦ inr (event_id, open_id, text, message, parts, allowed, spelled, ordinary)
        ]
