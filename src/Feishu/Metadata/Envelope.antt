-- ===== src/Feishu/Metadata/Envelope.antt =====
-- What `provider_envelope` of src/feishu_dify_gateway/feishu.py keeps of an event.
use feishu_dify_gateway.Base.{◌≡◌, refl, Option, none, some, [], ◌∷◌, or_else, ◌∙◌, ap}
use feishu_dify_gateway.Partial.{bind_some, none-some, some_inj}
use mathlib.Core.Path.{subst}
use feishu_dify_gateway.Text.{Text, strip, codes, lstrip, rstrip, is_space}
use feishu_dify_gateway.Feishu.Metadata.{
  string, Header, Sender, EventMessage, Event, FeishuEventMetadata, nonblank_text, provider_time,
  time_or, metadata_of, extract_feishu_event_metadata, ProviderEnvelope, truthy, provider_envelope,
  metadata_at, parts_of, metadata_of_parts,
}
use feishu_dify_gateway.Feishu.Metadata.Field.{
  IsField, field, either_field, text_or_field, nonblank_text_idem, IsTime, provider_time-IsTime,
}

-- What an event's metadata satisfy.
pub record IsMetadata (m : FeishuEventMetadata) : Type 0 where
  pub event_id : IsField m.event_id
  pub event_type : IsField m.event_type
  pub tenant_key : IsField m.tenant_key
  pub message_id : IsField m.message_id
  pub root_id : nonblank_text m.root_id ≡ m.root_id
  pub parent_id : nonblank_text m.parent_id ≡ m.parent_id
  pub thread_id : nonblank_text m.thread_id ≡ m.thread_id
  pub sender_open_id : IsField m.sender_open_id
  pub create_time : IsTime m.create_time
  pub verification_token : nonblank_text m.verification_token ≡ m.verification_token
  pub message_type : IsField m.message_type

event_type_field : IsField (codes "im.message.receive_v1")
unfolding strip rstrip lstrip is_space
event_type_field = refl

message_type_field : IsField (codes "text")
unfolding strip rstrip lstrip is_space
message_type_field = refl

metadata_at-IsMetadata :
    (header : Header) (message : EventMessage) (sender : Sender) (open_id time : Option Text)
    {m : FeishuEventMetadata}
    → ((t : Text) → time ≡ some t → IsTime t)
    → metadata_at header message sender open_id time ≡ some m
    → IsMetadata m
unfolding metadata_at
metadata_at-IsMetadata header message sender open_id time readable e =
    let (event_id, e1, h1) = bind_some (nonblank_text header.event_id) _ e in
    let (message_id, e2, h2) = bind_some (nonblank_text message.message_id) _ h1 in
    let (tenant_key, e3, h3) =
      bind_some (or_else (nonblank_text header.tenant_key) (nonblank_text sender.tenant_key)) _
        h2 in
    let (sender_open_id, e4, h4) = bind_some (nonblank_text open_id) _ h3 in
    let (create_time, e5, h5) = bind_some time _ h4 in
    subst IsMetadata (some_inj h5) (record {
      event_id = field header.event_id e1;
      event_type = text_or_field header.event_type (codes "im.message.receive_v1") event_type_field;
      tenant_key = either_field header.tenant_key sender.tenant_key e3;
      message_id = field message.message_id e2;
      root_id = nonblank_text_idem message.root_id;
      parent_id = nonblank_text_idem message.parent_id;
      thread_id = nonblank_text_idem message.thread_id;
      sender_open_id = field open_id e4;
      create_time = readable create_time e5;
      verification_token = nonblank_text_idem header.token;
      message_type = text_or_field message.message_type (codes "text") message_type_field;
    })

parts-IsMetadata :
    (parts : Option (Header × EventMessage × Sender × Option Text)) {m : FeishuEventMetadata}
    → metadata_of_parts parts ≡ some (some m)
    → IsMetadata m
unfolding metadata_of
parts-IsMetadata none h = absurd (none-some (some_inj h))
parts-IsMetadata (some (header, message, sender, open_id)) h =
    let when = time_or message.create_time header.create_time in
    let (time, e, h1) = bind_some (provider_time when) _ h in
    metadata_at-IsMetadata header message sender open_id time
      (λ t some_t. provider_time-IsTime when (e ∙ ap some some_t)) (some_inj h1)

extract-IsMetadata :
    (e : Event) {m : FeishuEventMetadata}
    → extract_feishu_event_metadata e ≡ some (some m)
    → IsMetadata m
unfolding extract_feishu_event_metadata
extract-IsMetadata e h = parts-IsMetadata (parts_of e) h

-- The event of the SDK whose fields are those of an envelope.
abbrev pub event_of : ProviderEnvelope → Event
event_of v = record {
  header = some (record {
    event_id = some v.header.event_id;
    event_type = some v.header.event_type;
    tenant_key = some v.header.tenant_key;
    create_time = string v.header.create_time;
    token = v.header.token;
  });
  event = some (record {
    sender = some (record { sender_id = some (some v.open_id); tenant_key = none });
    message = some (record {
      message_id = some v.message.message_id;
      root_id = v.message.root_id;
      parent_id = v.message.parent_id;
      thread_id = none;
      create_time = string v.message.create_time;
      message_type = some v.message.message_type;
      content = none;
    });
  });
}

truthy_field : (o : Option Text) → nonblank_text o ≡ o → truthy o ≡ o
unfolding strip lstrip rstrip
truthy_field none h = refl
truthy_field (some []) h = absurd (none-some h)
truthy_field (some (c ∷ t)) h = refl

or_else_field :
    (a b : Option Text)
    → nonblank_text a ≡ a
    → nonblank_text b ≡ b
    → nonblank_text (or_else a b) ≡ or_else a b
or_else_field none b ha hb = hb
or_else_field (some t) b ha hb = ha

same_time : (t : Text) → time_or (string t) (string t) ≡ string t
same_time [] = refl
same_time (c ∷ t) = refl

-- The thread id stands as the root id where there is none, and is dropped.
abbrev pub threaded : FeishuEventMetadata → FeishuEventMetadata
threaded m = record m { root_id = or_else m.root_id m.thread_id; thread_id = none }

envelope_kept :
    (m : FeishuEventMetadata)
    → IsMetadata m
    → extract_feishu_event_metadata (event_of (provider_envelope m)) ≡ some (some (threaded m))
unfolding extract_feishu_event_metadata metadata_of metadata_at parts_of provider_envelope
envelope_kept m h =
    rw
      (
        truthy_field m.root_id h.root_id,
        truthy_field m.thread_id h.thread_id,
        truthy_field m.parent_id h.parent_id,
        truthy_field m.verification_token h.verification_token,
        same_time m.create_time,
        h.event_id,
        h.message_id,
        h.tenant_key,
        h.sender_open_id,
        h.create_time,
        h.event_type,
        h.message_type,
        h.parent_id,
        h.verification_token,
        or_else_field m.root_id m.thread_id h.root_id h.thread_id,
      )
      refl

-- For every event that has metadata, `_nonblank_text` leaves each of their texts as it is, and
-- `_provider_time` their time. Read as an event of the SDK, field by field, the envelope of these
-- metadata has metadata again: they have no thread id, their root id is the root id or, where there
-- is none, the thread id, and all the others are the same. So a thread id beside a root id is lost.
pub extract-provider_envelope :
    (e : Event) (m : FeishuEventMetadata)
    → extract_feishu_event_metadata e ≡ some (some m)
    → IsMetadata m
      × (extract_feishu_event_metadata (event_of (provider_envelope m)) ≡ some (some (threaded m)))
extract-provider_envelope e m h = (extract-IsMetadata e h, envelope_kept m (extract-IsMetadata e h))
