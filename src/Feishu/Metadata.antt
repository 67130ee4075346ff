-- ===== src/Feishu/Metadata.antt =====
-- `FeishuEventMetadata` and `extract_feishu_event_metadata` of src/feishu_dify_gateway/feishu.py. A
-- field of the SDK's objects is a text or None, a time also an integer, as the SDK declares them. The
-- outer `none` of a time and of the metadata is the ValueError of `int` and `str` for numbers of more
-- than 4300 digits.
pub mod Field
pub mod Envelope
use feishu_dify_gateway.Base.{
  ℕ, Bool, true, false, not, ◌&&◌, Option, none, some, [], ◌∷◌, leb, ltb, length, if◌then◌else◌,
  or_else,
}
use feishu_dify_gateway.Partial.{◌>>=◌}
use feishu_dify_gateway.Text.{Text, strip, is_blank, is_ascii, codes}
use feishu_dify_gateway.Security.{max_int_digits}
use feishu_dify_gateway.Text.Decimal.{decimal, is_digits, digits_value}

-- The value of a `create_time`.
pub data Time : Type 0 where
  absent : Time
  negative : Time
  integer : ℕ → Time
  string : Text → Time

-- The objects of the SDK.
pub record Header : Type 0 where
  pub event_id : Option Text
  pub event_type : Option Text
  pub tenant_key : Option Text
  pub create_time : Time
  pub token : Option Text

pub record Sender : Type 0 where
  pub sender_id : Option (Option Text)
  pub tenant_key : Option Text

pub record EventMessage : Type 0 where
  pub message_id : Option Text
  pub root_id : Option Text
  pub parent_id : Option Text
  pub thread_id : Option Text
  pub create_time : Time
  pub message_type : Option Text
  pub content : Option Text

pub record EventBody : Type 0 where
  pub sender : Option Sender
  pub message : Option EventMessage

pub record Event : Type 0 where
  pub header : Option Header
  pub event : Option EventBody

pub record FeishuEventMetadata : Type 0 where
  pub event_id : Text
  pub event_type : Text
  pub tenant_key : Text
  pub message_id : Text
  pub root_id : Option Text
  pub parent_id : Option Text
  pub thread_id : Option Text
  pub sender_open_id : Text
  pub create_time : Text
  pub verification_token : Option Text
  pub message_type : Text

-- `t if t else None`
abbrev pub filled : Text → Option Text
filled [] = none
filled (c ∷ t) = some (c ∷ t)

-- `_nonblank_text`
abbrev pub nonblank_text : Option Text → Option Text
nonblank_text none = none
nonblank_text (some t) = filled (strip t)

-- `int` and `str` refuse a number of more digits.
abbrev pub is_too_long : Text → Bool
is_too_long t = ltb max_int_digits (length t)

-- `int(text) < 1` and what follows.
abbrev pub time_of_digits : Text → Option (Option Text)
time_of_digits t =
    if is_too_long t then none else if leb 1 (digits_value 0 t) then some (some t) else some none

abbrev pub time_of_text : Option Text → Option (Option Text)
time_of_text none = some none
time_of_text (some t) = if is_ascii t && is_digits t then time_of_digits t else some none

-- `str(value)`
abbrev pub time_of_int : Text → Option (Option Text)
time_of_int t = if is_too_long t then none else some (some t)

-- `_provider_time`
abbrev pub provider_time : Time → Option (Option Text)
provider_time absent = some none
provider_time negative = some none
provider_time (integer n) = if leb 1 n then time_of_int (decimal n) else some none
provider_time (string t) = time_of_text (nonblank_text (some t))

abbrev pub is_truthy : Time → Bool
is_truthy absent = false
is_truthy negative = true
is_truthy (integer n) = leb 1 n
is_truthy (string t) = not (is_blank t)

-- `a or b` on two times.
abbrev pub time_or : Time → Time → Time
time_or a b = if is_truthy a then a else b

-- `a or b` on a text that is not empty, or None, and a default.
abbrev pub text_or : Option Text → Text → Text
text_or none d = d
text_or (some t) d = t

-- The metadata, from the time that was read.
pub metadata_at :
    Header
    → EventMessage
    → Sender
    → (open_id : Option Text) → (time : Option Text) → Option FeishuEventMetadata
metadata_at header message sender open_id time = do
  event_id ← nonblank_text header.event_id
  message_id ← nonblank_text message.message_id
  tenant_key ← or_else (nonblank_text header.tenant_key) (nonblank_text sender.tenant_key)
  sender_open_id ← nonblank_text open_id
  create_time ← time
  some (record {
    event_id = event_id;
    event_type = text_or (nonblank_text header.event_type) (codes "im.message.receive_v1");
    tenant_key = tenant_key;
    message_id = message_id;
    root_id = nonblank_text message.root_id;
    parent_id = nonblank_text message.parent_id;
    thread_id = nonblank_text message.thread_id;
    sender_open_id = sender_open_id;
    create_time = create_time;
    verification_token = nonblank_text header.token;
    message_type = text_or (nonblank_text message.message_type) (codes "text");
  })

-- What is left once the header, the message and the sender's id are there. The time is read before
-- the other fields are looked at.
unfoldable pub metadata_of :
    Header → EventMessage → Sender → (open_id : Option Text) → Option (Option FeishuEventMetadata)
unfolding metadata_at
metadata_of header message sender open_id = do
  time ← provider_time (time_or message.create_time header.create_time)
  some (metadata_at header message sender open_id time)

-- The header, the message and the sender of an event, with the sender's id.
pub parts_of : Event → Option (Header × EventMessage × Sender × Option Text)
parts_of data_of_event = do
  header ← data_of_event.header
  event ← data_of_event.event
  message ← event.message
  sender ← event.sender
  open_id ← sender.sender_id
  some (header, message, sender, open_id)

abbrev pub metadata_of_parts :
    Option (Header × EventMessage × Sender × Option Text) → Option (Option FeishuEventMetadata)
metadata_of_parts none = some none
metadata_of_parts (some (header, message, sender, open_id)) =
    metadata_of header message sender open_id

unfoldable pub extract_feishu_event_metadata : Event → Option (Option FeishuEventMetadata)
unfolding metadata_of parts_of
extract_feishu_event_metadata data_of_event = metadata_of_parts (parts_of data_of_event)

-- The JSON object of `provider_envelope`; `none` is a key that is not there.
pub record EnvelopeHeader : Type 0 where
  pub event_id : Text
  pub event_type : Text
  pub tenant_key : Text
  pub create_time : Text
  pub token : Option Text

pub record EnvelopeMessage : Type 0 where
  pub message_id : Text
  pub create_time : Text
  pub message_type : Text
  pub root_id : Option Text
  pub parent_id : Option Text

pub record ProviderEnvelope : Type 0 where
  pub schema : Text
  pub header : EnvelopeHeader
  pub open_id : Text
  pub message : EnvelopeMessage

-- `if text:`
abbrev pub truthy : Option Text → Option Text
truthy none = none
truthy (some t) = filled t

-- `if a or b: d[key] = a or b`
abbrev pub truthy_or : Option Text → Option Text → Option Text
truthy_or a b = or_else (truthy a) (truthy b)

unfoldable pub provider_envelope : FeishuEventMetadata → ProviderEnvelope
provider_envelope m = record {
  schema = codes "2.0";
  header = record {
    event_id = m.event_id;
    event_type = m.event_type;
    tenant_key = m.tenant_key;
    create_time = m.create_time;
    token = truthy m.verification_token;
  };
  open_id = m.sender_open_id;
  message = record {
    message_id = m.message_id;
    create_time = m.create_time;
    message_type = m.message_type;
    root_id = truthy_or m.root_id m.thread_id;
    parent_id = truthy m.parent_id;
  };
}
