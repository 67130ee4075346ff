-- ===== src/Tests/Feishu.antt =====
-- Runs of the Feishu sender, of the metadata of an event and of the long connection
-- (src/feishu_dify_gateway/feishu.py).
use feishu_dify_gateway.Base.{
  ◌+◌, ◌≡◌, refl, inr, true, false, none, some, [], arith, List, ◌∷◌, length,
}
use feishu_dify_gateway.Text.{
  codes, same, starts_with, strip, lstrip, rstrip, is_space, rstrip_slash, any_space,
}
use feishu_dify_gateway.Text.Decimal.{decimal, decimal_fuel}
use feishu_dify_gateway.Errors.{raised, ok}
use feishu_dify_gateway.Config.{route_prefix}
use feishu_dify_gateway.Service.Sending.{is_retryable}
use feishu_dify_gateway.Feishu.Route.{IsCommand}
use feishu_dify_gateway.Feishu.Ingress.{
  status, is_retryable_http, send_metadata, after_answer, attempts,
}
use feishu_dify_gateway.Feishu.Sender.{
  FeishuMessageResponse, Provider, Session, Reply, responded, send_text, send_failed,
  message_attempts, Message, post_message, after_message, access_token, provider_status_code,
}
use feishu_dify_gateway.Feishu.Sender.Delivery.{Sends, send_text-Sends}
use feishu_dify_gateway.Feishu.Sender.Unauthorized.{send_text_unauthorized}
use feishu_dify_gateway.Feishu.Metadata.{
  integer, absent, EventMessage, Event, FeishuEventMetadata, metadata_of,
  extract_feishu_event_metadata, provider_envelope,
}
use feishu_dify_gateway.Feishu.Metadata.Envelope.{
  event_of, threaded, extract-provider_envelope, IsMetadata,
}
use feishu_dify_gateway.Feishu.Connection.{
  Gateway, object, has_ingress, message_text, identified, received, on_message, message_dispatched,
  dispatch, connection_prefix,
}
use feishu_dify_gateway.Feishu.Connection.Lanes.{Lane, received-Lane, received_command}
use feishu_dify_gateway.Tests.Service.{start, working}
use feishu_dify_gateway.Tests.App.{settings}
use feishu_dify_gateway.Feishu.{is_administrative_route, normalized_prefix}
use feishu_dify_gateway.App.Access.{UnchangedUnless}
use feishu_dify_gateway.Feishu.Connection.Senders.{IsFromAllowedUser, received-IsFromAllowedUser}

abbrev accepted_message : Reply FeishuMessageResponse
accepted_message = record {
  status_code = 200;
  is_success = true;
  parsed = some (record { code_is_zero = true; message_id = some (codes "om_1") });
}

abbrev refused : Reply FeishuMessageResponse
refused = record { status_code = 401; is_success = false; parsed = none }

-- A provider that always gives a token, and always answers a message in the same way.
abbrev provider : Reply FeishuMessageResponse → Provider
provider reply = record {
  clock = λ t. 100 + t;
  authenticate = λ n. responded (record {
    status_code = 200;
    is_success = true;
    parsed =
        some (record {
          code_is_zero = true;
          tenant_access_token = some (codes "t-new");
          expire = 7200;
        });
  });
  deliver = λ posts. responded reply;
}

abbrev cached : Session
cached = record {
  token = codes "t-old";
  token_expires_at = 5000;
  token_posts = 0;
  posts = [];
  metrics = [];
  ticks = 0;
}

send_text-Sends_example :
    Sends
      (provider accepted_message)
      (codes "ou_ops")
      (codes "disk full")
      (codes "build-1")
      cached
      4
      (send_text
        (provider accepted_message)
        4
        (codes "ou_ops")
        (codes "disk full")
        (codes "build-1")
        cached)
send_text-Sends_example =
    send_text-Sends (provider accepted_message) (codes "ou_ops") (codes "disk full")
      (codes "build-1") 4 cached

send_text_unauthorized_example :
    let q =
      send_text
        (provider refused)
        4
        (codes "ou_ops")
        (codes "disk full")
        (codes "build-1")
        cached in
    (q.0 ≡ raised (send_failed 401))
    × (q.1.token ≡ [])
    × (q.1.posts
        ≡ record {
          token = cached.token;
          receive_id = codes "ou_ops";
          text = codes "disk full";
          uuid = codes "build-1";
        }
          ∷ cached.posts)
    × (is_retryable (send_failed 401) ≡ false)
send_text_unauthorized_example =
    send_text_unauthorized (provider refused) 4 (codes "ou_ops") (codes "disk full")
      (codes "build-1") cached refused refl (omega arith) refl refl refl

abbrev command : EventMessage
command = record {
  message_id = some (codes "om_2");
  root_id = none;
  parent_id = none;
  thread_id = some (codes " omt_1 ");
  create_time = integer 17;
  message_type = some (codes "text");
  content = some (codes "/admin list");
}

abbrev event : Event
event = record {
  header = some (record {
    event_id = some (codes "ev_2");
    event_type = none;
    tenant_key = none;
    create_time = absent;
    token = none;
  });
  event = some (record {
    sender =
        some
          (record { sender_id = some (some (codes "ou_ops")); tenant_key = some (codes "tenant") });
    message = some command;
  });
}

abbrev metadata : FeishuEventMetadata
metadata = record {
  event_id = codes "ev_2";
  event_type = codes "im.message.receive_v1";
  tenant_key = codes "tenant";
  message_id = codes "om_2";
  root_id = none;
  parent_id = none;
  thread_id = some (codes "omt_1");
  sender_open_id = codes "ou_ops";
  create_time = codes "17";
  verification_token = none;
  message_type = codes "text";
}

event_metadata : extract_feishu_event_metadata event ≡ some (some metadata)
unfolding extract_feishu_event_metadata metadata_of strip lstrip rstrip is_space decimal
    decimal_fuel
event_metadata = refl

extract-provider_envelope_example :
    IsMetadata metadata
    × (extract_feishu_event_metadata (event_of (provider_envelope metadata))
        ≡ some (some (threaded metadata)))
extract-provider_envelope_example = extract-provider_envelope event metadata event_metadata

-- The content of a message stands for its text.
abbrev gateway : Gateway
gateway = record {
  settings = settings;
  env = working;
  answer = λ log. status 202;
  loads = λ content. object (some content);
  serialize = λ envelope. envelope.header.event_id;
}

received-Lane_example : Lane gateway event start [] (received gateway event (start, []))
received-Lane_example = received-Lane gateway event start []

settings-has_ingress : has_ingress settings ≡ true
unfolding strip lstrip rstrip is_space
settings-has_ingress = refl

prefix_accepted : route_prefix (codes "/admin/") ≡ some settings.administrative_route_prefix
unfolding route_prefix starts_with strip lstrip rstrip is_space rstrip_slash any_space
prefix_accepted = refl

event_identified : identified event ≡ some (codes "om_2", codes "ou_ops", command)
unfolding identified
event_identified = refl

event_text : message_text gateway.loads command ≡ some (some (codes "/admin list"))
unfolding message_text same strip lstrip rstrip is_space
event_text = refl

event-IsCommand : IsCommand (strip (codes "/admin list")) settings.administrative_route_prefix
unfolding strip lstrip rstrip is_space
event-IsCommand = (λ e. cc, inr (b' ', codes "list", refl, refl))

received_command_example : (received gateway event (start, [])).0 ≡ start
received_command_example =
    received_command gateway event start [] (codes "/admin/") (codes "om_2") (codes "ou_ops")
      (codes "/admin list") command settings-has_ingress prefix_accepted event_identified event_text
      event-IsCommand

-- A provider that is overloaded at the first post of a message, and accepts the second.
abbrev overloaded_once : List Message → Reply FeishuMessageResponse
overloaded_once (m ∷ []) = record { status_code = 503; is_success = false; parsed = none }
overloaded_once _ = accepted_message

abbrev slow_provider : Provider
slow_provider = record (provider accepted_message) {
  deliver = λ posts. responded (overloaded_once posts);
}

sent_twice :
    let (r, s) =
      send_text slow_provider 4 (codes "ou_ops") (codes "disk full") (codes "build-1") cached in
    (r ≡ ok (some (codes "om_1"))) × (length s.posts ≡ 2)
unfolding send_text message_attempts post_message after_message access_token is_retryable_http
    provider_status_code
sent_twice = (refl, refl)

-- The command is posted once, and the chat handler is not called.
command_posted : length (received gateway event (start, [])).1 ≡ 1
unfolding received on_message message_dispatched identified message_text dispatch connection_prefix
    is_administrative_route normalized_prefix feishu_dify_gateway.Feishu.Connection.start
    extract_feishu_event_metadata metadata_of send_metadata attempts after_answer provider_envelope
    same starts_with strip lstrip rstrip rstrip_slash is_space decimal decimal_fuel
command_posted = refl

received-IsFromAllowedUser_example :
    UnchangedUnless (IsFromAllowedUser gateway event) start (received gateway event (start, [])).0
received-IsFromAllowedUser_example = received-IsFromAllowedUser gateway event start []
