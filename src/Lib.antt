-- ===== src/Lib.antt =====
-- The Feishu gateway (src/feishu_dify_gateway): it takes notifications, alert batches and internal
-- communications over HTTP and messages from a Feishu chat, and sends them on to Feishu users and to
-- a control plane. A SQLite file records which events are claimed or done and how each delivery went.
--
-- Base: names of the standard library that every file uses, Boolean tests on natural numbers, lists.
-- Text, Text/Strip, Text/Decimal: Python's str as a list of code points, with strip, isspace, isdigit
--   and the decimal numbers.
-- Partial: chains of optional values.
-- Table: an SQLite table with a text as primary key, and its statements; Table/Laws has what a query
--   sees after each of them.
-- Errors, Metrics, Models: src/feishu_dify_gateway/errors.py, metrics.py and models.py. Exceptions
--   are values, and the counters are a log of their updates.
-- Security: src/feishu_dify_gateway/security.py, with what verify_request accepts (Verify) and what a
--   signature covers (Binding).
-- Store: src/feishu_dify_gateway/store.py. Rows has the tables; ProcessedEvents, DeliveryLedger,
--   CommunicationLedger, Conversations and Prune have one function per method of StateStore, from a
--   store to a result and a store. Coherence says when a store is well-formed and Preservation that
--   every method keeps it so; Claims has the life of an event, Views and CommunicationViews what each
--   method changes, Retention what prune deletes.
-- Service: GatewayService of src/feishu_dify_gateway/service.py. A method is an action: from a
--   world (store, counters, messages sent, requests made, readings of the clock) to a result and
--   a world. Monad has the actions, with try and except; Split has split_text, Sending has
--   _send_chunks and _delivery_failure, Attempt the part that deliver_notification
--   (Notifications) and deliver_alerts (Alerts) share, Communications
--   send_administrative_communication (Once a call, AtMostOnce many), Commands _command_or_chat
--   and _control_plane_command, Replies their texts, Chat handle_feishu_text, and Synthetic the
--   synthetic notifications. Concurrent has the deliveries that the event loop interleaves, one
--   step from a call of the sender to the next (Turns, Exclusive), and Alone compares one of them
--   with the method. ControlPlane has ControlPlaneClient.request. Sending/Sends says what a
--   message sends, Notifications/Outcomes what a delivery does (with its message in Message and
--   the answer to a duplicate in Reply), and Attempt/Progress and Notifications/Eventually follow
--   a client that repeats its notification.
-- Feishu: src/feishu_dify_gateway/feishu.py. The file itself and Route have is_administrative_route,
--   Sender FeishuSender, with its token (Token), its posts (Delivery) and a refused token
--   (Unauthorized), Metadata extract_feishu_event_metadata and provider_envelope (Field and Envelope
--   follow the texts through both), Ingress AdministrativeIngressClient.send_metadata, and Connection
--   on_message of FeishuLongConnection as app.py sets it up, with the lanes of a message (Lanes)
--   and whose messages change anything (Senders).
-- App: src/feishu_dify_gateway/app.py. Http has requests, responses and what FastAPI does, Endpoints
--   the endpoints, Middleware request_observability; Access and Access/Ports say who may change
--   what, Served what a signed notification gets.
-- Config, Logging, Prometheus: config.py with _route_prefix and, in Config/Source, from_environment
--   and the test of __main__.py; the dict of json_logging.py; active_alerts and ready of prometheus.py
--   from the parsed answer on.
-- Tests: each theorem at a concrete input.
--
-- App runs Service actions on the world of Service, and Feishu/Connection runs either the chat handler
-- of Service or the ingress client. Service takes the sender, the control plane client and the
-- Prometheus client as parameters, so that they may answer in any way; Feishu/Sender,
-- Service/ControlPlane and Prometheus say what those of the gateway do. Parameters are also the
-- provider behind the sender, the clock, the hashes, str.lower, json.loads, the routing and the
-- parsing of FastAPI and pydantic, the environment and the files; a call of another system may return
-- or raise, and its answer may depend on all calls before it. An operation of the store is one step,
-- as it is under the lock of StateStore. Times are whole seconds. The loop of split_text takes fuel,
-- one more than the length of the text, which is enough for every positive limit; the service calls
-- it with 3500. The loops over attempts recur on the attempts left.
--
-- The middleware looks at request.url.path, FastAPI at the path of the scope: a theorem on the ports
-- has their equality as a hypothesis.
--
-- Not modelled: an exception of httpx for a header that is not ASCII, a negative port; the waits
-- between attempts, histograms and log lines; the threads, sockets and the SDK client of the long
-- connection (feishu.py, __main__.py), the tool capture_open_id.py, opening and closing of
-- clients and of the database, and of models.py the reading of JSON, dates and URLs.
pub mod Base
pub mod Partial
pub mod Text
pub mod Table
pub mod Errors
pub mod Security
pub mod Metrics
pub mod Logging
pub mod Store
pub mod Models
pub mod Service
pub mod Prometheus
pub mod Feishu
pub mod Config
pub mod App
pub mod Tests
