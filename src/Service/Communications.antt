-- ===== src/Service/Communications.antt =====
-- `GatewayService.send_administrative_communication` of src/feishu_dify_gateway/service.py.
pub mod Once
pub mod AtMostOnce
use feishu_dify_gateway.Base.{Bool, true, false, ◌&&◌, Option, none, some, ◌++◌, if◌then◌else◌}
use feishu_dify_gateway.Text.{Text, codes, same}
use feishu_dify_gateway.Errors.{Exn, gateway, GatewayError, ok}
use feishu_dify_gateway.Metrics.{Update}
use feishu_dify_gateway.Models.{
  AdministrativeCommunicationRequest, AdministrativeCommunicationAcceptedResponse,
}
use feishu_dify_gateway.Store.{
  AdministrativeCommunicationLedgerEntry, begin_administrative_communication,
  administrative_communication_for, mark_administrative_communication_transport_accepted,
  mark_administrative_communication_unknown, CommunicationStatus,
}
use feishu_dify_gateway.Service.Monad.{
  Environment, Action, pure, raise, catch, gets, modify, inc, time, send_text, ◌>>=◌, ◌>>◌,
}
use feishu_dify_gateway.Service.Sending.{delivery_failure}

abbrev pub event_conflict : GatewayError
event_conflict = record {
  code = "EVENT_CONFLICT";
  safe_message = "Communication event identity was reused with different content";
  status_code = 409;
}

abbrev pub ledger_unavailable : GatewayError
ledger_unavailable = record {
  code = "LEDGER_UNAVAILABLE";
  safe_message = "Communication ledger unavailable";
  status_code = 503;
}

abbrev pub outcome_unknown_error : GatewayError
outcome_unknown_error = record {
  code = "COMMUNICATION_OUTCOME_UNKNOWN";
  safe_message = "Communication transport outcome is unknown; reconcile before retrying";
  status_code = 503;
}

-- The response that repeats what the ledger holds.
abbrev pub recorded :
    Text → AdministrativeCommunicationLedgerEntry → AdministrativeCommunicationAcceptedResponse
recorded event_id e = record {
  event_id = event_id;
  status = e.status;
  transport_accepted = e.transport_accepted;
  delivery_confirmed = e.delivery_confirmed;
  provider_message_ref = e.provider_message_ref;
}

-- The request has the content of the ledger's row.
abbrev pub same_content :
    (body_digest recipient_digest : Text) → AdministrativeCommunicationLedgerEntry → Bool
same_content body_digest recipient_digest e =
    same e.body_digest body_digest && same e.recipient_digest recipient_digest

-- `uuid.uuid5(FEISHU_DELIVERY_NAMESPACE, f"administrative:{event_id}")`
abbrev pub communication_key : Environment → Text → Text
communication_key env event_id = env.uuid5 (codes "administrative:" ++ event_id)

-- `existing is not None`
pub existing_communication :
    (event_id body_digest recipient_digest : Text)
    → AdministrativeCommunicationLedgerEntry
    → Action AdministrativeCommunicationAcceptedResponse
existing_communication event_id body_digest recipient_digest e =
    if same_content body_digest recipient_digest e
    then (do inc (Update.administrative_communications "deduplicated"); pure (recorded event_id e))
    else raise (gateway event_conflict)

-- The row was inserted by another call since the query.
pub lost_race :
    (event_id body_digest recipient_digest : Text)
    → Option AdministrativeCommunicationLedgerEntry
    → Action AdministrativeCommunicationAcceptedResponse
lost_race event_id body_digest recipient_digest none = raise (gateway ledger_unavailable)
lost_race event_id body_digest recipient_digest (some e) =
    if same_content body_digest recipient_digest e
    then pure (recorded event_id e)
    else raise (gateway event_conflict)

-- The `except` block.
pub communication_failed : Environment → Text → Exn → Action (Option Text)
unfolding delivery_failure
communication_failed env event_id exc = do
  now ← time env
  modify (λ s. mark_administrative_communication_unknown s event_id (delivery_failure exc).0 now)
  inc (Update.administrative_communication_states "outcome_unknown")
  raise (gateway outcome_unknown_error)

pub communication_accepted :
    Environment → Text → Option Text → Action AdministrativeCommunicationAcceptedResponse
communication_accepted env event_id provider_ref = do
  now ← time env
  modify (λ s. mark_administrative_communication_transport_accepted s event_id provider_ref now)
  inc (Update.administrative_communication_states "transport_accepted")
  inc (Update.administrative_communication_attempts "accepted")
  later ← time env
  inc (Update.last_success "administrative_communication" later)
  pure (record {
    event_id = event_id;
    status = CommunicationStatus.transport_accepted;
    transport_accepted = true;
    delivery_confirmed = false;
    provider_message_ref = provider_ref;
  })

-- The row is prepared.
pub send_communication :
    Environment
    → Text
    → AdministrativeCommunicationRequest
    → Action AdministrativeCommunicationAcceptedResponse
send_communication env event_id c = do
  inc (Update.administrative_communication_states "prepared")
  inc (Update.administrative_communication_attempts "attempt")
  provider_ref ←
      catch (send_text env c.recipient_open_id c.text (communication_key env event_id))
        (communication_failed env event_id)
  communication_accepted env event_id provider_ref

-- The call of `begin_administrative_communication`.
abbrev pub begin : Environment → (event_id body_digest recipient_digest : Text) → Action Bool
begin env event_id body_digest recipient_digest = do
  now ← time env
  λ w.
      let (inserted, s) =
        begin_administrative_communication w.store event_id body_digest recipient_digest now in
      (ok inserted, record w { store = s })

pub new_communication :
    Environment
    → Text
    → AdministrativeCommunicationRequest
    → (body_digest recipient_digest : Text) → Action AdministrativeCommunicationAcceptedResponse
new_communication env event_id c body_digest recipient_digest = do
  begun ← begin env event_id body_digest recipient_digest
  if begun
      then send_communication env event_id c
      else (gets (λ s. administrative_communication_for s event_id)
          >>= lost_race event_id body_digest recipient_digest)

pub by_ledger :
    Environment
    → Text
    → AdministrativeCommunicationRequest
    → (body_digest recipient_digest : Text) → Option AdministrativeCommunicationLedgerEntry
    → Action AdministrativeCommunicationAcceptedResponse
by_ledger env event_id c body_digest recipient_digest none =
    new_communication env event_id c body_digest recipient_digest
by_ledger env event_id c body_digest recipient_digest (some e) =
    existing_communication event_id body_digest recipient_digest e

unfoldable pub send_administrative_communication :
    Environment
    → (event_id : Text) → AdministrativeCommunicationRequest
    → (body_digest : Text) → Action AdministrativeCommunicationAcceptedResponse
unfolding by_ledger new_communication existing_communication lost_race
send_administrative_communication env event_id c body_digest = do
  existing ← gets (λ s. administrative_communication_for s event_id)
  by_ledger env event_id c body_digest (env.sha256 c.recipient_open_id) existing
