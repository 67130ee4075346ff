-- ===== src/Service/Communications/Once.antt =====
-- `send_administrative_communication` of src/feishu_dify_gateway/service.py sends each event at most
-- once.
use feishu_dify_gateway.Base.{
  ℕ, ◌≡◌, refl, ap, ◌∙◌, inl, inr, true, false, none, some, ◌∷◌, arith, Option-cases, ◌⊎◌,
  Bool-cases,
}
use feishu_dify_gateway.Text.{Text, same, same_refl, same_iff}
use feishu_dify_gateway.Errors.{Result, ok, raised, gateway}
use feishu_dify_gateway.Models.{
  AdministrativeCommunicationRequest, AdministrativeCommunicationAcceptedResponse,
}
use feishu_dify_gateway.Store.{
  AdministrativeCommunicationLedgerEntry, CommunicationStatus, communication_row, ended_as,
  communication_accepted as accepted_row, administrative_communication_for,
}
use feishu_dify_gateway.Store.CommunicationViews.{
  communication_for-begin, communication_for-accepted, communication_for-unknown, begin_inserted,
}
use feishu_dify_gateway.Service.Monad.{
  Environment, World, Send, SendOutcome, accepted, failed, send_result, catch, ◌>>=◌,
}
use feishu_dify_gateway.Service.Sending.{failure_code}
use feishu_dify_gateway.Service.Communications.{
  recorded, same_content, outcome_unknown_error, communication_key, by_ledger,
  existing_communication, communication_failed, communication_accepted, send_communication,
  new_communication, send_administrative_communication,
}

module _ (env : Environment) (event_id : Text) (c : AdministrativeCommunicationRequest)
    (digest : Text) where
  -- A communication whose event is in the ledger sends nothing and changes no row. Where the row has
  -- the digests of its body and of its recipient, it is answered with the status, the flags and the
  -- reference of the row; where it lacks one of them, it is refused with EVENT_CONFLICT and status
  -- 409.
  pub communication_replay :
      (w : World) (e : AdministrativeCommunicationLedgerEntry)
      → administrative_communication_for w.store event_id ≡ some e
      → let (r, w') = send_administrative_communication env event_id c digest w in
        (w'.sent ≡ w.sent)
        × (w'.store ≡ w.store)
        × (((e.body_digest ≡ digest)
              × (e.recipient_digest ≡ env.sha256 c.recipient_open_id)
              × (r
                  ≡ ok (record {
                    event_id = event_id;
                    status = e.status;
                    transport_accepted = e.transport_accepted;
                    delivery_confirmed = e.delivery_confirmed;
                    provider_message_ref = e.provider_message_ref;
                  })))
            ⊎ ((¬ (
                  (e.body_digest ≡ digest) × (e.recipient_digest ≡ env.sha256 c.recipient_open_id)))
                × (r
                    ≡ raised (
                        gateway (record {
                          code = "EVENT_CONFLICT";
                          safe_message =
                              "Communication event identity was reused with different content";
                          status_code = 409;
                        })))))
  unfolding send_administrative_communication
  communication_replay w e found =
      let body = same_iff e.body_digest digest in
      let recipient = same_iff e.recipient_digest (env.sha256 c.recipient_open_id) in
      rw (found, by_ledger)
        (unfold existing_communication in
          elim (Bool-cases (same e.body_digest digest)) [
            | inr differ ↦ rw differ (refl, refl, inr (λ (b, _). let yes = body.1 b in cc, refl))
            | inl alike ↦
                elim (Bool-cases (same e.recipient_digest (env.sha256 c.recipient_open_id))) [
                  | inr differ ↦
                      rw (alike, differ)
                        (refl, refl, inr (λ (_, r). let yes = recipient.1 r in cc, refl))
                  | inl equal ↦
                      rw (alike, equal) (refl, refl, inl (body.0 alike, recipient.0 equal, refl))
                ]
          ])

  abbrev pub communication_send : Send
  communication_send = record {
    recipient = c.recipient_open_id;
    text = c.text;
    idempotency_key = communication_key env event_id;
  }

  -- What the ledger and the caller have after the one send of a new communication.
  abbrev pub Reports :
      SendOutcome → Result AdministrativeCommunicationAcceptedResponse × World → Type 0
  Reports (accepted ref) (r, w) =
      (e : AdministrativeCommunicationLedgerEntry) × (administrative_communication_for w.store
          event_id
        ≡ some e)
      × (e.status ≡ CommunicationStatus.transport_accepted)
      × (same_content digest (env.sha256 c.recipient_open_id) e ≡ true)
      × (r ≡ ok (recorded event_id e))
  Reports (failed exc) (r, w) =
      (e : AdministrativeCommunicationLedgerEntry) × (administrative_communication_for w.store
          event_id
        ≡ some e)
      × (e.status ≡ CommunicationStatus.outcome_unknown)
      × (same_content digest (env.sha256 c.recipient_open_id) e ≡ true)
      × (e.last_error_code ≡ failure_code exc)
      × (r ≡ raised (gateway outcome_unknown_error))

  -- The end of the call, from the answer of the sender on.
  after_send-Reports :
      (o : SendOutcome) (w : World) (created : ℕ)
      → administrative_communication_for w.store event_id
        ≡ some (communication_row event_id digest (env.sha256 c.recipient_open_id) created)
      → let p =
          (catch (λ _. (send_result o, w)) (communication_failed env event_id)
              >>= communication_accepted env event_id)
            w in
        (p.1.sent ≡ w.sent) × Reports o p
  unfolding communication_failed communication_accepted
  after_send-Reports (accepted ref) w created found =
      let now = env.clock w.ticks in
      let row = communication_row event_id digest (env.sha256 c.recipient_open_id) created in
      (
        refl,
        (
          accepted_row ref now row,
          rw (
            communication_for-accepted w.store event_id event_id ref now,
            same_refl event_id,
            found,
          ),
          refl,
          rw (same_refl digest, same_refl (env.sha256 c.recipient_open_id)),
          refl,
        ),
      )
  after_send-Reports (failed exc) w created found =
      let now = env.clock w.ticks in
      let row = communication_row event_id digest (env.sha256 c.recipient_open_id) created in
      (
        refl,
        (
          ended_as CommunicationStatus.outcome_unknown (failure_code exc) now row,
          rw (
            communication_for-unknown w.store event_id event_id (failure_code exc) now,
            same_refl event_id,
            found,
          ),
          refl,
          rw (same_refl digest, same_refl (env.sha256 c.recipient_open_id)),
          refl,
          refl,
        ),
      )

  -- A communication whose event is new is sent once, under the key of its event, to its recipient.
  -- Where the sender returns, the row and the response say that the transport accepted it; where the
  -- sender raises, whatever the exception, the row says that the outcome is unknown, with the code of
  -- the exception, and the caller gets the error that tells it to reconcile.
  pub communication_new :
      (w : World)
      → administrative_communication_for w.store event_id ≡ none
      → let p = send_administrative_communication env event_id c digest w in
        (p.1.sent ≡ communication_send ∷ w.sent)
        × Reports (env.send (communication_send ∷ w.sent)) p
  unfolding send_administrative_communication
  communication_new w free =
      let now = env.clock w.ticks in
      let recipient = env.sha256 c.recipient_open_id in
      rw (free, by_ledger)
        (unfold new_communication in
          rw (begin_inserted w.store event_id digest recipient now free) (
            unfold send_communication in
            after_send-Reports (env.send (communication_send ∷ w.sent)) _ now (
              rw (
                communication_for-begin w.store event_id event_id digest recipient now,
                free,
                same_refl event_id,
              ))))

  after_send_frame :
      (o : SendOutcome) (w : World) (j : Text)
      → same event_id j ≡ false
      → administrative_communication_for
          ((catch (λ _. (send_result o, w)) (communication_failed env event_id)
              >>= communication_accepted env event_id)
            w).1.store
          j
        ≡ administrative_communication_for w.store j
  unfolding communication_failed communication_accepted
  after_send_frame (accepted ref) w j apart =
      rw (communication_for-accepted w.store event_id j ref (env.clock w.ticks), apart)
  after_send_frame (failed exc) w j apart =
      rw
        (communication_for-unknown w.store event_id j (failure_code exc) (env.clock w.ticks), apart)

  -- No call changes the row of another event.
  pub communication_frame :
      (w : World) (j : Text)
      → same event_id j ≡ false
      → administrative_communication_for
          (send_administrative_communication env event_id c digest w).1.store
          j
        ≡ administrative_communication_for w.store j
  communication_frame w j apart =
      elim (Option-cases (administrative_communication_for w.store event_id)) [
        | inl free ↦ fresh free
        | inr (e, found) ↦
            ap (λ s. administrative_communication_for s j) (communication_replay w e found).1
      ]
    where
      fresh :
          administrative_communication_for w.store event_id ≡ none
          → administrative_communication_for
              (send_administrative_communication env event_id c digest w).1.store
              j
            ≡ administrative_communication_for w.store j
      fresh free =
          let now = env.clock w.ticks in
          let recipient = env.sha256 c.recipient_open_id in
          unfold send_administrative_communication in
          rw (free, by_ledger)
            (unfold new_communication in
              rw (begin_inserted w.store event_id digest recipient now free) (
                unfold send_communication in
                after_send_frame (env.send (communication_send ∷ w.sent)) _ j apart
                ∙ rw (communication_for-begin w.store event_id j digest recipient now, apart)
                    (ground arith)))
