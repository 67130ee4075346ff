-- ===== src/Service/Communications/AtMostOnce.antt =====
-- How often the calls of `send_administrative_communication` of src/feishu_dify_gateway/service.py
-- send a message for one event.
use feishu_dify_gateway.Base.{
  ℕ, ◌+◌, ◌-◌, ◌≤◌, ◌≡◌, refl, ap, inl, inr, Bool, true, List, [], ◌∷◌, arith, if◌then◌else◌,
  Bool-cases, Option-cases, is_some, length,
}
use feishu_dify_gateway.Text.{Text, same, same→eq}
use feishu_dify_gateway.Errors.{Result}
use feishu_dify_gateway.Models.{
  AdministrativeCommunicationRequest, AdministrativeCommunicationAcceptedResponse,
}
use feishu_dify_gateway.Store.{administrative_communication_for}
use feishu_dify_gateway.Service.Monad.{Environment, World, SendOutcome, accepted, failed}
use feishu_dify_gateway.Service.Communications.{send_administrative_communication}
use mathlib.Core.Path.{subst}
use feishu_dify_gateway.Service.Communications.Once.{
  communication_new, communication_replay, communication_frame, Reports,
}

-- A call: the event, the request and the digest of its body.
pub record Call : Type 0 where
  pub event_id : Text
  pub request : AdministrativeCommunicationRequest
  pub body_digest : Text

abbrev pub perform : Environment → Call → World → World
perform env call w =
    (send_administrative_communication env call.event_id call.request call.body_digest w).1

-- How many messages the calls for one event send, in a sequence of calls.
pub sends_for : Environment → Text → List Call → World → ℕ
sends_for env k [] w = 0
sends_for env k (call ∷ calls) w =
    (if same call.event_id k then length (perform env call w).sent - length w.sent else 0)
    + sends_for env k calls (perform env call w)

abbrev pub is_recorded : Text → World → Bool
is_recorded k w = is_some (administrative_communication_for w.store k)

module _ (env : Environment) (k : Text) where
  -- One call for the event: it is recorded afterwards, and a message is sent only if it was not.
  perform-same :
      (call : Call) (w : World)
      → same call.event_id k ≡ true
      → (is_recorded k (perform env call w) ≡ true)
        × (length (perform env call w).sent - length w.sent ≤ (if is_recorded k w then 0 else 1))
  perform-same call w hit =
      let e = same→eq call.event_id k hit in
      subst
        (λ j.
          (is_recorded j (perform env call w) ≡ true)
          × (length (perform env call w).sent - length w.sent ≤ (if is_recorded j w then 0 else 1)))
        e
        (elim (Option-cases (administrative_communication_for w.store call.event_id)) [
          | inl free ↦
              let (sent, reports) =
                communication_new env call.event_id call.request call.body_digest w free in
              (recorded_by _ _ reports, rw (sent, free) (omega arith))
          | inr (row, found) ↦
              let (sent, store, _) =
                communication_replay env call.event_id call.request call.body_digest w row found in
              (rw (store, found) refl, rw (sent, found) (omega arith))
        ])
    where
      recorded_by :
          (o : SendOutcome) (p : Result AdministrativeCommunicationAcceptedResponse × World)
          → Reports env call.event_id call.request call.body_digest o p
          → is_recorded call.event_id p.1 ≡ true
      recorded_by (accepted ref) p (row, found, _, _, _) = ap is_some found
      recorded_by (failed exc) p (row, found, _, _, _, _) = ap is_some found

  -- Whatever calls are made, with whatever contents, in whatever order and however the sender
  -- answers, at most one message is sent for an event, and none if the ledger has the event already.
  pub communication_at_most_once :
      (calls : List Call) (w : World) → sends_for env k calls w ≤ (if is_recorded k w then 0 else 1)
  unfolding sends_for
  communication_at_most_once [] w = omega arith
  communication_at_most_once (call ∷ calls) w = elim (Bool-cases (same call.event_id k)) [
    | inl hit ↦
        ground
          (arith, perform-same call w hit, communication_at_most_once calls (perform env call w))
    | inr apart ↦ ground (
      arith,
      communication_frame env call.event_id call.request call.body_digest w k apart,
      communication_at_most_once calls (perform env call w),
    )
  ]
