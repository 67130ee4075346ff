-- ===== src/Tests/Store.antt =====
-- Runs of the store (src/feishu_dify_gateway/store.py).
use feishu_dify_gateway.Base.{
  ℕ, ◌≤◌, ◌≡◌, refl, inl, inr, some, List, [], ◌∷◌, if◌then◌else◌, is_none,
}
use feishu_dify_gateway.Store.Claims.{
  successes, EventOp, claim_of, NeverReleased, claim_exclusive, run_event, spec,
  run_event-refines-spec,
}
use feishu_dify_gateway.Store.{
  DeliveryLedgerEntry, prune, delivery_for, AdministrativeCommunicationLedgerEntry,
  administrative_communication_for, StateStore, EventStatus, ended_as, retrying, claim_event,
  delivering_row, CommunicationStatus, begin_delivery, communication_row, mark_delivery_retrying,
  release_event, mark_delivery_confirmed, mark_processed, begin_administrative_communication,
  mark_administrative_communication_unknown,
}
use feishu_dify_gateway.Store.Coherence.{IsWellFormed}
use feishu_dify_gateway.Text.{same, Text, codes}
use feishu_dify_gateway.Store.Preservation.{Write, run, run-IsWellFormed, apply}
use feishu_dify_gateway.Store.Retention.{prune-delivery_for}
use feishu_dify_gateway.Table.{find, update, upsert, insert_or_ignore, delete_where}

abbrev pub empty_store : StateStore
empty_store = record {
  processed_events = [];
  conversations = [];
  notification_delivery_ledger = [];
  administrative_communication_ledger = [];
}

empty_store-IsWellFormed : IsWellFormed empty_store
empty_store-IsWellFormed = record {
  events = tt;
  conversations = tt;
  deliveries = (tt, tt);
  communications = (tt, tt);
}

abbrev first : Text
first = codes "e1"

abbrev second : Text
second = codes "e2"

-- A delivery that waits for a retry, one that is confirmed, and a communication of unknown outcome.
abbrev writes : List Write
writes =
    Write.claim first 10
    ∷ Write.begin first "github" 10
    ∷ Write.retry first "FEISHU_UNAVAILABLE" 11 11
    ∷ Write.release first 11
    ∷ Write.claim second 12
    ∷ Write.begin second "sonar" 12
    ∷ Write.confirm second 13
    ∷ Write.mark second EventStatus.delivered 13
    ∷ Write.begin_communication first (codes "body") (codes "to") 14
    ∷ Write.unknown_communication first "UNEXPECTED_DELIVERY_ERROR" 15
    ∷ []

abbrev store : StateStore
store = run writes empty_store

run-IsWellFormed_example : IsWellFormed (run writes empty_store)
run-IsWellFormed_example = run-IsWellFormed writes empty_store empty_store-IsWellFormed

store-IsWellFormed : IsWellFormed store
store-IsWellFormed = run-IsWellFormed writes empty_store empty_store-IsWellFormed

abbrev waiting : DeliveryLedgerEntry
waiting = retrying "FEISHU_UNAVAILABLE" 11 11 (delivering_row first "github" 10)

delivery_for-store : delivery_for store first ≡ some waiting
unfolding delivery_for run apply claim_event begin_delivery mark_delivery_retrying release_event
    mark_delivery_confirmed mark_processed begin_administrative_communication
    mark_administrative_communication_unknown find update upsert insert_or_ignore delete_where same
delivery_for-store = refl

prune-delivery_for_example : delivery_for (prune store 5 1000).1 first ≡ some waiting
prune-delivery_for_example =
    prune-delivery_for store store-IsWellFormed 5 1000 first waiting delivery_for-store
      (inr (inl refl))

abbrev unknown : AdministrativeCommunicationLedgerEntry
unknown =
    ended_as CommunicationStatus.outcome_unknown "UNEXPECTED_DELIVERY_ERROR" 15
      (communication_row first (codes "body") (codes "to") 14)

communication_for-store : administrative_communication_for store first ≡ some unknown
unfolding administrative_communication_for run apply claim_event begin_delivery
    mark_delivery_retrying release_event mark_delivery_confirmed mark_processed
    begin_administrative_communication mark_administrative_communication_unknown find update upsert
    insert_or_ignore delete_where same
communication_for-store = refl

-- Two claims of one event, with one of another between them.
abbrev claims : List (EventOp × Text × ℕ)
claims =
    (EventOp.claim, first, 20)
    ∷ (EventOp.claim, second, 21)
    ∷ (EventOp.release, second, 22)
    ∷ (EventOp.claim, first, 23)
    ∷ []

claims-NeverReleased : NeverReleased first claims
unfolding same
claims-NeverReleased = (refl, (refl, (refl, (refl, tt))))

claim_exclusive_example :
    successes first claims store ≤ (if is_none (claim_of store first) then 1 else 0)
claim_exclusive_example =
    claim_exclusive first claims store store-IsWellFormed.events claims-NeverReleased

run_event-refines-spec_example : claim_of (run_event EventOp.release second 30 store) first ≡ (
    if same second first then spec EventOp.release (claim_of store first) else claim_of store first)
run_event-refines-spec_example =
    run_event-refines-spec EventOp.release second first 30 store store-IsWellFormed.events
