-- ===== src/Store/Claims.antt =====
-- The life of an event in src/feishu_dify_gateway/store.py: free, claimed, done. The table
-- operations refine it key by key, and a claim excludes every other until it is released.
use feishu_dify_gateway.Base.{
  ℕ, ◌+◌, ◌≤◌, ◌≡◌, refl, inl, inr, Bool, true, false, ◌&&◌, Option, none, some, List, [], ◌∷◌,
  arith, if◌then◌else◌, Option-cases, is_none, option_map,
}
use feishu_dify_gateway.Text.{Text, same, same_iff}
use feishu_dify_gateway.Table.{find}
use feishu_dify_gateway.Table.Laws.{
  insert_or_ignore-HasUniqueKeys, upsert-HasUniqueKeys, delete_where-HasUniqueKeys, HasUniqueKeys,
  find-insert_or_ignore, insert_or_ignore-inserted, find-upsert, find-delete_where, find-key,
}
use feishu_dify_gateway.Store.Rows.{EventStatus, EventRow, StateStore, is_processing}
use feishu_dify_gateway.Store.ProcessedEvents.{
  event_row, claim_event, mark_processed, release_event,
}

-- What is known of one event: `none` is an event that nobody has claimed.
abbrev pub Claim : Type 0
Claim = Option EventStatus

unfoldable pub claim_of : StateStore → Text → Claim
unfolding find
claim_of s k = option_map EventRow.status (find EventRow.event_id k s.processed_events)

pub data EventOp : Type 0 where
  claim release : EventOp
  mark : EventStatus → EventOp

unfoldable pub run_event : EventOp → Text → ℕ → StateStore → StateStore
run_event EventOp.claim k now s = (claim_event s k now).1
run_event EventOp.release k now s = release_event s k
run_event (EventOp.mark status) k now s = mark_processed s k status now

-- The specification, on the claim of the event itself.
unfoldable pub spec : EventOp → Claim → Claim
spec EventOp.claim none = some EventStatus.processing
spec EventOp.claim (some status) = some status
spec EventOp.release (some EventStatus.processing) = none
spec EventOp.release c = c
spec (EventOp.mark status) c = some status

-- In a table of events with unique keys, each operation changes the claim of its own event as
-- specified, and of no other event.
pub run_event-refines-spec :
    (op : EventOp) (k j : Text) (now : ℕ) (s : StateStore)
    → HasUniqueKeys EventRow.event_id s.processed_events
    → claim_of (run_event op k now s) j
      ≡ (if same k j then spec op (claim_of s j) else claim_of s j)
unfolding claim_of run_event spec claim_event release_event mark_processed is_processing
run_event-refines-spec EventOp.claim k j now s h =
    rw
      (find-insert_or_ignore EventRow.event_id j (event_row k EventStatus.processing now)
        s.processed_events)
      (ground arith)
run_event-refines-spec EventOp.release k j now s h =
    rw
      (find-delete_where EventRow.event_id j
        (λ row. same row.event_id k && is_processing row.status) s.processed_events h)
      (elim (Option-cases (find EventRow.event_id j s.processed_events)) [
        | inl free ↦ ground arith
        | inr (row, e) ↦ ground (
          arith,
          find-key EventRow.event_id j s.processed_events row e,
          same_iff k j,
          same_iff row.event_id k,
          same_iff j k,
        )
      ])
run_event-refines-spec (EventOp.mark status) k j now s h =
    rw
      (find-upsert EventRow.event_id j (event_row k status now)
        (λ old. record old { status = status }) s.processed_events (λ e. refl))
      (ground arith)

pub claim_event-is_free :
    (k : Text) (now : ℕ) (s : StateStore) → (claim_event s k now).0 ≡ is_none (claim_of s k)
unfolding claim_event claim_of
claim_event-is_free k now s = ground (
  arith,
  insert_or_ignore-inserted EventRow.event_id (event_row k EventStatus.processing now)
      s.processed_events,
)

run_event-HasUniqueKeys :
    (op : EventOp) (k : Text) (now : ℕ) (s : StateStore)
    → HasUniqueKeys EventRow.event_id s.processed_events
    → HasUniqueKeys EventRow.event_id (run_event op k now s).processed_events
unfolding run_event claim_event release_event mark_processed
run_event-HasUniqueKeys EventOp.claim k now s h =
    insert_or_ignore-HasUniqueKeys EventRow.event_id _ s.processed_events h
run_event-HasUniqueKeys EventOp.release k now s h =
    delete_where-HasUniqueKeys EventRow.event_id _ s.processed_events h
run_event-HasUniqueKeys (EventOp.mark status) k now s h =
    upsert-HasUniqueKeys EventRow.event_id _ _ s.processed_events (λ e. refl) h

abbrev pub is_claim : EventOp → Bool
is_claim EventOp.claim = true
is_claim _ = false

abbrev pub is_release : EventOp → Bool
is_release EventOp.release = true
is_release _ = false

-- How often a claim of event `k` succeeds in a sequence of operations.
pub successes : Text → List (EventOp × Text × ℕ) → StateStore → ℕ
successes k [] s = 0
successes k ((op, j, now) ∷ ops) s =
    (if is_claim op && same j k && (claim_event s j now).0 then 1 else 0)
    + successes k ops (run_event op j now s)

-- No operation of the sequence releases event `k`.
abbrev pub NeverReleased : Text → List (EventOp × Text × ℕ) → Type 0
NeverReleased k [] = Unit
NeverReleased k ((op, j, now) ∷ ops) = (is_release op && same j k ≡ false) × NeverReleased k ops

claim_step :
    (k : Text) (op : EventOp) (j : Text) (now : ℕ) (s : StateStore) {n : ℕ}
    → HasUniqueKeys EventRow.event_id s.processed_events
    → is_release op && same j k ≡ false
    → n ≤ (if is_none (claim_of (run_event op j now s) k) then 1 else 0)
    → (if is_claim op && same j k && (claim_event s j now).0 then 1 else 0) + n
      ≤ (if is_none (claim_of s k) then 1 else 0)
unfolding spec
claim_step k EventOp.claim j now s h f b = ground (
  arith,
  run_event-refines-spec EventOp.claim j k now s h,
  claim_event-is_free j now s,
  same_iff j k,
)
claim_step k EventOp.release j now s h f b =
    ground (arith, run_event-refines-spec EventOp.release j k now s h, same_iff j k)
claim_step k (EventOp.mark status) j now s h f b =
    ground (arith, run_event-refines-spec (EventOp.mark status) j k now s h, same_iff j k)

-- In a table of events with unique keys, in whatever order the claims, releases and marks of all
-- events are interleaved: while event `k` is not released at most one claim of it succeeds, and
-- none if it is claimed or done already.
pub claim_exclusive :
    (k : Text) (ops : List (EventOp × Text × ℕ)) (s : StateStore)
    → HasUniqueKeys EventRow.event_id s.processed_events
    → NeverReleased k ops
    → successes k ops s ≤ (if is_none (claim_of s k) then 1 else 0)
unfolding successes
claim_exclusive k [] s h n = omega arith
claim_exclusive k ((op, j, now) ∷ ops) s h n =
    claim_step k op j now s h n.0
      (claim_exclusive k ops (run_event op j now s) (run_event-HasUniqueKeys op j now s h) n.1)
