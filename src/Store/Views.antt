-- ===== src/Store/Views.antt =====
-- What each operation of src/feishu_dify_gateway/store.py shows to a later query: `claim_of` for the
-- events and `delivery_for` and `administrative_communication_for` for the two ledgers.
use feishu_dify_gateway.Base.{
  ℕ, String, ◌≡◌, refl, ap, ◌∙◌, ◌≢◌, inl, inr, true, false, none, some, arith, if◌then◌else◌,
  Option-cases, is_none, option_map, or_else,
}
use feishu_dify_gateway.Text.{Text, same}
use feishu_dify_gateway.Table.Laws.{find-update, find-upsert, insert_or_ignore-HasUniqueKeys}
use feishu_dify_gateway.Store.Rows.{DeliveryLedgerEntry, StateStore, EventStatus}
use feishu_dify_gateway.Store.ProcessedEvents.{
  claim_event, mark_processed, release_event, event_row,
}
use feishu_dify_gateway.Store.DeliveryLedger.{
  delivering_row, redelivering, confirmed, retrying, permanently_failed, begin_delivery,
  mark_delivery_confirmed, mark_delivery_retrying, mark_delivery_permanent_failed, delivery_for,
}
use feishu_dify_gateway.Store.Claims.{
  claim_of, EventOp, run_event, spec, run_event-refines-spec, claim_event-is_free,
}
use feishu_dify_gateway.Table.Laws.{HasUniqueKeys}
use feishu_dify_gateway.Store.Rows.{EventRow}
use feishu_dify_gateway.Text.{same_refl}
use feishu_dify_gateway.Table.{insert_or_ignore, find}

module _ (s : StateStore) (k j : Text) where
  pub delivery_for-begin_delivery :
      (source : String) (now : ℕ)
      → delivery_for (begin_delivery s k source now) j ≡ (
          if same k j
          then or_else
              (option_map (redelivering source now) (delivery_for s j))
              (some (delivering_row k source now))
          else delivery_for s j)
  unfolding delivery_for begin_delivery
  delivery_for-begin_delivery source now =
      find-upsert DeliveryLedgerEntry.event_id j (delivering_row k source now)
        (redelivering source now) s.notification_delivery_ledger (λ e. refl)

  pub delivery_for-mark_delivery_confirmed :
      (now : ℕ)
      → delivery_for (mark_delivery_confirmed s k now) j
        ≡ (if same k j then option_map (confirmed now) (delivery_for s j) else delivery_for s j)
  unfolding delivery_for mark_delivery_confirmed
  delivery_for-mark_delivery_confirmed now =
      find-update DeliveryLedgerEntry.event_id k j (confirmed now) s.notification_delivery_ledger
        (λ e. refl)

  pub delivery_for-mark_delivery_retrying :
      (code : String) (next now : ℕ)
      → delivery_for (mark_delivery_retrying s k code next now) j ≡ (
          if same k j
          then option_map (retrying code next now) (delivery_for s j)
          else delivery_for s j)
  unfolding delivery_for mark_delivery_retrying
  delivery_for-mark_delivery_retrying code next now =
      find-update DeliveryLedgerEntry.event_id k j (retrying code next now)
        s.notification_delivery_ledger (λ e. refl)

  pub delivery_for-mark_delivery_permanent_failed :
      (code : String) (now : ℕ)
      → delivery_for (mark_delivery_permanent_failed s k code now) j ≡ (
          if same k j
          then option_map (permanently_failed code now) (delivery_for s j)
          else delivery_for s j)
  unfolding delivery_for mark_delivery_permanent_failed
  delivery_for-mark_delivery_permanent_failed code now =
      find-update DeliveryLedgerEntry.event_id k j (permanently_failed code now)
        s.notification_delivery_ledger (λ e. refl)

  pub delivery_for-claim_event :
      (now : ℕ) → delivery_for (claim_event s k now).1 j ≡ delivery_for s j
  unfolding delivery_for claim_event
  delivery_for-claim_event now = refl

  pub delivery_for-mark_processed :
      (status : EventStatus) (now : ℕ)
      → delivery_for (mark_processed s k status now) j ≡ delivery_for s j
  unfolding delivery_for mark_processed
  delivery_for-mark_processed status now = refl

  pub delivery_for-release_event : delivery_for (release_event s k) j ≡ delivery_for s j
  unfolding delivery_for release_event
  delivery_for-release_event = refl

  pub claim_of-begin_delivery :
      (source : String) (now : ℕ) → claim_of (begin_delivery s k source now) j ≡ claim_of s j
  unfolding claim_of begin_delivery
  claim_of-begin_delivery source now = refl

  pub claim_of-mark_delivery_confirmed :
      (now : ℕ) → claim_of (mark_delivery_confirmed s k now) j ≡ claim_of s j
  unfolding claim_of mark_delivery_confirmed
  claim_of-mark_delivery_confirmed now = refl

  pub claim_of-mark_delivery_retrying :
      (code : String) (next now : ℕ)
      → claim_of (mark_delivery_retrying s k code next now) j ≡ claim_of s j
  unfolding claim_of mark_delivery_retrying
  claim_of-mark_delivery_retrying code next now = refl

  pub claim_of-mark_delivery_permanent_failed :
      (code : String) (now : ℕ)
      → claim_of (mark_delivery_permanent_failed s k code now) j ≡ claim_of s j
  unfolding claim_of mark_delivery_permanent_failed
  claim_of-mark_delivery_permanent_failed code now = refl

  pub claim_of-claim_event :
      (now : ℕ)
      → HasUniqueKeys EventRow.event_id s.processed_events
      → claim_of (claim_event s k now).1 j
        ≡ (if same k j then or_else (claim_of s j) (some EventStatus.processing) else claim_of s j)
  unfolding run_event spec
  claim_of-claim_event now h = ground (arith, run_event-refines-spec EventOp.claim k j now s h)

  pub claim_of-mark_processed :
      (status : EventStatus) (now : ℕ)
      → HasUniqueKeys EventRow.event_id s.processed_events
      → claim_of (mark_processed s k status now) j
        ≡ (if same k j then some status else claim_of s j)
  unfolding run_event spec
  claim_of-mark_processed status now h = run_event-refines-spec (EventOp.mark status) k j now s h

  pub claim_of-release_event :
      HasUniqueKeys EventRow.event_id s.processed_events
      → claim_of (release_event s k) j
        ≡ (if same k j then spec EventOp.release (claim_of s j) else claim_of s j)
  unfolding run_event spec
  claim_of-release_event h = run_event-refines-spec EventOp.release k j 0 s h

module _ (s : StateStore) (k : Text) where
  pub release_event_processing :
      HasUniqueKeys EventRow.event_id s.processed_events
      → claim_of s k ≡ some EventStatus.processing
      → claim_of (release_event s k) k ≡ none
  unfolding run_event spec
  release_event_processing h held =
      ground (arith, run_event-refines-spec EventOp.release k k 0 s h, same_refl k)

  pub claim_event-HasUniqueKeys :
      (now : ℕ)
      → HasUniqueKeys EventRow.event_id s.processed_events
      → HasUniqueKeys EventRow.event_id (claim_event s k now).1.processed_events
  unfolding claim_event
  claim_event-HasUniqueKeys now h =
      insert_or_ignore-HasUniqueKeys EventRow.event_id (event_row k EventStatus.processing now)
        s.processed_events h

  -- A free event is claimed.
  pub claim_event_free :
      (now : ℕ)
      → HasUniqueKeys EventRow.event_id s.processed_events
      → claim_of s k ≡ none
      → ((claim_event s k now).0 ≡ true)
        × (claim_of (claim_event s k now).1 k ≡ some EventStatus.processing)
  claim_event_free now h free = (
    claim_event-is_free k now s ∙ ap is_none free,
    rw (claim_of-claim_event s k k now h, same_refl k, free) refl,
  )

  -- The claim of an event that is claimed or done does nothing.
  pub claim_event_held : (now : ℕ) → claim_of s k ≢ none → claim_event s k now ≡ (false, s)
  unfolding claim_event insert_or_ignore claim_of
  claim_event_held now held = elim (Option-cases (find EventRow.event_id k s.processed_events)) [
    | inl free ↦ absurd (held (ap (option_map EventRow.status) free))
    | inr (row, e) ↦ rw e refl
  ]
