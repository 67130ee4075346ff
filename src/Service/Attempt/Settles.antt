-- ===== src/Service/Attempt/Settles.antt =====
-- How an attempt at a delivery (src/feishu_dify_gateway/service.py) leaves the event and its ledger
-- row: settled, whichever way the sender answers.
use feishu_dify_gateway.Base.{
  ℕ, suc, String, ◌≡◌, refl, ap, ◌∙◌, Bool, true, false, Option, none, some, arith, if◌then◌else◌,
}
use feishu_dify_gateway.Text.{Text, same_refl}
use feishu_dify_gateway.Table.Laws.{HasUniqueKeys}
use feishu_dify_gateway.Errors.{Exn, Result, ok, raised, diverged}
use feishu_dify_gateway.Store.{
  EventStatus, EventRow, DeliveryStatus, DeliveryLedgerEntry, StateStore, delivery_for,
  redelivering, mark_delivery_confirmed, begin_delivery, mark_delivery_retrying,
  mark_delivery_permanent_failed, permanently_failed, retrying,
}
use feishu_dify_gateway.Store.Claims.{claim_of}
use feishu_dify_gateway.Service.Monad.{Environment, World, catch, ◌>>◌, bind_raised, inc, raise}
use feishu_dify_gateway.Service.Sending.{send_chunks, failure_code, is_retryable}
use feishu_dify_gateway.Service.Sending.Sends.{OnlySends, send_chunks-OnlySends}
use feishu_dify_gateway.Service.Attempt.{
  attempt, delivery_failed, delivery_succeeded, begin_attempt, retry_later, give_up,
}
use feishu_dify_gateway.Store.Views.{
  claim_of-mark_processed, delivery_for-begin_delivery, claim_of-begin_delivery,
  delivery_for-mark_processed, release_event_processing,
  delivery_for-mark_delivery_permanent_failed, claim_of-mark_delivery_retrying,
  delivery_for-mark_delivery_confirmed, delivery_for-release_event,
  delivery_for-mark_delivery_retrying,
}
use feishu_dify_gateway.Store.{delivering_row}
use feishu_dify_gateway.Store.{confirmed}
use feishu_dify_gateway.Metrics.{Update}
use mathlib.Core.Path.{subst}

-- The ledger row of a confirmed delivery.
pub record IsConfirmed (e : DeliveryLedgerEntry) : Type 0 where
  pub status : e.status ≡ DeliveryStatus.delivery_confirmed
  pub delivery_confirmed : e.delivery_confirmed ≡ true
  pub transport_accepted : e.transport_accepted ≡ true

-- The ledger row of a failed one, with the code of the exception.
pub record IsFailed (status : DeliveryStatus) (code : String) (e : DeliveryLedgerEntry)
    : Type 0 where
  pub status_is : e.status ≡ status
  pub code_is : e.last_error_code ≡ code
  pub transport_accepted : e.transport_accepted ≡ true

abbrev pub HasRow : (DeliveryLedgerEntry → Type 0) → StateStore → Text → Type 0
HasRow P s id = (e : DeliveryLedgerEntry) × (delivery_for s id ≡ some e) × P e

-- The row of `id` and the claim of `key` after the attempt: confirmed and done, or to be retried and
-- free, or failed and done.
abbrev pub Settles : (id key : Text) → Result (Unit {0}) × World → Type 0
Settles id key (ok _, w) =
    (claim_of w.store key ≡ some EventStatus.delivered) × HasRow IsConfirmed w.store id
Settles id key (raised exc, w) =
    if is_retryable exc
    then (claim_of w.store key ≡ none)
      × HasRow (IsFailed DeliveryStatus.retrying (failure_code exc)) w.store id
    else (claim_of w.store key ≡ some EventStatus.permanent_failed)
      × HasRow (IsFailed DeliveryStatus.permanent_failed (failure_code exc)) w.store id
Settles id key (diverged, w) = ⊥

module _ (env : Environment) (source : String) (id key : Text) where
  -- What the parts of an attempt need of the store: the row is there, the claim is held.
  record IsAttempting (s : StateStore) : Type 0 where
    keys : HasUniqueKeys EventRow.event_id s.processed_events
    claimed : claim_of s key ≡ some EventStatus.processing
    row : HasRow (λ e. e.transport_accepted ≡ true) s id

  begin_attempt-IsAttempting :
      (w : World)
      → HasUniqueKeys EventRow.event_id w.store.processed_events
      → claim_of w.store key ≡ some EventStatus.processing
      → IsAttempting (begin_attempt env source id w).1.store
  unfolding begin_attempt
  begin_attempt-IsAttempting w keys claimed =
      let now = env.clock w.ticks in
      record {
        keys = unfold begin_delivery in keys;
        claimed = claim_of-begin_delivery w.store id key source now ∙ claimed;
        row = begun (delivery_for w.store id) refl;
      }
    where
      now : ℕ
      now = env.clock w.ticks

      begun :
          (o : Option DeliveryLedgerEntry)
          → delivery_for w.store id ≡ o
          → HasRow (λ e. e.transport_accepted ≡ true) (begin_delivery w.store id source now) id
      begun none e = (
        delivering_row id source now,
        rw (delivery_for-begin_delivery w.store id id source now, same_refl id, e),
        refl,
      )
      begun (some old) e = (
        redelivering source now old,
        rw (delivery_for-begin_delivery w.store id id source now, same_refl id, e),
        refl,
      )

  delivery_succeeded-Settles :
      (w : World) → IsAttempting w.store → Settles id key (delivery_succeeded env id key w)
  unfolding delivery_succeeded
  delivery_succeeded-Settles w h =
      let (e, found, transported) = h.row in
      let now = env.clock w.ticks in
      let s = mark_delivery_confirmed w.store id now in
      (
        claim_of-mark_processed s key key EventStatus.delivered (env.clock (suc w.ticks))
              (unfold mark_delivery_confirmed in h.keys)
            ∙ ap (λ b. if b then some EventStatus.delivered else claim_of s key) (same_refl key),
        (
          confirmed now e,
          rw (
            delivery_for-mark_processed s key id EventStatus.delivered (env.clock (suc w.ticks)),
            delivery_for-mark_delivery_confirmed w.store id id now,
            same_refl id,
            found,
          ),
          record { status = refl; delivery_confirmed = refl; transport_accepted = transported },
        ),
      )

  retry_later-Settles :
      (code : String) (w : World)
      → IsAttempting w.store
      → let w' = (retry_later env source id key code w).1 in
        (claim_of w'.store key ≡ none) × HasRow (IsFailed DeliveryStatus.retrying code) w'.store id
  unfolding retry_later
  retry_later-Settles code w h =
      let (e, found, transported) = h.row in
      let next = env.clock w.ticks in
      let now = env.clock (suc w.ticks) in
      let s = mark_delivery_retrying w.store id code next now in
      (
        release_event_processing s key (unfold mark_delivery_retrying in h.keys)
            (claim_of-mark_delivery_retrying w.store id key code next now ∙ h.claimed),
        (
          retrying code next now e,
          rw (
            delivery_for-release_event s key id,
            delivery_for-mark_delivery_retrying w.store id id code next now,
            same_refl id,
            found,
          ),
          record { status_is = refl; code_is = refl; transport_accepted = transported },
        ),
      )

  give_up-Settles :
      (code : String) (w : World)
      → IsAttempting w.store
      → let w' = (give_up env source id key code w).1 in
        (claim_of w'.store key ≡ some EventStatus.permanent_failed)
        × HasRow (IsFailed DeliveryStatus.permanent_failed code) w'.store id
  unfolding give_up
  give_up-Settles code w h =
      let (e, found, transported) = h.row in
      let now = env.clock w.ticks in
      let later = env.clock (suc w.ticks) in
      let s = mark_delivery_permanent_failed w.store id code now in
      (
        claim_of-mark_processed s key key EventStatus.permanent_failed later
              (unfold mark_delivery_permanent_failed in h.keys)
            ∙ ap (λ b. if b then some EventStatus.permanent_failed else claim_of s key)
                (same_refl key),
        (
          permanently_failed code now e,
          rw (
            delivery_for-mark_processed s key id EventStatus.permanent_failed later,
            delivery_for-mark_delivery_permanent_failed w.store id id code now,
            same_refl id,
            found,
          ),
          record { status_is = refl; code_is = refl; transport_accepted = transported },
        ),
      )

  delivery_failed-Settles :
      (exc : Exn) (w : World)
      → IsAttempting w.store
      → Settles id key (delivery_failed env source id key exc w)
  unfolding delivery_failed
  delivery_failed-Settles exc w h = go (is_retryable exc) refl
    where
      code : String
      code = failure_code exc

      go :
          (b : Bool)
          → is_retryable exc ≡ b
          → Settles id key (
              ((if b then retry_later env source id key code else give_up env source id key code)
                  >> (inc (Update.deliveries source "error") >> raise exc))
                w)
      go true e = rw e (unfold retry_later in retry_later-Settles code w h)
      go false e = rw e (unfold give_up in give_up-Settles code w h)

  pub delivery_failed_raises :
      (exc : Exn) (w : World) → (delivery_failed env source id key exc w).0 ≡ raised exc
  unfolding delivery_failed retry_later give_up
  delivery_failed_raises exc w = ground arith

  -- An attempt whose claim is held settles the event: where it returns, the row is confirmed and the
  -- event is done for good; where it raises an exception that a later attempt may outlive, the row
  -- waits for a retry with the exception's code and the event is free again; where it raises any
  -- other, the row and the event have failed for good. It always returns or raises.
  pub attempt-Settles :
      (message : Text) (w : World)
      → HasUniqueKeys EventRow.event_id w.store.processed_events
      → claim_of w.store key ≡ some EventStatus.processing
      → Settles id key (attempt env source id key message w)
  unfolding attempt
  attempt-Settles message w keys claimed =
      let w0 = (begin_attempt env source id w).1 in
      let recipient = env.feishu_alert_recipient_open_id in
      settle (send_chunks env recipient message key w0)
        (send_chunks-OnlySends env recipient key message w0)
        (begin_attempt-IsAttempting w keys claimed)
    where
      settle :
          (p : Result (Unit {0}) × World)
          → OnlySends (begin_attempt env source id w).1 p
          → IsAttempting (begin_attempt env source id w).1.store
          → Settles id key (
              (catch (λ _. p) (delivery_failed env source id key) >> delivery_succeeded env id key)
                (begin_attempt env source id w).1)
      settle (ok _, w') only h = delivery_succeeded-Settles w' (rw only.store h)
      settle (raised exc, w') only h =
          let failed = delivery_failed env source id key exc w' in
          rw
            (bind_raised failed (λ _. delivery_succeeded env id key) w'
              (delivery_failed_raises exc w'))
            (subst (Settles id key)
              (ap {B = Result (Unit {0}) × World} (λ r. (r, failed.1))
                (delivery_failed_raises exc w'))
              (delivery_failed-Settles exc w' (rw only.store h)))
      settle (diverged, w') only h = absurd (only.ends refl)
