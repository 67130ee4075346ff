-- ===== src/Service/Attempt/Frame.antt =====
-- An attempt at a delivery (src/feishu_dify_gateway/service.py) touches its own event and ledger row
-- alone.
use mathlib.Core.Path.{subst}
use feishu_dify_gateway.Base.{ℕ, suc, String, ◌≡◌, refl, ◌∙◌, Bool, true, false, if◌then◌else◌}
use feishu_dify_gateway.Text.{Text, same}
use feishu_dify_gateway.Table.Laws.{HasUniqueKeys, upsert-HasUniqueKeys, delete_where-HasUniqueKeys}
use feishu_dify_gateway.Errors.{Exn, Result, ok, raised, diverged}
use feishu_dify_gateway.Store.{
  EventRow, EventStatus, StateStore, delivery_for, mark_processed, release_event,
  mark_delivery_permanent_failed, mark_delivery_confirmed, claim_event, mark_delivery_retrying,
  begin_delivery,
}
use feishu_dify_gateway.Store.Claims.{claim_of}
use feishu_dify_gateway.Service.Monad.{Environment, World, catch, ◌>>◌, bind_raised, inc, raise}
use feishu_dify_gateway.Service.Sending.{send_chunks, failure_code, is_retryable}
use feishu_dify_gateway.Service.Sending.Sends.{OnlySends, send_chunks-OnlySends}
use feishu_dify_gateway.Service.Attempt.{
  attempt, delivery_failed, delivery_succeeded, begin_attempt, retry_later, give_up,
}
use feishu_dify_gateway.Store.Views.{
  claim_of-mark_delivery_retrying, claim_event-HasUniqueKeys, claim_of-release_event,
  claim_of-mark_delivery_confirmed, claim_of-begin_delivery, claim_of-mark_processed,
  claim_of-mark_delivery_permanent_failed, delivery_for-mark_delivery_confirmed,
  delivery_for-mark_delivery_permanent_failed, delivery_for-mark_delivery_retrying,
  delivery_for-mark_processed, delivery_for-release_event, claim_of-claim_event,
  delivery_for-begin_delivery, delivery_for-claim_event,
}
use feishu_dify_gateway.Service.Attempt.Settles.{delivery_failed_raises}
use feishu_dify_gateway.Metrics.{Update}

-- From `s` to `s'` the keys stay unique, and only the claim of `key` and the row of `id` change.
pub record Touches (id key : Text) (s s' : StateStore) : Type 0 where
  pub keys :
      HasUniqueKeys EventRow.event_id s.processed_events
      → HasUniqueKeys EventRow.event_id s'.processed_events
  pub claims :
      HasUniqueKeys EventRow.event_id s.processed_events
      → (j : Text) → same key j ≡ false
      → claim_of s' j ≡ claim_of s j
  pub rows : (j : Text) → same id j ≡ false → delivery_for s' j ≡ delivery_for s j

module _ (id key : Text) where
  pub Touches-trans :
      {s t u : StateStore} → Touches id key s t → Touches id key t u → Touches id key s u
  Touches-trans a b = record {
    keys = λ h. b.keys (a.keys h);
    claims = λ h j apart. b.claims (a.keys h) j apart ∙ a.claims h j apart;
    rows = λ j apart. b.rows j apart ∙ a.rows j apart;
  }

  pub begin_delivery-Touches :
      (s : StateStore) (source : String) (now : ℕ)
      → Touches id key s (begin_delivery s id source now)
  begin_delivery-Touches s source now = record {
    keys = λ h. unfold begin_delivery in h;
    claims = λ h j apart. claim_of-begin_delivery s id j source now;
    rows = λ j apart. rw (delivery_for-begin_delivery s id j source now, apart);
  }

  confirmed-Touches :
      (s : StateStore) (now : ℕ) → Touches id key s (mark_delivery_confirmed s id now)
  confirmed-Touches s now = record {
    keys = λ h. unfold mark_delivery_confirmed in h;
    claims = λ h j apart. claim_of-mark_delivery_confirmed s id j now;
    rows = λ j apart. rw (delivery_for-mark_delivery_confirmed s id j now, apart);
  }

  retrying-Touches :
      (s : StateStore) (code : String) (next now : ℕ)
      → Touches id key s (mark_delivery_retrying s id code next now)
  retrying-Touches s code next now = record {
    keys = λ h. unfold mark_delivery_retrying in h;
    claims = λ h j apart. claim_of-mark_delivery_retrying s id j code next now;
    rows = λ j apart. rw (delivery_for-mark_delivery_retrying s id j code next now, apart);
  }

  failed-Touches :
      (s : StateStore) (code : String) (now : ℕ)
      → Touches id key s (mark_delivery_permanent_failed s id code now)
  failed-Touches s code now = record {
    keys = λ h. unfold mark_delivery_permanent_failed in h;
    claims = λ h j apart. claim_of-mark_delivery_permanent_failed s id j code now;
    rows = λ j apart. rw (delivery_for-mark_delivery_permanent_failed s id j code now, apart);
  }

  mark_processed-Touches :
      (s : StateStore) (status : EventStatus) (now : ℕ)
      → Touches id key s (mark_processed s key status now)
  mark_processed-Touches s status now = record {
    keys = λ h.
        unfold mark_processed in
        upsert-HasUniqueKeys EventRow.event_id _ _ s.processed_events (λ e. refl) h;
    claims = λ h j apart. rw (claim_of-mark_processed s key j status now h, apart);
    rows = λ j apart. delivery_for-mark_processed s key j status now;
  }

  release_event-Touches : (s : StateStore) → Touches id key s (release_event s key)
  release_event-Touches s = record {
    keys = λ h.
        unfold release_event in delete_where-HasUniqueKeys EventRow.event_id _ s.processed_events h;
    claims = λ h j apart. rw (claim_of-release_event s key j h, apart);
    rows = λ j apart. delivery_for-release_event s key j;
  }

  pub claim_event-Touches : (s : StateStore) (now : ℕ) → Touches id key s (claim_event s key now).1
  claim_event-Touches s now = record {
    keys = λ h. claim_event-HasUniqueKeys s key now h;
    claims = λ h j apart. rw (claim_of-claim_event s key j now h, apart);
    rows = λ j apart. delivery_for-claim_event s key j now;
  }

module _ (env : Environment) (source : String) (id key : Text) where
  pub delivery_failed-Touches :
      (exc : Exn) (w : World)
      → Touches id key w.store (delivery_failed env source id key exc w).1.store
  unfolding delivery_failed
  delivery_failed-Touches exc w = go (is_retryable exc)
    where
      go :
          (b : Bool)
          → Touches id key w.store
              (((if b
                    then retry_later env source id key (failure_code exc)
                    else give_up env source id key (failure_code exc))
                  >> (inc (Update.deliveries source "error") >> raise {A = Unit {0}} exc))
                w).1.store
      go true =
          unfold retry_later in
          Touches-trans id key
            (retrying-Touches id key w.store (failure_code exc) (env.clock w.ticks)
              (env.clock (suc w.ticks)))
            (release_event-Touches id key _)
      go false =
          unfold give_up in
          Touches-trans id key
            (failed-Touches id key w.store (failure_code exc) (env.clock w.ticks))
            (mark_processed-Touches id key _ EventStatus.permanent_failed (env.clock (suc w.ticks)))

  pub delivery_succeeded-Touches :
      (w : World) → Touches id key w.store (delivery_succeeded env id key w).1.store
  unfolding delivery_succeeded
  delivery_succeeded-Touches w =
      Touches-trans id key (confirmed-Touches id key w.store (env.clock w.ticks))
        (mark_processed-Touches id key _ EventStatus.delivered (env.clock (suc w.ticks)))

  -- An attempt changes the claim of its own event and its own ledger row, and no others.
  pub attempt-Touches :
      (message : Text) (w : World)
      → Touches id key w.store (attempt env source id key message w).1.store
  unfolding attempt
  attempt-Touches message w =
      let w0 = (begin_attempt env source id w).1 in
      Touches-trans id key begun (
        end (send_chunks env env.feishu_alert_recipient_open_id message key w0)
          (send_chunks-OnlySends env env.feishu_alert_recipient_open_id key message w0))
    where
      w0 : World
      w0 = (begin_attempt env source id w).1

      begun : Touches id key w.store w0.store
      begun =
          unfold begin_attempt in begin_delivery-Touches id key w.store source (env.clock w.ticks)

      end :
          (p : Result (Unit {0}) × World)
          → OnlySends w0 p
          → Touches id key w0.store
              ((catch (λ _. p) (delivery_failed env source id key) >> delivery_succeeded env id key)
                w0).1.store
      end (ok _, w') only =
          subst (λ s. Touches id key s (delivery_succeeded env id key w').1.store) only.store
            (delivery_succeeded-Touches w')
      end (raised exc, w') only =
          let failed = delivery_failed env source id key exc w' in
          rw
            (bind_raised failed (λ _. delivery_succeeded env id key) w'
              (delivery_failed_raises env source id key exc w'))
            (subst (λ s. Touches id key s failed.1.store) only.store
              (delivery_failed-Touches exc w'))
      end (diverged, w') only = absurd (only.ends refl)

  -- In a table of events with unique keys, an attempt leaves every other event and every other
  -- ledger row as they are: where `j` is neither the key of the attempt nor its ledger identity,
  -- the claim of `j` and the row of `j` do not change.
  pub attempt_frame :
      (message : Text) (w : World) (j : Text)
      → HasUniqueKeys EventRow.event_id w.store.processed_events
      → same key j ≡ false
      → same id j ≡ false
      → let s = (attempt env source id key message w).1.store in
        (claim_of s j ≡ claim_of w.store j) × (delivery_for s j ≡ delivery_for w.store j)
  attempt_frame message w j keys other_key other_id =
      let touches = attempt-Touches message w in
      (touches.claims keys j other_key, touches.rows j other_id)
