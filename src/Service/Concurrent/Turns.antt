-- ===== src/Service/Concurrent/Turns.antt =====
-- What one step of a delivery (src/feishu_dify_gateway/service.py) does to the events.
use feishu_dify_gateway.Base.{
  ℕ, suc, ◌+◌, ◌≤◌, String, ◌≡◌, refl, ◌∙◌, inl, inr, Option, none, some, List, [], ◌∷◌, arith,
  if◌then◌else◌, Option-cases,
}
use feishu_dify_gateway.Text.{Text, same}
use feishu_dify_gateway.Table.Laws.{HasUniqueKeys}
use feishu_dify_gateway.Errors.{Exn, Result, ok, raised, diverged, gateway}
use feishu_dify_gateway.Models.{Notification, source_name}
use feishu_dify_gateway.Store.{
  EventRow, EventStatus, claim_event, StateStore, delivery_for, DeliveryLedgerEntry,
}
use feishu_dify_gateway.Store.Claims.{claim_of}
use feishu_dify_gateway.Store.Views.{claim_event_free, claim_event_held}
use feishu_dify_gateway.Service.Monad.{Environment, World, SendOutcome, accepted, failed, ◌>>◌}
use feishu_dify_gateway.Service.Split.{split_text}
use feishu_dify_gateway.Service.Sending.{chunk_limit, empty_message}
use feishu_dify_gateway.Service.Attempt.{begin_attempt, delivery_failed, delivery_succeeded}
use feishu_dify_gateway.Service.Attempt.Settles.{delivery_failed_raises}
use feishu_dify_gateway.Service.Attempt.Frame.{
  Touches, Touches-trans, claim_event-Touches, delivery_failed-Touches, delivery_succeeded-Touches,
}
use feishu_dify_gateway.Service.Attempt.Held.{
  begin_attempt-Touches, claim_of-begin_attempt, claim_of-delivery_succeeded, delivery_succeeded-ok,
}
use feishu_dify_gateway.Service.Notifications.{
  notification_key, notification_message, deduplicated, notification_succeeded, replay_response,
}
use feishu_dify_gateway.Service.Concurrent.{
  Task, ready, sending, finished, Job, returned, failing, succeeding, first_send, started, resumed,
  step,
}

-- The tasks that hold their event: a message is on its way, or all of them have arrived.
abbrev pub holds : Task → ℕ
holds ready = 0
holds (sending index rest) = 1
holds (finished (ok response)) = response.accepted
holds (finished (raised exc)) = 0
holds (finished diverged) = 0

-- How many jobs hold the event of a key.
unfoldable pub holders : Text → List Job → ℕ
holders k [] = 0
holders k (j ∷ jobs) =
    (if same (notification_key j.event_id) k then holds j.task else 0) + holders k jobs

-- How many may: none before the event is claimed.
abbrev pub room : Option EventStatus → ℕ
room none = 0
room (some status) = 1

-- What one step does to the store and to the room for its own event.
pub record Fits (id k : Text) (before : ℕ) (s : StateStore) (p : Task × World) : Type 0 where
  pub touches : Touches id k s p.1.store
  pub fits :
      (others : ℕ)
      → before + others ≤ room (claim_of s k)
      → holds p.0 + others ≤ room (claim_of p.1.store k)

pub room-le : (c : Option EventStatus) → room c ≤ 1
room-le none = omega arith
room-le (some status) = omega arith

module _ (env : Environment) (event_id : Text) (n : Notification) where
  abbrev k : Text
  k = notification_key event_id

  abbrev source : String
  source = source_name n.source

  Touches-refl : (s : StateStore) → Touches event_id k s s
  Touches-refl s = record { keys = λ h. h; claims = λ h j apart. refl; rows = λ j apart. refl }

  -- No other job holds the event.
  abbrev Alone : (before : ℕ) → StateStore → Type 0
  Alone before s = (others : ℕ) → before + others ≤ room (claim_of s k) → others ≡ 0

  holding-Alone : (s : StateStore) → Alone 1 s
  holding-Alone s others h = omega (arith, h, room-le (claim_of s k))

  free-Alone : (s : StateStore) → claim_of s k ≡ none → Alone 0 s
  free-Alone s free others h = omega (arith, rw free at h)

  failing-Fits :
      (before : ℕ) (s : StateStore) (exc : Exn) (w : World)
      → Touches event_id k s w.store
      → Alone before s
      → Fits event_id k before s (returned (failing env event_id n exc w))
  failing-Fits before s exc w touches alone =
      go (delivery_failed env source event_id k exc w)
        (delivery_failed_raises env source event_id k exc w)
        (Touches-trans event_id k touches (delivery_failed-Touches env source event_id k exc w))
    where
      go :
          (p : Result (Unit {0}) × World)
          → p.0 ≡ raised exc
          → Touches event_id k s p.1.store
          → Fits event_id k before s (
              returned (
                ((λ _. p)
                    >> delivery_succeeded env event_id k
                    >> notification_succeeded env source event_id)
                  w))
      go (raised e, v) same_exc t = record {
        touches = t;
        fits = λ others h. omega (arith, alone others h);
      }
      go (ok _, v) e t = cc
      go (diverged, v) e t = cc

  succeeding-Fits :
      (w : World)
      → HasUniqueKeys EventRow.event_id w.store.processed_events
      → Fits event_id k 1 w.store (returned (succeeding env event_id n w))
  succeeding-Fits w keys =
      go (delivery_succeeded env event_id k w) (delivery_succeeded-ok env source event_id k w)
        (delivery_succeeded-Touches env source event_id k w)
        (claim_of-delivery_succeeded env source event_id k w keys)
    where
      go :
          (p : Result (Unit {0}) × World)
          → p.0 ≡ ok tt
          → Touches event_id k w.store p.1.store
          → claim_of p.1.store k ≡ some EventStatus.delivered
          → Fits event_id k 1 w.store
              (returned (((λ _. p) >> notification_succeeded env source event_id) w))
      go (ok _, v) e t done = record {
        touches = t;
        fits = λ others h. rw done (omega (arith, h, room-le (claim_of w.store k)));
      }
      go (raised e, v) h t done = cc
      go (diverged, v) e t done = cc

  resumed-Fits :
      (index : ℕ) (rest : List Text) (o : SendOutcome) (w : World)
      → HasUniqueKeys EventRow.event_id w.store.processed_events
      → Fits event_id k 1 w.store (resumed env event_id n index rest o w)
  unfolding resumed
  resumed-Fits index rest (failed exc) w keys =
      failing-Fits 1 w.store exc w (Touches-refl w.store) (holding-Alone w.store)
  resumed-Fits index [] (accepted ref) w keys = succeeding-Fits w keys
  resumed-Fits index (c ∷ cs) (accepted ref) w keys = record {
    touches = Touches-refl w.store;
    fits = λ others h. h;
  }

  first_send-Fits :
      (chunks : Option (List Text)) (s : StateStore) (w : World)
      → Touches event_id k s w.store
      → claim_of s k ≡ none
      → claim_of w.store k ≡ some EventStatus.processing
      → Fits event_id k 0 s (first_send env event_id n chunks w)
  first_send-Fits none s w touches free held = record {
    touches = touches;
    fits = λ others h. omega (arith, free-Alone s free others h);
  }
  first_send-Fits (some []) s w touches free held =
      failing-Fits 0 s (gateway empty_message) w touches (free-Alone s free)
  first_send-Fits (some (c ∷ cs)) s w touches free held = record {
    touches = touches;
    fits = λ others h. rw held (omega (arith, free-Alone s free others h));
  }

  replay-accepted : (o : Option DeliveryLedgerEntry) → (replay_response event_id o).accepted ≡ 0
  unfolding replay_response
  replay-accepted none = refl
  replay-accepted (some e) = refl

  started-Fits :
      (w : World)
      → HasUniqueKeys EventRow.event_id w.store.processed_events
      → Fits event_id k 0 w.store (started env event_id n w)
  unfolding started deduplicated
  started-Fits w keys = elim (Option-cases (claim_of w.store k)) [
    | inl free ↦
        let now = env.clock w.ticks in
        let (won, held) = claim_event_free w.store k now keys free in
        let w1 : World = record w { store = (claim_event w.store k now).1; ticks = suc w.ticks } in
        rw won (
          first_send-Fits (split_text (notification_message n) chunk_limit) w.store
            (begin_attempt env source event_id w1).1
            (Touches-trans event_id k (claim_event-Touches event_id k w.store now)
              (begin_attempt-Touches env source event_id k w1))
            free (claim_of-begin_attempt env source event_id k w1 ∙ held))
    | inr (status, held) ↦
        rw (claim_event_held w.store k (env.clock w.ticks) (λ free. cc)) (record {
          touches = Touches-refl w.store;
          fits = λ others h. rw (replay-accepted (delivery_for w.store event_id)) h;
        })
  ]

  -- One step of a coroutine keeps the claims of other events and the room for its own.
  pub step-Fits :
      (o : SendOutcome) (t : Task) (w : World)
      → HasUniqueKeys EventRow.event_id w.store.processed_events
      → Fits event_id k (holds t) w.store (step env event_id n o t w)
  unfolding step
  step-Fits o ready w keys = started-Fits w keys
  step-Fits o (sending index rest) w keys = resumed-Fits index rest o w keys
  step-Fits o (finished r) w keys = record { touches = Touches-refl w.store; fits = λ others h. h }
