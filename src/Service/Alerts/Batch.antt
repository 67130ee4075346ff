-- ===== src/Service/Alerts/Batch.antt =====
-- What `deliver_alerts` of src/feishu_dify_gateway/service.py does with a whole batch.
use feishu_dify_gateway.Base.{
  ℕ, zero, suc, ◌+◌, ◌≡◌, sym, ◌∙◌, ◌≢◌, inl, inr, none, List, [], ◌∷◌, arith, Bool-cases,
  Option-cases, All, length,
}
use mathlib.Core.Path.{subst}
use feishu_dify_gateway.Text.{Text, same, same→eq}
use feishu_dify_gateway.Table.Laws.{HasUniqueKeys}
use feishu_dify_gateway.Errors.{Result, ok, raised, diverged}
use feishu_dify_gateway.Models.{Alert, AlertmanagerPayload, AcceptedResponse}
use feishu_dify_gateway.Store.{EventRow, StateStore, claim_event}
use feishu_dify_gateway.Store.Claims.{claim_of}
use feishu_dify_gateway.Store.Views.{claim_event_free, claim_event_held, claim_event-HasUniqueKeys}
use feishu_dify_gateway.Service.Monad.{Environment, World, ◌>>=◌, ◌>>◌}
use feishu_dify_gateway.Service.Attempt.{attempt}
use feishu_dify_gateway.Service.Attempt.Settles.{Settles, attempt-Settles}
use feishu_dify_gateway.Service.Attempt.Frame.{
  Touches, Touches-trans, attempt-Touches, claim_event-Touches,
}
use feishu_dify_gateway.Service.Alerts.{
  Tally, alert_key, format_alert, alert_accepted, deliver_alert, deliver_each, accepted_response,
  deliver_alerts,
}

-- An event that somebody has claimed or finished.
abbrev pub IsTaken : StateStore → Text → Type 0
IsTaken s k = claim_of s k ≢ none

-- From `s` to `s'` no event becomes free, and the keys stay unique.
pub record KeepsTaken (s s' : StateStore) : Type 0 where
  pub keys : HasUniqueKeys EventRow.event_id s'.processed_events
  pub taken : (j : Text) → IsTaken s j → IsTaken s' j

-- The outcome of a round, or of several, over `alerts`: if they return, every alert is counted once
-- and its event is taken.
abbrev pub Handles : Environment → List Alert → Tally → StateStore → Result Tally × World → Type 0
Handles env alerts tally s (ok t, w) =
    (t.0 + t.1 ≡ tally.0 + tally.1 + length alerts)
    × All (λ a. IsTaken w.store (alert_key env a)) alerts
    × KeepsTaken s w.store
Handles env alerts tally s (raised exc, w) = Unit
Handles env alerts tally s (diverged, w) = ⊥

module _ (env : Environment) where
  Touches-KeepsTaken :
      {s s' : StateStore} (key : Text)
      → HasUniqueKeys EventRow.event_id s.processed_events
      → Touches key key s s'
      → IsTaken s' key
      → KeepsTaken s s'
  Touches-KeepsTaken {s} {s'} key h t own = record {
    keys = t.keys h;
    taken = λ j taken. elim (Bool-cases (same key j)) [
      | inl hit ↦ subst (IsTaken s') (same→eq key j hit) own
      | inr apart ↦ λ free. taken (sym (t.claims h j apart) ∙ free)
    ];
  }

  deliver_alert-Handles :
      (a : Alert) (tally : Tally) (w : World)
      → HasUniqueKeys EventRow.event_id w.store.processed_events
      → Handles env (a ∷ []) tally w.store (deliver_alert env a tally w)
  unfolding deliver_alert
  deliver_alert-Handles a tally w h = elim (Option-cases (claim_of w.store (alert_key env a))) [
    | inl free ↦
        let (won, held) = claim_event_free w.store key now h free in
        rw won (
          finish (attempt env "alertmanager" key key (format_alert a) w1)
            (attempt-Settles env "alertmanager" key key (format_alert a) w1
              (claim_event-HasUniqueKeys w.store key now h) held)
            (Touches-trans key key (claim_event-Touches key key w.store now)
              (attempt-Touches env "alertmanager" key key (format_alert a) w1)))
    | inr (status, held) ↦
        let taken : IsTaken w.store key = λ free. cc (sym held ∙ free) in
        rw (claim_event_held w.store key now taken)
          (omega arith, (taken, tt), record { keys = h; taken = λ j t. t })
  ]
    where
      key : Text
      key = alert_key env a

      now : ℕ
      now = env.clock w.ticks

      w1 : World
      w1 = record w { store = (claim_event w.store key now).1; ticks = suc w.ticks }

      finish :
          (p : Result (Unit {0}) × World)
          → Settles key key p
          → Touches key key w.store p.1.store
          → Handles env (a ∷ []) tally w.store (((λ _. p) >> alert_accepted tally) w1)
      finish (ok _, w') (done, _) t =
          let taken : IsTaken w'.store key = λ free. cc (sym done ∙ free) in
          (omega arith, (taken, tt), Touches-KeepsTaken key h t taken)
      finish (raised exc, w') s t = tt
      finish (diverged, w') s t = s

  deliver_each-Handles :
      (alerts : List Alert) (tally : Tally) (w : World)
      → HasUniqueKeys EventRow.event_id w.store.processed_events
      → Handles env alerts tally w.store (deliver_each env alerts tally w)
  unfolding deliver_each
  deliver_each-Handles [] tally w h = (omega arith, tt, record { keys = h; taken = λ j t. t })
  deliver_each-Handles (a ∷ alerts) tally w h =
      first (deliver_alert env a tally w) (deliver_alert-Handles a tally w h)
        (deliver_each-Handles alerts)
    where
      both :
          (t : Tally) (w' : World) (p : Result Tally × World)
          → Handles env (a ∷ []) tally w.store (ok t, w')
          → Handles env alerts t w'.store p
          → Handles env (a ∷ alerts) tally w.store p
      both t w' (ok t', w'') (count, (own, _), kept) (count', rest, kept') = (
        omega arith,
        (kept'.taken (alert_key env a) own, rest),
        record { keys = kept'.keys; taken = λ j taken. kept'.taken j (kept.taken j taken) },
      )
      both t w' (raised exc, w'') _ _ = tt
      both t w' (diverged, w'') _ b = b

      first :
          (p : Result Tally × World)
          → Handles env (a ∷ []) tally w.store p
          → ((t : Tally) (w' : World)
              → HasUniqueKeys EventRow.event_id w'.store.processed_events
              → Handles env alerts t w'.store (deliver_each env alerts t w'))
          → Handles env (a ∷ alerts) tally w.store (((λ _. p) >>= deliver_each env alerts) w)
      first (ok t, w') one rest =
          both t w' (deliver_each env alerts t w') one (rest t w' one.2.keys)
      first (raised exc, w') one rest = tt
      first (diverged, w') one rest = one

  -- What `deliver_alerts` returns, and the store it leaves, by what its loop does.
  deliver_alerts-Handles :
      (payload : AlertmanagerPayload) (w : World) (response : AcceptedResponse)
      → HasUniqueKeys EventRow.event_id w.store.processed_events
      → (deliver_alerts env payload w).0 ≡ ok response
      → let s = (deliver_alerts env payload w).1.store in
        (response.accepted + response.deduplicated ≡ length payload.alerts)
        × All (λ a. IsTaken s (alert_key env a)) payload.alerts
        × KeepsTaken w.store s
  unfolding deliver_alerts
  deliver_alerts-Handles payload w response h returned =
      last (deliver_each env payload.alerts (0, 0) w)
        (deliver_each-Handles payload.alerts (0, 0) w h) returned
    where
      last :
          (p : Result Tally × World)
          → Handles env payload.alerts (0, 0) w.store p
          → (((λ _. p) >>= accepted_response env) w).0 ≡ ok response
          → let s = (((λ _. p) >>= accepted_response env) w).1.store in
            (response.accepted + response.deduplicated ≡ length payload.alerts)
            × All (λ a. IsTaken s (alert_key env a)) payload.alerts
            × KeepsTaken w.store s
      last (ok (zero, d), w') (count, all, kept) e = (ground arith, all, kept)
      last (ok (suc a, d), w') (count, all, kept) e = (ground arith, all, kept)
      last (raised exc, w') one e = cc
      last (diverged, w') one e = cc

  -- In a table of events with unique keys, when `deliver_alerts` returns, the two counts of its
  -- response add up to the number of alerts in the batch, and every alert of the batch has an event
  -- that is claimed or done.
  pub deliver_alerts_complete :
      (payload : AlertmanagerPayload) (w : World) (response : AcceptedResponse)
      → HasUniqueKeys EventRow.event_id w.store.processed_events
      → (deliver_alerts env payload w).0 ≡ ok response
      → let s = (deliver_alerts env payload w).1.store in
        (response.accepted + response.deduplicated ≡ length payload.alerts)
        × All (λ a. IsTaken s (alert_key env a)) payload.alerts
  deliver_alerts_complete payload w response h returned =
      let (count, all, _) = deliver_alerts-Handles payload w response h returned in (count, all)

  -- In a table of events with unique keys, a batch that returns makes no event free that was
  -- claimed or done.
  pub deliver_alerts_keeps :
      (payload : AlertmanagerPayload) (w : World) (response : AcceptedResponse)
      → HasUniqueKeys EventRow.event_id w.store.processed_events
      → (deliver_alerts env payload w).0 ≡ ok response
      → (j : Text) → IsTaken w.store j
      → IsTaken (deliver_alerts env payload w).1.store j
  deliver_alerts_keeps payload w response h returned j taken =
      let (_, _, kept) = deliver_alerts-Handles payload w response h returned in kept.taken j taken
