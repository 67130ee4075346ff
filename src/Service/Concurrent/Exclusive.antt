-- ===== src/Service/Concurrent/Exclusive.antt =====
-- What the event loop cannot do, in whichever order it runs the deliveries of
-- src/feishu_dify_gateway/service.py.
use feishu_dify_gateway.Base.{
  ℕ, ◌+◌, ◌≤◌, ◌≡◌, refl, sym, inl, inr, List, [], ◌∷◌, ◌++◌, arith, if◌then◌else◌, Bool-cases, All,
}
use mathlib.Core.Path.{subst}
use feishu_dify_gateway.Text.{Text, same, same_iff}
use feishu_dify_gateway.Table.Laws.{HasUniqueKeys}
use feishu_dify_gateway.Store.{EventRow}
use feishu_dify_gateway.Store.Claims.{claim_of}
use feishu_dify_gateway.Service.Monad.{Environment, World, SendOutcome}
use feishu_dify_gateway.Service.Notifications.{notification_key}
use feishu_dify_gateway.Service.Concurrent.{
  ready, Job, System, stepped, Step, take_turn, Reaches, here, there, step,
}
use feishu_dify_gateway.Service.Concurrent.Turns.{holds, holders, room, step-Fits}

-- Each event has room for the jobs that hold it.
pub record IsExclusive (s : System) : Type 0 where
  pub keys : HasUniqueKeys EventRow.event_id s.1.store.processed_events
  pub room_for : (k : Text) → holders k s.0 ≤ room (claim_of s.1.store k)

-- What one job adds.
abbrev weight : Text → Job → ℕ
weight k j = if same (notification_key j.event_id) k then holds j.task else 0

holders-append :
    (k : Text) (before after : List Job) (j : Job)
    → holders k (before ++ j ∷ after) ≡ weight k j + (holders k before + holders k after)
unfolding holders
holders-append k [] after j = omega arith
holders-append k (i ∷ before) after j = omega (arith, holders-append k before after j)

module _ (env : Environment) where
  turn_room :
      (k : Text) (others : ℕ) (o : SendOutcome) (j : Job) (w : World)
      → HasUniqueKeys EventRow.event_id w.store.processed_events
      → weight k j + others ≤ room (claim_of w.store k)
      → let (j', w') = stepped env o j w in weight k j' + others ≤ room (claim_of w'.store k)
  turn_room k others o j w keys h =
      let f = step-Fits env j.event_id j.notification o j.task w keys in
      elim (Bool-cases (same (notification_key j.event_id) k)) [
        | inl hit ↦
            let e : notification_key j.event_id ≡ k =
              (same_iff (notification_key j.event_id) k).0 hit in
            let (t', w') = step env j.event_id j.notification o j.task w in
            rw hit (
              subst (λ q. holds t' + others ≤ room (claim_of w'.store q)) e
                (f.fits others (
                  subst (λ q. holds j.task + others ≤ room (claim_of w.store q)) (sym e)
                    (rw hit at h))))
        | inr miss ↦ rw (miss, f.touches.claims keys k miss) (rw miss at h)
      ]

  Step-IsExclusive : (s t : System) → Step env s t → IsExclusive s → IsExclusive t
  Step-IsExclusive _ _ (take_turn before j after w o) h =
      let f = step-Fits env j.event_id j.notification o j.task w h.keys in
      record {
        keys = f.touches.keys h.keys;
        room_for = λ k.
            let others = holders k before + holders k after in
            let j' = (stepped env o j w).0 in
            let kept =
              turn_room k others o j w h.keys
                (omega (arith, h.room_for k, holders-append k before after j)) in
            omega (arith, kept, holders-append k before after j');
      }

  Reaches-IsExclusive : (s t : System) → Reaches env s t → IsExclusive s → IsExclusive t
  Reaches-IsExclusive _ _ (here s) h = h
  Reaches-IsExclusive _ _ (there s t u run turn) h =
      Step-IsExclusive t u turn (Reaches-IsExclusive s t run h)

  holders-ready : (k : Text) (jobs : List Job) → All (λ j. j.task ≡ ready) jobs → holders k jobs ≡ 0
  unfolding holders
  holders-ready k [] h = refl
  holders-ready k (j ∷ jobs) (now, later) = rw now (ground (arith, holders-ready k jobs later))

  -- In a table of events with unique keys, let no delivery have begun. Then in whatever order the
  -- event loop runs the deliveries, and whatever the sender answers, at every moment and for every
  -- event at most one of them has a message on its way or has reported the event as delivered, and
  -- none while the event is free.
  pub deliveries_exclusive :
      (jobs : List Job) (w : World) (t : System) (k : Text)
      → HasUniqueKeys EventRow.event_id w.store.processed_events
      → All (λ j. j.task ≡ ready) jobs
      → Reaches env (jobs, w) t
      → holders k t.0 ≤ room (claim_of t.1.store k)
  deliveries_exclusive jobs w t k keys fresh run =
      (Reaches-IsExclusive (jobs, w) t run
          (record {
            keys = keys;
            room_for = λ q. omega (arith, holders-ready q jobs fresh);
          })).room_for
        k
