-- ===== src/Tests/Concurrent.antt =====
-- Two deliveries of one notification at the same time (src/feishu_dify_gateway/service.py).
use feishu_dify_gateway.Base.{ℕ, ◌≤◌, ◌≡◌, refl, none, [], ◌∷◌}
use feishu_dify_gateway.Text.{codes}
use feishu_dify_gateway.Store.Claims.{claim_of}
use feishu_dify_gateway.Service.Monad.{accepted, World}
use feishu_dify_gateway.Service.Notifications.{notification_key, deliver_notification}
use feishu_dify_gateway.Service.Concurrent.{
  Job, ready, System, Reaches, here, there, take_turn, stepped, returned,
}
use feishu_dify_gateway.Service.Concurrent.Turns.{holders, room}
use feishu_dify_gateway.Service.Concurrent.Exclusive.{deliveries_exclusive}
use feishu_dify_gateway.Service.Concurrent.Alone.{turns, turns-deliver_notification}
use feishu_dify_gateway.Tests.Service.{working, notification, start, start-HasUniqueKeys}

abbrev job : Job
job = record { event_id = codes "build-7"; notification = notification; task = ready }

abbrev first_turn : Job × World
first_turn = stepped working (accepted none) job start

abbrev second_turn : Job × World
second_turn = stepped working (accepted none) job first_turn.1

abbrev both_begun : System
both_begun = (first_turn.0 ∷ second_turn.0 ∷ [], second_turn.1)

both_begin : Reaches working (job ∷ job ∷ [], start) both_begun
both_begin =
    there _ _ _ (there _ _ _ (here _) (take_turn [] job (job ∷ []) start (accepted none)))
      (take_turn (first_turn.0 ∷ []) job [] first_turn.1 (accepted none))

deliveries_exclusive_example :
    holders (notification_key (codes "build-7")) both_begun.0
    ≤ room (claim_of both_begun.1.store (notification_key (codes "build-7")))
deliveries_exclusive_example =
    deliveries_exclusive working (job ∷ job ∷ []) start both_begun
      (notification_key (codes "build-7")) start-HasUniqueKeys (refl, (refl, tt)) both_begin

turns-deliver_notification_example :
    (k : ℕ) × (turns working (codes "build-7") notification k ready start
      ≡ returned (deliver_notification working (codes "build-7") notification start))
turns-deliver_notification_example =
    turns-deliver_notification working (codes "build-7") notification start
