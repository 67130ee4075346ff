-- ===== src/Tests/Eventually.antt =====
-- Runs of a client that repeats its notification (src/feishu_dify_gateway/service.py).
use feishu_dify_gateway.Base.{
  ◌≤◌, ◌≡◌, refl, ◌≢◌, true, none, List, arith, ltb, if◌then◌else◌, length,
}
use feishu_dify_gateway.Text.{codes, same}
use feishu_dify_gateway.Table.{find}
use feishu_dify_gateway.Errors.{Exn, other}
use feishu_dify_gateway.Store.Claims.{claim_of}
use feishu_dify_gateway.Service.Monad.{Send, SendOutcome, accepted, failed}
use feishu_dify_gateway.Service.Sending.{is_retryable}
use feishu_dify_gateway.Service.Notifications.{notification_key}
use feishu_dify_gateway.Service.Notifications.Eventually.{
  DeliversWithin, deliver_notification_eventually,
}
use feishu_dify_gateway.Tests.Service.{environment, notification, start, start-HasUniqueKeys}

-- A sender that fails twice, and works from then on.
abbrev outage_of_two : List Send → SendOutcome
outage_of_two log = if ltb (length log) 2 then failed other else accepted none

fails_retryably :
    (log : List Send) (exc : Exn) → outage_of_two log ≡ failed exc → is_retryable exc ≡ true
unfolding is_retryable
fails_retryably log exc e = ground (arith, e)

works_again : (log : List Send) (exc : Exn) → 2 ≤ length log → outage_of_two log ≢ failed exc
works_again log exc enough e = ground (arith, enough, e)

event_free : claim_of start.store (notification_key (codes "build-7")) ≡ none
unfolding claim_of find same notification_key
event_free = refl

deliver_notification_eventually_example :
    DeliversWithin (environment outage_of_two) (codes "build-7") notification 2 start
deliver_notification_eventually_example =
    deliver_notification_eventually (environment outage_of_two) (codes "build-7") notification 2
      fails_retryably works_again start start-HasUniqueKeys event_free
