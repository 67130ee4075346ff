-- ===== src/Service/Attempt/Held.antt =====
-- The claim of its own event at the ends of an attempt (src/feishu_dify_gateway/service.py).
use feishu_dify_gateway.Base.{suc, String, ◌≡◌, refl, ap, ◌∙◌, some, if◌then◌else◌}
use feishu_dify_gateway.Text.{Text, same_refl}
use feishu_dify_gateway.Table.Laws.{HasUniqueKeys}
use feishu_dify_gateway.Errors.{ok}
use feishu_dify_gateway.Store.{EventRow, EventStatus, mark_delivery_confirmed}
use feishu_dify_gateway.Store.Claims.{claim_of}
use feishu_dify_gateway.Store.Views.{claim_of-begin_delivery, claim_of-mark_processed}
use feishu_dify_gateway.Service.Monad.{Environment, World}
use feishu_dify_gateway.Service.Attempt.{begin_attempt, delivery_succeeded}
use feishu_dify_gateway.Service.Attempt.Frame.{Touches, begin_delivery-Touches}

module _ (env : Environment) (source : String) (id key : Text) where
  pub begin_attempt-Touches :
      (w : World) → Touches id key w.store (begin_attempt env source id w).1.store
  unfolding begin_attempt
  begin_attempt-Touches w = begin_delivery-Touches id key w.store source (env.clock w.ticks)

  pub claim_of-begin_attempt :
      (w : World) → claim_of (begin_attempt env source id w).1.store key ≡ claim_of w.store key
  unfolding begin_attempt
  claim_of-begin_attempt w = claim_of-begin_delivery w.store id key source (env.clock w.ticks)

  pub claim_of-delivery_succeeded :
      (w : World)
      → HasUniqueKeys EventRow.event_id w.store.processed_events
      → claim_of (delivery_succeeded env id key w).1.store key ≡ some EventStatus.delivered
  unfolding delivery_succeeded
  claim_of-delivery_succeeded w keys =
      let s = mark_delivery_confirmed w.store id (env.clock w.ticks) in
      claim_of-mark_processed s key key EventStatus.delivered (env.clock (suc w.ticks))
        (unfold mark_delivery_confirmed in keys)
      ∙ ap (λ b. if b then some EventStatus.delivered else claim_of s key) (same_refl key)

  pub delivery_succeeded-ok : (w : World) → (delivery_succeeded env id key w).0 ≡ ok tt
  unfolding delivery_succeeded
  delivery_succeeded-ok w = refl
