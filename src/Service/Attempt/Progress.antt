-- ===== src/Service/Attempt/Progress.antt =====
-- How far an attempt at a delivery (src/feishu_dify_gateway/service.py) gets before it raises.
use feishu_dify_gateway.Base.{String, ◌≡◌, ◌≢◌, [], arith, inl, inr}
use feishu_dify_gateway.Text.{Text, strip}
use feishu_dify_gateway.Errors.{Exn, Result, ok, raised, diverged}
use feishu_dify_gateway.Service.Monad.{Environment, World, catch, ◌>>◌, bind_raised}
use feishu_dify_gateway.Service.Sending.{send_chunks}
use feishu_dify_gateway.Service.Sending.Progress.{Progress, send_chunks-Progress}
use feishu_dify_gateway.Service.Attempt.{
  attempt, delivery_failed, delivery_succeeded, begin_attempt, retry_later, give_up,
}
use feishu_dify_gateway.Service.Attempt.Settles.{delivery_failed_raises}
use feishu_dify_gateway.Service.Sending.Sends.{SendsMessage, send_chunks-SendsPrefix}

module _ (env : Environment) (source : String) (id key : Text) where
  delivery_failed_sent :
      (exc : Exn) (w : World) → (delivery_failed env source id key exc w).1.sent ≡ w.sent
  unfolding delivery_failed retry_later give_up
  delivery_failed_sent exc w = ground arith

  -- An attempt whose message is not blank.
  pub attempt-Progress :
      (message : Text) (w : World)
      → strip message ≢ []
      → Progress env w.sent (attempt env source id key message w)
  unfolding attempt begin_attempt
  attempt-Progress message w some_text =
      let recipient = env.feishu_alert_recipient_open_id in
      let w0 = (begin_attempt env source id w).1 in
      end (send_chunks env recipient message key w0)
        (send_chunks-Progress env recipient key message w0 some_text)
    where
      end :
          (p : Result (Unit {0}) × World)
          → Progress env w.sent p
          → Progress env w.sent (
              (catch (λ _. p) (delivery_failed env source id key) >> delivery_succeeded env id key)
                (begin_attempt env source id w).1)
      end (ok _, v) h = unfold delivery_succeeded in h
      end (raised exc, v) h =
          let failed = delivery_failed env source id key exc v in
          rw
            (bind_raised failed (λ _. delivery_succeeded env id key) v
              (delivery_failed_raises env source id key exc v))
            (rw (delivery_failed_sent exc v) h)
      end (diverged, v) h = h

  -- Its chunks, and that its result is the sender's.
  pub attempt-SendsMessage :
      (message : Text) (w : World)
      → strip message ≢ []
      → let p = attempt env source id key message w in
        SendsMessage env env.feishu_alert_recipient_open_id key message w.sent p.0 p.1.sent
  unfolding attempt begin_attempt
  attempt-SendsMessage message w some_text =
      let w0 = (begin_attempt env source id w).1 in
      let p = send_chunks env env.feishu_alert_recipient_open_id message key w0 in
      elim (send_chunks-SendsPrefix env env.feishu_alert_recipient_open_id key message w0) [
        | inl (blank, _) ↦ absurd (some_text blank)
        | inr (_, sends) ↦ end p sends
      ]
    where
      end :
          (p : Result (Unit {0}) × World)
          → SendsMessage env env.feishu_alert_recipient_open_id key message w.sent p.0 p.1.sent
          → let q =
              (catch (λ _. p) (delivery_failed env source id key) >> delivery_succeeded env id key)
                (begin_attempt env source id w).1 in
            SendsMessage env env.feishu_alert_recipient_open_id key message w.sent q.0 q.1.sent
      end (ok _, v) h = unfold delivery_succeeded in h
      end (raised exc, v) h =
          let failed = delivery_failed env source id key exc v in
          rw
            (bind_raised failed (λ _. delivery_succeeded env id key) v
              (delivery_failed_raises env source id key exc v))
            (rw (delivery_failed_sent exc v) h)
      end (diverged, v) h = h
