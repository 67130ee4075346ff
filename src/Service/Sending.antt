-- ===== src/Service/Sending.antt =====
-- `GatewayService._send_chunks` and `_delivery_failure` of src/feishu_dify_gateway/service.py.
pub mod Sends
pub mod Progress
use feishu_dify_gateway.Base.{
  ℕ, suc, String, Bool, true, ◌||◌, Option, none, some, List, [], ◌∷◌, ◌++◌, ◌==◌,
}
use feishu_dify_gateway.Text.{Text, codes}
use feishu_dify_gateway.Text.Decimal.{decimal}
use feishu_dify_gateway.Errors.{Exn, gateway, other, GatewayError}
use feishu_dify_gateway.Service.Split.{split_text}
use feishu_dify_gateway.Service.Monad.{Environment, Action, pure, raise, send_text, diverge, ◌>>◌}

-- `uuid.uuid5(FEISHU_DELIVERY_NAMESPACE, f"{delivery_key}:{index}")`
abbrev pub chunk_key : Environment → Text → ℕ → Text
chunk_key env delivery_key index = env.uuid5 (delivery_key ++ (codes ":" ++ decimal index))

-- The loop, from chunk `index` on.
unfoldable pub send_from : Environment → Text → Text → ℕ → List Text → Action (Unit {0})
send_from env recipient delivery_key index [] = pure tt
send_from env recipient delivery_key index (chunk ∷ chunks) =
    send_text env recipient chunk (chunk_key env delivery_key index)
    >> send_from env recipient delivery_key (suc index) chunks

abbrev pub chunk_limit : ℕ
chunk_limit = 3500

abbrev pub empty_message : GatewayError
empty_message = record {
  code = "EMPTY_MESSAGE";
  safe_message = "Message is empty";
  status_code = 422;
}

unfoldable pub send_split : Environment → Text → Text → Option (List Text) → Action (Unit {0})
send_split env recipient delivery_key none = diverge
send_split env recipient delivery_key (some []) = raise (gateway empty_message)
send_split env recipient delivery_key (some (c ∷ cs)) =
    send_from env recipient delivery_key 0 (c ∷ cs)

unfoldable pub send_chunks : Environment → (recipient text delivery_key : Text) → Action (Unit {0})
send_chunks env recipient text delivery_key =
    send_split env recipient delivery_key (split_text text chunk_limit)

-- RETRYABLE_DELIVERY_STATUS_CODES
unfoldable pub is_retryable_status : ℕ → Bool
is_retryable_status status =
    status == 408
    || status == 425
    || status == 429
    || status == 500
    || status == 502
    || status == 503
    || status == 504

abbrev pub failure_code : Exn → String
failure_code (gateway g) = g.code
failure_code other = "UNEXPECTED_DELIVERY_ERROR"

unfoldable pub is_retryable : Exn → Bool
unfolding is_retryable_status
is_retryable (gateway g) = is_retryable_status g.status_code
is_retryable other = true

-- The error code, and whether a later attempt may succeed.
unfoldable pub delivery_failure : Exn → String × Bool
delivery_failure exc = (failure_code exc, is_retryable exc)
