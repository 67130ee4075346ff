-- ===== src/Errors.antt =====
-- src/feishu_dify_gateway/errors.py, and the exceptions of a call as values.
use feishu_dify_gateway.Base.{ℕ, String}

pub record GatewayError : Type 0 where
  pub code : String
  pub safe_message : String
  pub status_code : ℕ

-- `GatewayError(code, message)` with the default status.
abbrev pub gateway_error : String → String → GatewayError
gateway_error code message = record { code = code; safe_message = message; status_code = 502 }

-- What an `except Exception` can catch: a GatewayError, or any other exception.
pub data Exn : Type 0 where
  gateway : GatewayError → Exn
  other : Exn

-- How a call ends. `diverged` marks a loop that ran out of its fuel.
pub data Result {ℓ} (A : Type ℓ) : Type ℓ where
  ok : A → Result A
  raised : Exn → Result A
  diverged : Result A
