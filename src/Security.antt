-- ===== src/Security.antt =====
-- src/feishu_dify_gateway/security.py. A byte string is the list of its bytes; a text that the source
-- encodes in UTF-8 is hashed as a text, since the encoding is one to one.
pub mod Verify
pub mod Binding
use feishu_dify_gateway.Base.{
  ℕ, ◌+◌, ◌-◌, String, ◌≡◌, Bool, true, not, ◌&&◌, ◌||◌, [], ◌∷◌, ◌++◌, ltb, leb, ◌==◌,
  if◌then◌else◌, length,
}
use feishu_dify_gateway.Text.{Text, codes, same, is_ascii, is_blank}
use feishu_dify_gateway.Text.Decimal.{is_digits, digits_value}

-- The standard library's hashes, as the text of their hexadecimal digest, and `str.lower`.
pub record Crypto : Type 0 where
  pub sha256 : Text → Text
  pub hmac_sha256 : (key message : Text) → Text
  pub lower : Text → Text

-- What the source relies on: a hexadecimal digest is ASCII, and has no capital letters.
pub record IsHexDigest (c : Crypto) : Type 0 where
  pub hmac_ascii : (key message : Text) → is_ascii (c.hmac_sha256 key message) ≡ true
  pub hmac_lower :
      (key message : Text) → c.lower (c.hmac_sha256 key message) ≡ c.hmac_sha256 key message

-- How a verification ends: it returns, raises SignatureError with a message, or raises another
-- exception, which the callers of `verify_request` do not catch.
pub data Verdict : Type 0 where
  verified : Verdict
  signature_error : String → Verdict
  type_error value_error : Verdict

-- The characters of EVENT_ID_RE.
abbrev pub is_event_char : ℕ → Bool
is_event_char c =
    (leb b'A' c && leb c b'Z')
    || (leb b'a' c && leb c b'z')
    || (leb b'0' c && leb c b'9')
    || c == b'.'
    || c == b'_'
    || c == b':'
    || c == b'-'

unfoldable pub all_event_chars : Text → Bool
all_event_chars [] = true
all_event_chars (c ∷ s) = is_event_char c && all_event_chars s

-- `EVENT_ID_RE.fullmatch(event_id)`
unfoldable pub is_event_id : Text → Bool
is_event_id s = not (is_blank s) && leb (length s) 200 && all_event_chars s

-- `int` refuses a text of more digits than this.
abbrev pub max_int_digits : ℕ
max_int_digits = 4300

module _ (c : Crypto) where
  unfoldable pub body_digest : Text → Text
  body_digest body = c.sha256 body

  unfoldable pub canonical_request : (timestamp event_id body : Text) → Text
  canonical_request timestamp event_id body =
      timestamp ++ (codes "\n" ++ (event_id ++ (codes "\n" ++ body_digest body)))

  unfoldable pub sign_request : (secret timestamp event_id body : Text) → Text
  sign_request secret timestamp event_id body =
      c.hmac_sha256 secret (canonical_request timestamp event_id body)

  -- `hmac.compare_digest(a, b)` on texts raises TypeError unless both are ASCII.
  abbrev pub compare_digest : (a b : Text) → Verdict
  compare_digest a b =
      if is_ascii a && is_ascii b
      then (if same a b then verified else signature_error "Invalid signature")
      else type_error

  -- `abs(current - sent_at) > ttl_seconds`
  abbrev pub is_outside : (current sent_at ttl_seconds : ℕ) → Bool
  is_outside current sent_at ttl_seconds =
      ltb ttl_seconds ((current - sent_at) + (sent_at - current))

  unfoldable pub verify_request :
      (secret timestamp event_id signature body : Text) (ttl_seconds now : ℕ) → Verdict
  verify_request secret timestamp event_id signature body ttl_seconds now =
      if not (is_event_id event_id)
      then signature_error "Invalid event ID"
      else if not (is_ascii timestamp && is_digits timestamp)
      then signature_error "Invalid timestamp"
      else if ltb max_int_digits (length timestamp)
      then value_error
      else if is_outside now (digits_value 0 timestamp) ttl_seconds
      then signature_error "Request timestamp is outside the accepted window"
      else compare_digest (sign_request secret timestamp event_id body) (c.lower signature)

  unfoldable pub pseudonymous_user : (secret open_id : Text) → Text
  pseudonymous_user secret open_id = c.hmac_sha256 secret open_id
