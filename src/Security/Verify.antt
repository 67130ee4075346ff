-- ===== src/Security/Verify.antt =====
-- What `verify_request` of src/feishu_dify_gateway/security.py accepts and refuses.
use feishu_dify_gateway.Base.{ℕ, ◌+◌, ◌≤◌, ◌<◌, ◌≡◌, ◌↔◌, true, false, arith, length}
use feishu_dify_gateway.Text.{Text, same_iff, is_ascii}
use feishu_dify_gateway.Text.Decimal.{decimal, is_digits, digits_value}
use feishu_dify_gateway.Text.Decimal.RoundTrip.{
  digits_value-decimal, is_digits-decimal, is_digits_ascii,
}
use feishu_dify_gateway.Security.{
  Crypto, IsHexDigest, verified, type_error, value_error, is_event_id, max_int_digits, sign_request,
  verify_request, canonical_request,
}

expected_ascii :
    (c : Crypto)
    → IsHexDigest c
    → (secret timestamp event_id body : Text)
    → is_ascii (sign_request c secret timestamp event_id body) ≡ true
unfolding sign_request
expected_ascii c hex secret timestamp event_id body =
    hex.hmac_ascii secret (canonical_request c timestamp event_id body)

-- A request that passes: its event identity is well-formed, its timestamp is a number within
-- `ttl_seconds` of the clock, and its signature is the HMAC of timestamp, identity and body.
pub record IsAuthentic (c : Crypto) (secret timestamp event_id signature body : Text)
    (ttl_seconds now : ℕ) : Type 0 where
  pub identity : is_event_id event_id ≡ true
  pub digits : is_digits timestamp ≡ true
  pub readable : length timestamp ≤ max_int_digits
  pub not_late : now ≤ digits_value 0 timestamp + ttl_seconds
  pub not_early : digits_value 0 timestamp ≤ now + ttl_seconds
  pub signed : c.lower signature ≡ sign_request c secret timestamp event_id body

module _ (c : Crypto) (secret timestamp event_id signature body : Text) (ttl_seconds now : ℕ) where
  abbrev expected : Text
  expected = sign_request c secret timestamp event_id body

  -- `verify_request` returns exactly for authentic requests, where the digests of the library are
  -- hexadecimal.
  pub verify_request_iff :
      IsHexDigest c
      → (verify_request c secret timestamp event_id signature body ttl_seconds now ≡ verified)
        ↔ IsAuthentic c secret timestamp event_id signature body ttl_seconds now
  unfolding verify_request
  verify_request_iff hex = (
    λ h. ground (arith, same_iff expected (c.lower signature), is_digits_ascii timestamp),
    λ h. ground (
      arith,
      same_iff expected (c.lower signature),
      is_digits_ascii timestamp,
      expected_ascii c hex secret timestamp event_id body,
    ),
  )

  -- Where the digests of the library are hexadecimal, the two exceptions of `verify_request` that are
  -- no SignatureError are raised exactly for these requests. TypeError: the event identity is
  -- well-formed, the timestamp is a number of at most 4300 digits within `ttl_seconds` of the clock, and
  -- the lowered signature is not ASCII. ValueError: the event identity is well-formed and the timestamp
  -- is a number of more than 4300 digits.
  pub verify_request_errors_iff :
      IsHexDigest c
      → let verdict = verify_request c secret timestamp event_id signature body ttl_seconds now in
        ((verdict ≡ type_error) ↔ (
          (is_event_id event_id ≡ true)
          × (is_digits timestamp ≡ true)
          × (length timestamp ≤ max_int_digits)
          × (now ≤ digits_value 0 timestamp + ttl_seconds)
          × (digits_value 0 timestamp ≤ now + ttl_seconds)
          × (is_ascii (c.lower signature) ≡ false)))
        × ((verdict ≡ value_error) ↔ (
            (is_event_id event_id ≡ true)
            × (is_digits timestamp ≡ true)
            × (max_int_digits < length timestamp)))
  unfolding verify_request
  verify_request_errors_iff hex =
      let ascii = expected_ascii c hex secret timestamp event_id body in
      (
        (
          λ h. ground (arith, h, ascii, is_digits_ascii timestamp),
          λ (identity, digits, readable, late, early, foreign).
              ground (arith, is_digits_ascii timestamp),
        ),
        (
          λ h. ground (arith, h, is_digits_ascii timestamp),
          λ (identity, digits, long). ground (arith, is_digits_ascii timestamp),
        ),
      )

-- Where the digests of the library are hexadecimal, a request with a well-formed event identity
-- that the holder of the key signs at time `sent_at`, with that time as its timestamp, of at most
-- 4300 digits, passes at every time that is at most `ttl_seconds` away, whatever its body.
pub verify_request-sign_request :
    (c : Crypto) (secret event_id body : Text) (ttl_seconds sent_at now : ℕ)
    → IsHexDigest c
    → is_event_id event_id ≡ true
    → length (decimal sent_at) ≤ max_int_digits
    → now ≤ sent_at + ttl_seconds
    → sent_at ≤ now + ttl_seconds
    → verify_request c secret
        (decimal sent_at)
        event_id
        (sign_request c secret (decimal sent_at) event_id body)
        body
        ttl_seconds
        now
      ≡ verified
verify_request-sign_request c secret event_id body ttl_seconds sent_at now hex identity readable
      late early =
    (verify_request_iff c secret (decimal sent_at) event_id
        (sign_request c secret (decimal sent_at) event_id body) body ttl_seconds now hex).1
      (record {
        identity = identity;
        digits = is_digits-decimal sent_at;
        readable = readable;
        not_late = rw (digits_value-decimal sent_at) late;
        not_early = rw (digits_value-decimal sent_at) early;
        signed =
            unfold sign_request in
            hex.hmac_lower secret (canonical_request c (decimal sent_at) event_id body);
      })
