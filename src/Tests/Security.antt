-- ===== src/Tests/Security.antt =====
-- Runs of the signatures (src/feishu_dify_gateway/security.py).
use feishu_dify_gateway.Base.{
  ℕ, zero, suc, ◌+◌, ◌≤◌, ◌≡◌, refl, ◌↔◌, true, false, ◌&&◌, [], ◌∷◌, map, arith, leb,
  if◌then◌else◌, length, ◌<◌,
}
use feishu_dify_gateway.Security.{
  is_event_id, Crypto, verify_request, canonical_request, body_digest, IsHexDigest, value_error,
  all_event_chars, max_int_digits, sign_request, type_error, verified,
}
use feishu_dify_gateway.Text.{Text, is_ascii, codes}
use feishu_dify_gateway.Text.Decimal.{digits_value, is_digits, decimal, all_digits, decimal_fuel}
use feishu_dify_gateway.Text.Decimal.RoundTrip.{is_digits_ascii, is_digits-decimal}
use feishu_dify_gateway.Security.Verify.{
  IsAuthentic, verify_request-sign_request, verify_request_errors_iff, verify_request_iff,
}
use feishu_dify_gateway.Security.Binding.{canonical_request_injective}

lower_char : ℕ → ℕ
lower_char c = if leb b'A' c && leb c b'Z' then c + 32 else c

pub lower : Text → Text
lower s = map lower_char s

-- Hashes that count characters, in decimal.
abbrev pub crypto : Crypto
crypto = record {
  sha256 = λ s. decimal (length s);
  hmac_sha256 = λ key message. decimal (length key + length message);
  lower = lower;
}

lower-digits : (s : Text) → all_digits s ≡ true → lower s ≡ s
unfolding all_digits lower lower_char
lower-digits [] h = refl
lower-digits (c ∷ s) h = ground (arith, lower-digits s)

pub crypto-IsHexDigest : IsHexDigest crypto
unfolding is_digits
crypto-IsHexDigest = record {
  hmac_ascii = λ key message. is_digits_ascii _ (is_digits-decimal (length key + length message));
  hmac_lower = λ key message.
      lower-digits _ (ground (arith, is_digits-decimal (length key + length message)));
}

abbrev secret : Text
secret = codes "key"

abbrev event_id : Text
event_id = codes "build-1"

abbrev body : Text
body = codes "{}"

event_id-is_event_id : is_event_id event_id ≡ true
unfolding is_event_id all_event_chars
event_id-is_event_id = refl

abbrev timestamp : Text
timestamp = codes "1000"

verify_request_iff_example :
    (verify_request crypto secret timestamp event_id (codes "16") body 300 1200 ≡ verified)
    ↔ IsAuthentic crypto secret timestamp event_id (codes "16") body 300 1200
verify_request_iff_example =
    verify_request_iff crypto secret timestamp event_id (codes "16") body 300 1200
      crypto-IsHexDigest

decimal_short : length (decimal 1000) ≤ max_int_digits
unfolding decimal decimal_fuel
decimal_short = omega arith

verify_request-sign_request_example :
    verify_request crypto secret
      (decimal 1000)
      event_id
      (sign_request crypto secret (decimal 1000) event_id body)
      body
      300
      1200
    ≡ verified
verify_request-sign_request_example =
    verify_request-sign_request crypto secret event_id body 300 1000 1200 crypto-IsHexDigest
      event_id-is_event_id decimal_short (omega arith) (omega arith)

timestamp-is_digits : is_digits timestamp ≡ true
unfolding is_digits all_digits
timestamp-is_digits = refl

timestamp_late : 1200 ≤ digits_value 0 timestamp + 300
unfolding digits_value
timestamp_late = omega arith

timestamp_early : digits_value 0 timestamp ≤ 1200 + 300
unfolding digits_value
timestamp_early = omega arith

foreign_lower : is_ascii (lower (codes "é")) ≡ false
unfolding is_ascii lower lower_char
foreign_lower = refl

-- A signature of one letter that is not ASCII.
verify_request_errors_iff_example :
    let verdict = verify_request crypto secret timestamp event_id (codes "é") body 300 1200 in
    ((verdict ≡ type_error) ↔ (
      (is_event_id event_id ≡ true)
      × (is_digits timestamp ≡ true)
      × (length timestamp ≤ max_int_digits)
      × (1200 ≤ digits_value 0 timestamp + 300)
      × (digits_value 0 timestamp ≤ 1200 + 300)
      × (is_ascii (crypto.lower (codes "é")) ≡ false)))
    × ((verdict ≡ value_error) ↔ (
        (is_event_id event_id ≡ true)
        × (is_digits timestamp ≡ true)
        × (max_int_digits < length timestamp)))
verify_request_errors_iff_example =
    verify_request_errors_iff crypto secret timestamp event_id (codes "é") body 300 1200
      crypto-IsHexDigest

-- This signature raises TypeError.
foreign_raises :
    verify_request crypto secret timestamp event_id (codes "é") body 300 1200 ≡ type_error
foreign_raises = verify_request_errors_iff_example.0.1 (
  event_id-is_event_id,
  timestamp-is_digits,
  omega arith,
  timestamp_late,
  timestamp_early,
  foreign_lower,
)

nines : ℕ → Text
nines zero = []
nines (suc n) = b'9' ∷ nines n

length-nines : (n : ℕ) → length (nines n) ≡ n
unfolding nines
length-nines zero = refl
length-nines (suc n) = ground (arith, length-nines n)

all_digits-nines : (n : ℕ) → all_digits (nines n) ≡ true
unfolding all_digits nines
all_digits-nines zero = refl
all_digits-nines (suc n) = ground (arith, all_digits-nines n)

abbrev long_timestamp : Text
long_timestamp = nines (suc max_int_digits)

long_timestamp-is_digits : is_digits long_timestamp ≡ true
unfolding is_digits nines
long_timestamp-is_digits = all_digits-nines (suc max_int_digits)

-- This timestamp raises ValueError.
long_raises : verify_request crypto secret long_timestamp event_id [] body 300 1200 ≡ value_error
long_raises =
    (verify_request_errors_iff crypto secret long_timestamp event_id [] body 300 1200
        crypto-IsHexDigest).1.1
      (
        event_id-is_event_id,
        long_timestamp-is_digits,
        ground (arith, length-nines (suc max_int_digits)),
      )

same_canonical :
    canonical_request crypto timestamp event_id (codes "ab")
    ≡ canonical_request crypto timestamp event_id (codes "cd")
unfolding canonical_request body_digest
same_canonical = refl

canonical_request_injective_example :
    (timestamp ≡ timestamp)
    × (event_id ≡ event_id)
    × (body_digest crypto (codes "ab") ≡ body_digest crypto (codes "cd"))
canonical_request_injective_example =
    canonical_request_injective crypto timestamp timestamp event_id event_id (codes "ab")
      (codes "cd") timestamp-is_digits timestamp-is_digits event_id-is_event_id event_id-is_event_id
      same_canonical
