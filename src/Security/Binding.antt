-- ===== src/Security/Binding.antt =====
-- What a signature of src/feishu_dify_gateway/security.py binds: the text that is signed tells the
-- timestamp, the event identity and the digest of the body apart.
use feishu_dify_gateway.Base.{◌≡◌, refl, ◌≢◌, true, [], ◌∷◌, ◌++◌, arith, All}
use feishu_dify_gateway.Text.{Text}
use feishu_dify_gateway.Text.Decimal.{all_digits, is_digits}
use feishu_dify_gateway.Security.{
  Crypto, all_event_chars, is_event_id, body_digest, canonical_request,
}

-- Text with no newline, which is 10.
abbrev pub OneLine : Text → Type 0
OneLine s = All (λ x. x ≢ 10) s

all_digits-OneLine : (s : Text) → all_digits s ≡ true → OneLine s
unfolding all_digits
all_digits-OneLine [] h = tt
all_digits-OneLine (x ∷ s) h = (λ e. ground arith, all_digits-OneLine s (ground arith))

all_event_chars-OneLine : (s : Text) → all_event_chars s ≡ true → OneLine s
unfolding all_event_chars
all_event_chars-OneLine [] h = tt
all_event_chars-OneLine (x ∷ s) h = (λ e. ground arith, all_event_chars-OneLine s (ground arith))

-- A text is split at its first newline in one way.
newline_unique :
    (s s' t t' : Text) → OneLine s → OneLine s' → s ++ 10 ∷ t ≡ s' ++ 10 ∷ t' → (s ≡ s') × (t ≡ t')
newline_unique [] [] t t' h h' e = (refl, ground (arith, e))
newline_unique [] (y ∷ s') t t' h h' e = absurd (h'.0 (ground (arith, e)))
newline_unique (x ∷ s) [] t t' h h' e = absurd (h.0 (ground (arith, e)))
newline_unique (x ∷ s) (y ∷ s') t t' h h' e =
    let (same_head, same_tail) = newline_unique s s' t t' h.1 h'.1 (ground (arith, e)) in
    (ground (arith, e, same_head), same_tail)

-- Two requests with the same signed text have the same timestamp, the same event identity and the
-- same digest of the body, where both have passed the checks on timestamp and identity.
pub canonical_request_injective :
    (c : Crypto) (timestamp timestamp' event_id event_id' body body' : Text)
    → is_digits timestamp ≡ true
    → is_digits timestamp' ≡ true
    → is_event_id event_id ≡ true
    → is_event_id event_id' ≡ true
    → canonical_request c timestamp event_id body ≡ canonical_request c timestamp' event_id' body'
    → (timestamp ≡ timestamp') × (event_id ≡ event_id') × (body_digest c body ≡ body_digest c body')
unfolding canonical_request is_digits is_event_id
canonical_request_injective c t t' k k' b b' dt dt' dk dk' e =
    let (same_t, rest) =
      newline_unique t t' _ _ (all_digits-OneLine t (ground arith))
        (all_digits-OneLine t' (ground arith)) e in
    let (same_k, same_b) =
      newline_unique k k' _ _ (all_event_chars-OneLine k (ground arith))
        (all_event_chars-OneLine k' (ground arith)) rest in
    (same_t, same_k, same_b)
