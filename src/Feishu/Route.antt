-- ===== src/Feishu/Route.antt =====
-- Which messages `is_administrative_route` of src/feishu_dify_gateway/feishu.py selects.
use feishu_dify_gateway.Base.{
  ℕ, ◌≡◌, refl, sym, ap, ◌∙◌, ◌≢◌, ◌↔◌, ◌⊎◌, inl, inr, true, not, ◌&&◌, ◌||◌, [], ◌∷◌, ◌++◌, arith,
  Bool-cases, length, drop,
}
use feishu_dify_gateway.Text.{Text, same, same_iff, starts_with, strip, is_blank, is_space}
use feishu_dify_gateway.Text.Prefix.{starts_with_iff, drop-append}
use feishu_dify_gateway.Feishu.{normalized_prefix, starts_with_space, is_administrative_route}

-- The text is the prefix as a whole word, alone or with something after it.
abbrev pub IsCommand : (t p : Text) → Type 0
IsCommand t p =
    (p ≢ []) × ((t ≡ p) ⊎ ((c : ℕ) × (rest : Text) × (t ≡ p ++ c ∷ rest) × (is_space c ≡ true)))

-- The text after the prefix, where it starts with whitespace.
spaced :
    (t p s : Text)
    → t ≡ p ++ s
    → starts_with_space s ≡ true
    → (c : ℕ) × (rest : Text) × (t ≡ p ++ c ∷ rest) × (is_space c ≡ true)
spaced t p [] e h = ground (arith, h)
spaced t p (c ∷ rest) e h = (c, rest, e, h)

routed :
    (t p : Text)
    → not (is_blank p) && (same t p || (starts_with t p && starts_with_space (drop (length p) t)))
      ≡ true
    → IsCommand t p
routed t [] h = ground (arith, h)
routed t (b ∷ p) h = (
  λ e. cc,
  elim (Bool-cases (same t (b ∷ p))) [
    | inl hit ↦ inl ((same_iff t (b ∷ p)).0 hit)
    | inr miss ↦ inr (
        spaced t (b ∷ p) (drop (length (b ∷ p)) t) ((starts_with_iff t (b ∷ p)).0 (ground arith))
          (ground arith))
  ],
)

selected :
    (t p : Text)
    → IsCommand t p
    → not (is_blank p) && (same t p || (starts_with t p && starts_with_space (drop (length p) t)))
      ≡ true
selected t [] (some_prefix, _) = absurd (some_prefix refl)
selected t (b ∷ p) (_, inl e) = ground (arith, same_iff t (b ∷ p), e)
selected t (b ∷ p) (_, inr (c, rest, e, space)) =
    let suffix : drop (length (b ∷ p)) t ≡ c ∷ rest =
      ap (λ u. drop (length (b ∷ p)) u) e ∙ drop-append (b ∷ p) (c ∷ rest) in
    let prefixed : starts_with t (b ∷ p) ≡ true =
      (starts_with_iff t (b ∷ p)).1 (e ∙ ap (λ u. (b ∷ p) ++ u) (sym suffix)) in
    rw (suffix, prefixed, space)
      (elim (Bool-cases (same t (b ∷ p))) [ inl hit ↦ rw hit refl | inr miss ↦ rw miss refl ])

-- A message takes the administrative lane exactly where the prefix, less whitespace and final
-- slashes, is not empty, and the message, less the whitespace around it, is that prefix or goes on
-- after it with whitespace. A longer word that begins with the prefix does not take the lane.
pub is_administrative_route_iff :
    (text prefix : Text)
    → (is_administrative_route text prefix ≡ true)
      ↔ IsCommand (strip text) (normalized_prefix prefix)
unfolding is_administrative_route
is_administrative_route_iff text prefix = (
  routed (strip text) (normalized_prefix prefix),
  selected (strip text) (normalized_prefix prefix),
)
