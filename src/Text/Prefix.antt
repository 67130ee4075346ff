-- ===== src/Text/Prefix.antt =====
-- Prefixes, and text without whitespace or final slashes.
use feishu_dify_gateway.Base.{◌≡◌, refl, ◌↔◌, true, false, [], ◌∷◌, ◌++◌, arith, length, drop}
use feishu_dify_gateway.Text.{Text, starts_with, lstrip, rstrip, strip, rstrip_slash, any_space}

-- A text starts with `p` exactly where it is `p` and the rest of it.
pub starts_with_iff : (s p : Text) → (starts_with s p ≡ true) ↔ (s ≡ p ++ drop (length p) s)
unfolding starts_with
starts_with_iff s [] = (λ _. refl, λ _. refl)
starts_with_iff [] (b ∷ p) = (λ h. ground arith, λ e. ground (arith, e))
starts_with_iff (a ∷ s) (b ∷ p) =
    (λ h. ground (arith, starts_with_iff s p), λ e. ground (arith, e, starts_with_iff s p))

pub drop-append : (p s : Text) → drop (length p) (p ++ s) ≡ s
drop-append [] s = refl
drop-append (b ∷ p) s = drop-append p s

lstrip_clean : (s : Text) → any_space s ≡ false → lstrip s ≡ s
unfolding lstrip any_space
lstrip_clean [] h = refl
lstrip_clean (c ∷ s) h = ground arith

rstrip_clean : (s : Text) → any_space s ≡ false → rstrip s ≡ s
unfolding rstrip any_space
rstrip_clean [] h = refl
rstrip_clean (c ∷ []) h = ground arith
rstrip_clean (c ∷ d ∷ s) h = rw (rstrip_clean (d ∷ s) (ground arith)) refl

pub strip_clean : (s : Text) → any_space s ≡ false → strip s ≡ s
unfolding strip
strip_clean s h = rw (lstrip_clean s h) (rstrip_clean s h)

pub any_space-rstrip_slash : (s : Text) → any_space s ≡ false → any_space (rstrip_slash s) ≡ false
unfolding rstrip_slash any_space
any_space-rstrip_slash [] h = refl
any_space-rstrip_slash (c ∷ s) h = ground (arith, any_space-rstrip_slash s)

pub rstrip_slash_idem : (s : Text) → rstrip_slash (rstrip_slash s) ≡ rstrip_slash s
unfolding rstrip_slash
rstrip_slash_idem [] = refl
rstrip_slash_idem (c ∷ s) = ground (arith, rstrip_slash_idem s)
