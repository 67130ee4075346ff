-- ===== src/Text/Strip.antt =====
-- `str.strip` and its halves: what they leave, and that they take whitespace alone.
use feishu_dify_gateway.Base.{
  ℕ, zero, suc, ◌≤◌, ◌≡◌, refl, ap, ◌∙◌, inl, inr, false, [], ◌∷◌, ◌++◌, arith, if◌then◌else◌,
  Bool-cases, length, drop,
}
use feishu_dify_gateway.Text.{Text, is_space, lstrip, rstrip, strip}

-- Text with no whitespace at either end.
pub record IsStripped (s : Text) : Type 0 where
  pub left : lstrip s ≡ s
  pub right : rstrip s ≡ s

pub lstrip_idem : (s : Text) → lstrip (lstrip s) ≡ lstrip s
unfolding lstrip
lstrip_idem [] = refl
lstrip_idem (c ∷ s) = ground (arith, lstrip_idem s)

pub rstrip_idem : (s : Text) → rstrip (rstrip s) ≡ rstrip s
unfolding rstrip
rstrip_idem [] = refl
rstrip_idem (c ∷ s) = ground (arith, rstrip_idem s)

pub length-lstrip-le : (s : Text) → length (lstrip s) ≤ length s
unfolding lstrip
length-lstrip-le [] = omega arith
length-lstrip-le (c ∷ s) = ground (arith, length-lstrip-le s)

pub length-rstrip-le : (s : Text) → length (rstrip s) ≤ length s
unfolding rstrip
length-rstrip-le [] = omega arith
length-rstrip-le (c ∷ s) = ground (arith, length-rstrip-le s)

-- The first character of a text that `lstrip` leaves alone is no whitespace, and conversely.
pub lstrip_head : (c : ℕ) (s : Text) → lstrip (c ∷ s) ≡ c ∷ s → is_space c ≡ false
unfolding lstrip
lstrip_head c s e = elim (Bool-cases (is_space c)) [
  | inl space ↦ absurd (omega (arith, length-lstrip-le s, ap length (rw space at e)))
  | inr solid ↦ solid
]

pub lstrip_solid : (c : ℕ) (s : Text) → is_space c ≡ false → lstrip (c ∷ s) ≡ c ∷ s
unfolding lstrip
lstrip_solid c s e = rw e

pub rstrip_solid : (c : ℕ) (s : Text) → is_space c ≡ false → rstrip (c ∷ s) ≡ c ∷ rstrip s
unfolding rstrip
rstrip_solid c s e = ground arith

pub rstrip_tail : (c : ℕ) (s : Text) → rstrip (c ∷ s) ≡ c ∷ s → rstrip s ≡ s
unfolding rstrip
rstrip_tail c s e = ground arith

pub rstrip-drop : (n : ℕ) (s : Text) → rstrip s ≡ s → rstrip (drop n s) ≡ drop n s
rstrip-drop zero s e = e
rstrip-drop (suc n) [] e = e
rstrip-drop (suc n) (c ∷ s) e = rstrip-drop n s (rstrip_tail c s e)

pub rstrip-lstrip : (s : Text) → rstrip s ≡ s → rstrip (lstrip s) ≡ lstrip s
unfolding lstrip
rstrip-lstrip [] e = e
rstrip-lstrip (c ∷ s) e = elim (Bool-cases (is_space c)) [
  | inl space ↦ rw space (rstrip-lstrip s (rstrip_tail c s e))
  | inr solid ↦ rw solid e
]

pub lstrip-rstrip : (s : Text) → lstrip s ≡ s → lstrip (rstrip s) ≡ rstrip s
lstrip-rstrip [] e = unfold lstrip rstrip in refl
lstrip-rstrip (c ∷ s) e =
    let solid = lstrip_head c s e in rw (rstrip_solid c s solid) (lstrip_solid c (rstrip s) solid)

pub strip-IsStripped : (s : Text) → IsStripped (strip s)
unfolding strip
strip-IsStripped s = record {
  left = lstrip-rstrip (lstrip s) (lstrip_idem s);
  right = rstrip_idem (lstrip s);
}

-- Stripping a text that has no whitespace at its ends does nothing.
pub strip_stripped : (s : Text) → IsStripped s → strip s ≡ s
unfolding strip
strip_stripped s h = rw h.left h.right

-- The text without its whitespace.
abbrev pub squeeze : Text → Text
squeeze [] = []
squeeze (c ∷ s) = if is_space c then squeeze s else c ∷ squeeze s

pub squeeze-append : (s t : Text) → squeeze (s ++ t) ≡ squeeze s ++ squeeze t
squeeze-append [] t = refl
squeeze-append (c ∷ s) t = ground (arith, squeeze-append s t)

pub squeeze-lstrip : (s : Text) → squeeze (lstrip s) ≡ squeeze s
unfolding lstrip
squeeze-lstrip [] = refl
squeeze-lstrip (c ∷ s) = ground (arith, squeeze-lstrip s)

pub squeeze-rstrip : (s : Text) → squeeze (rstrip s) ≡ squeeze s
unfolding rstrip
squeeze-rstrip [] = refl
squeeze-rstrip (c ∷ s) = ground (arith, squeeze-rstrip s)

pub squeeze-strip : (s : Text) → squeeze (strip s) ≡ squeeze s
unfolding strip
squeeze-strip s = squeeze-rstrip (lstrip s) ∙ squeeze-lstrip s
