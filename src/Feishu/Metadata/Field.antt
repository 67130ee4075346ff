-- ===== src/Feishu/Metadata/Field.antt =====
-- The texts that `_nonblank_text` and `_provider_time` of src/feishu_dify_gateway/feishu.py return:
-- these functions leave them as they are.
use feishu_dify_gateway.Base.{
  ℕ, ◌≤◌, ◌≡◌, refl, ap, ◌∙◌, inl, inr, true, false, Option, none, some, [], ◌∷◌, arith, leb,
  Bool-cases, Option-cases, or_else, Bool, ◌&&◌,
}
use mathlib.Core.Path.{subst}
use feishu_dify_gateway.Text.{Text, strip, rstrip, is_space, is_ascii}
use feishu_dify_gateway.Text.Strip.{
  IsStripped, strip-IsStripped, strip_stripped, lstrip_solid, rstrip_solid,
}
use feishu_dify_gateway.Text.Decimal.{decimal, is_digits, all_digits, digits_value}
use feishu_dify_gateway.Text.Decimal.RoundTrip.{
  digits_value-decimal, is_digits-decimal, is_digits_ascii,
}
use feishu_dify_gateway.Feishu.Metadata.{
  Time, absent, negative, integer, string, filled, nonblank_text, is_too_long, time_of_digits,
  time_of_int, time_of_text, provider_time, text_or,
}
use feishu_dify_gateway.Partial.{some_inj, none-some}

-- Text that `_nonblank_text` leaves as it is.
abbrev pub IsField : Text → Type 0
IsField t = nonblank_text (some t) ≡ some t

stripped_field : (c : ℕ) (t : Text) → IsStripped (c ∷ t) → IsField (c ∷ t)
stripped_field c t h = ap filled (strip_stripped (c ∷ t) h)

filled_idem : (s : Text) → IsStripped s → nonblank_text (filled s) ≡ filled s
filled_idem [] h = refl
filled_idem (c ∷ s) h = stripped_field c s h

pub nonblank_text_idem : (o : Option Text) → nonblank_text (nonblank_text o) ≡ nonblank_text o
nonblank_text_idem none = refl
nonblank_text_idem (some t) = filled_idem (strip t) (strip-IsStripped t)

pub field : (o : Option Text) {t : Text} → nonblank_text o ≡ some t → IsField t
field o e = rw e at (nonblank_text_idem o)

pub either_field :
    (o u : Option Text) {t : Text}
    → or_else (nonblank_text o) (nonblank_text u) ≡ some t
    → IsField t
either_field o u e = elim (Option-cases (nonblank_text o)) [
  | inl empty ↦ field u (rw empty at e)
  | inr (s, some_s) ↦ field o (some_s ∙ (rw some_s at e))
]

pub text_or_field : (o : Option Text) (d : Text) → IsField d → IsField (text_or (nonblank_text o) d)
text_or_field o d default = elim (Option-cases (nonblank_text o)) [
  | inl empty ↦ rw empty default
  | inr (s, e) ↦ rw e (field o e)
]

-- A time that `_provider_time` leaves as it is.
abbrev pub IsTime : Text → Type 0
IsTime t = provider_time (string t) ≡ some (some t)

and_false : (b : Bool) → (b && false) ≡ false
and_false true = refl
and_false false = refl

digit_solid : (c : ℕ) → 48 ≤ c → c ≤ 57 → is_space c ≡ false
unfolding is_space
digit_solid c low high = ground arith

rstrip_digits : (t : Text) → all_digits t ≡ true → rstrip t ≡ t
unfolding all_digits
rstrip_digits [] h = unfold rstrip in refl
rstrip_digits (c ∷ t) h =
    rstrip_solid c t (digit_solid c (ground (arith, h)) (ground (arith, h)))
    ∙ ap (λ u. c ∷ u) (rstrip_digits t (ground (arith, h)))

digits_field : (t : Text) → is_digits t ≡ true → IsField t
unfolding is_digits all_digits
digits_field [] h = ground (arith, h)
digits_field (c ∷ t) h = stripped_field c t (record {
  left = lstrip_solid c t (digit_solid c (ground (arith, h)) (ground (arith, h)));
  right = rstrip_digits (c ∷ t) (ground (arith, h));
})

-- A text of digits that is read as a positive number.
IsTime-field :
    (t : Text)
    → IsField t
    → is_digits t ≡ true
    → is_too_long t ≡ false
    → leb 1 (digits_value 0 t) ≡ true
    → IsTime t
IsTime-field t whole digits short positive =
    rw (whole, digits, is_digits_ascii t digits, short, positive) refl

IsTime-kept :
    (o : Option Text) {t : Text}
    → ((s : Text) → o ≡ some s → IsField s)
    → time_of_text o ≡ some (some t)
    → IsTime t
IsTime-kept none whole e = absurd (none-some (some_inj e))
IsTime-kept (some s) {t} whole e = elim (Bool-cases (is_digits s)) [
  | inr other ↦ absurd (none-some (some_inj (rw (other, and_false (is_ascii s)) at e)))
  | inl digits ↦
      let e1 : time_of_digits s ≡ some (some t) = rw (digits, is_digits_ascii s digits) at e in
      elim (Bool-cases (is_too_long s)) [
        | inl long ↦ absurd (none-some (rw long at e1))
        | inr short ↦ elim (Bool-cases (leb 1 (digits_value 0 s))) [
          | inl positive ↦
              subst IsTime (some_inj (some_inj (rw (short, positive) at e1)))
                (IsTime-field s (whole s refl) digits short positive)
          | inr zero_time ↦ absurd (none-some (some_inj (rw (short, zero_time) at e1)))
        ]
      ]
]

IsTime-decimal :
    (n : ℕ) {t : Text} → leb 1 n ≡ true → time_of_int (decimal n) ≡ some (some t) → IsTime t
IsTime-decimal n positive e = elim (Bool-cases (is_too_long (decimal n))) [
  | inl long ↦ absurd (none-some (rw long at e))
  | inr short ↦ subst IsTime (some_inj (some_inj (rw short at e))) (
      IsTime-field (decimal n) (digits_field (decimal n) (is_digits-decimal n))
        (is_digits-decimal n) short (rw (digits_value-decimal n) positive))
]

pub provider_time-IsTime : (u : Time) {t : Text} → provider_time u ≡ some (some t) → IsTime t
provider_time-IsTime absent e = absurd (none-some (some_inj e))
provider_time-IsTime negative e = absurd (none-some (some_inj e))
provider_time-IsTime (integer n) e = elim (Bool-cases (leb 1 n)) [
  | inl positive ↦ IsTime-decimal n positive (rw positive at e)
  | inr other ↦ absurd (none-some (some_inj (rw other at e)))
]
provider_time-IsTime (string s) e = IsTime-kept (nonblank_text (some s)) (λ u h. field (some s) h) e
