-- ===== src/Text/Decimal/RoundTrip.antt =====
-- `int(str(n))` is `n`, and `str(n)` is a text of ASCII digits.
use feishu_dify_gateway.Base.{
  ℕ, zero, suc, ◌+◌, ◌/◌, ◌%◌, ◌<◌, ◌≡◌, refl, ap, ◌∙◌, inl, inr, true, [], ◌∷◌, arith, ltb,
  Bool-cases,
}
use feishu_dify_gateway.Text.{Text, is_ascii}
use feishu_dify_gateway.Text.Decimal.{all_digits, is_digits, digits_value, decimal_fuel, decimal}

digits_value_shift :
    (f n : ℕ) (acc : Text) → n < f → digits_value 0 (decimal_fuel f n acc) ≡ digits_value n acc
unfolding decimal_fuel digits_value
digits_value_shift zero n acc h = elim h [ ]
digits_value_shift (suc f) n acc h = elim (Bool-cases (ltb n 10)) [
  | inl small ↦ rw small (ap (λ k. digits_value k acc) (omega arith))
  | inr large ↦ rw large (
      digits_value_shift f (n / 10) ((48 + n % 10) ∷ acc) (ground arith)
      ∙ ap (λ k. digits_value k acc) (omega arith))
]

pub digits_value-decimal : (n : ℕ) → digits_value 0 (decimal n) ≡ n
unfolding decimal digits_value
digits_value-decimal n = digits_value_shift (suc n) n [] (omega arith)

decimal_fuel_digits :
    (f n : ℕ) (acc : Text) → n < f → all_digits acc ≡ true → is_digits (decimal_fuel f n acc) ≡ true
unfolding decimal_fuel is_digits
decimal_fuel_digits zero n acc h a = elim h [ ]
decimal_fuel_digits (suc f) n acc h a = elim (Bool-cases (ltb n 10)) [
  | inl small ↦ rw small (ground arith)
  | inr large ↦
      rw large (decimal_fuel_digits f (n / 10) ((48 + n % 10) ∷ acc) (ground arith) (ground arith))
]

pub is_digits-decimal : (n : ℕ) → is_digits (decimal n) ≡ true
unfolding decimal
is_digits-decimal n = decimal_fuel_digits (suc n) n [] (omega arith) (unfold all_digits in refl)

all_digits_ascii : (s : Text) → all_digits s ≡ true → is_ascii s ≡ true
unfolding all_digits is_ascii
all_digits_ascii [] h = refl
all_digits_ascii (c ∷ s) h = ground (arith, all_digits_ascii s)

-- Digits are ASCII.
pub is_digits_ascii : (s : Text) → is_digits s ≡ true → is_ascii s ≡ true
unfolding is_digits
is_digits_ascii s h = ground (arith, all_digits_ascii s)
