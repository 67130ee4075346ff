-- ===== src/Text/Decimal.antt =====
-- Decimal numbers as Python writes and reads them: `str(n)`, `s.isdigit()` and `int(s)` for ASCII
-- text.
pub mod RoundTrip
use feishu_dify_gateway.Base.{
  ℕ, zero, suc, ◌+◌, ◌-◌, ◌*◌, ◌/◌, ◌%◌, Bool, true, not, ◌&&◌, [], ◌∷◌, ltb, leb, if◌then◌else◌,
}
use feishu_dify_gateway.Text.{Text, is_blank}

abbrev pub is_digit : ℕ → Bool
is_digit c = leb 48 c && leb c 57

unfoldable pub all_digits : Text → Bool
all_digits [] = true
all_digits (c ∷ s) = is_digit c && all_digits s

-- `s.isdigit()`, where `s.isascii()`.
unfoldable pub is_digits : Text → Bool
unfolding all_digits
is_digits s = not (is_blank s) && all_digits s

unfoldable pub digits_value : ℕ → Text → ℕ
digits_value acc [] = acc
digits_value acc (c ∷ s) = digits_value (acc * 10 + (c - 48)) s

unfoldable pub decimal_fuel : ℕ → ℕ → Text → Text
decimal_fuel zero n acc = acc
decimal_fuel (suc f) n acc =
    let rest = decimal_fuel f (n / 10) ((48 + n % 10) ∷ acc) in
    if ltb n 10 then (48 + n) ∷ acc else rest

-- `str(n)`.
unfoldable pub decimal : ℕ → Text
unfolding decimal_fuel
decimal n = decimal_fuel (suc n) n []
