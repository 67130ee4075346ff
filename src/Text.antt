-- ===== src/Text.antt =====
-- Python's `str` as the list of its code points, and the methods of `str` that the gateway calls
-- (src/feishu_dify_gateway, all files).
pub mod Strip
pub mod Decimal
pub mod Prefix
use Prim.Native.Char.{code}
use feishu_dify_gateway.Base.{
  ℕ, String, ◌≡◌, refl, ◌↔◌, Bool, true, false, ◌&&◌, ◌||◌, List, [], ◌∷◌, arith, leb, ltb, ◌==◌,
  if◌then◌else◌,
}

abbrev pub Text : Type 0
Text = List ℕ

-- A text literal.
abbrev pub codes : String → Text
codes String.[] = []
codes (String.◌∷◌ c s) = code c ∷ codes s

-- `a == b` on two texts.
unfoldable pub same : Text → Text → Bool
same [] [] = true
same (a ∷ s) (b ∷ t) = a == b && same s t
same _ _ = false

pub same→eq : (s t : Text) → same s t ≡ true → s ≡ t
unfolding same
same→eq [] [] h = refl
same→eq [] (b ∷ t) h = ground arith
same→eq (a ∷ s) [] h = ground arith
same→eq (a ∷ s) (b ∷ t) h = ground (arith, same→eq s t)

pub same_refl : (s : Text) → same s s ≡ true
unfolding same
same_refl [] = refl
same_refl (a ∷ s) = ground (arith, same_refl s)

pub same_iff : (s t : Text) → (same s t ≡ true) ↔ (s ≡ t)
same_iff s t = (same→eq s t, λ e. rw (← e) (same_refl s))

-- `s.startswith(p)`.
unfoldable pub starts_with : Text → Text → Bool
starts_with s [] = true
starts_with [] (b ∷ p) = false
starts_with (a ∷ s) (b ∷ p) = a == b && starts_with s p

-- The code points for which `str.isspace` holds.
unfoldable pub is_space : ℕ → Bool
is_space c =
    (leb 9 c && leb c 13)
    || (leb 28 c && leb c 32)
    || c == 133
    || c == 160
    || c == 5760
    || (leb 8192 c && leb c 8202)
    || c == 8232
    || c == 8233
    || c == 8239
    || c == 8287
    || c == 12288

-- `s.lstrip()`.
unfoldable pub lstrip : Text → Text
lstrip [] = []
lstrip (c ∷ s) = if is_space c then lstrip s else c ∷ s

abbrev rstrip_cons : ℕ → Text → Text
rstrip_cons c [] = if is_space c then [] else c ∷ []
rstrip_cons c (d ∷ s) = c ∷ d ∷ s

-- `s.rstrip()`.
unfoldable pub rstrip : Text → Text
rstrip [] = []
rstrip (c ∷ s) = rstrip_cons c (rstrip s)

-- `s.strip()`.
unfoldable pub strip : Text → Text
strip s = rstrip (lstrip s)

abbrev rstrip_slash_cons : ℕ → Text → Text
rstrip_slash_cons c [] = if c == b'/' then [] else c ∷ []
rstrip_slash_cons c (d ∷ s) = c ∷ d ∷ s

-- `s.rstrip("/")`.
unfoldable pub rstrip_slash : Text → Text
rstrip_slash [] = []
rstrip_slash (c ∷ s) = rstrip_slash_cons c (rstrip_slash s)

-- `any(char.isspace() for char in s)`.
unfoldable pub any_space : Text → Bool
any_space [] = false
any_space (c ∷ s) = is_space c || any_space s

-- `s.isascii()`.
unfoldable pub is_ascii : Text → Bool
is_ascii [] = true
is_ascii (c ∷ s) = ltb c 128 && is_ascii s

abbrev pub is_blank : Text → Bool
is_blank [] = true
is_blank (_ ∷ _) = false
