-- ===== src/Service/Split.antt =====
-- `split_text` of src/feishu_dify_gateway/service.py. The loop takes fuel; `none` is a loop that
-- runs out of it. In `split_text` the fuel is one more than the length of the text, which is enough
-- for every limit but 0, where the loop of the source does not end.
pub mod Chunks
use feishu_dify_gateway.Base.{
  ℕ, zero, suc, ◌/◌, Option, none, some, List, [], ◌∷◌, ltb, ◌==◌, if◌then◌else◌, option_map,
  or_else, length, take, drop,
}
use feishu_dify_gateway.Text.{Text, lstrip, rstrip, strip, is_blank}

-- `s.rfind(c)` for a single character; `none` is -1.
unfoldable pub rfind : ℕ → Text → Option ℕ
rfind c [] = none
rfind c (x ∷ s) = or_else (option_map suc (rfind c s)) (if x == c then some 0 else none)

-- `max`, where `none` is -1.
abbrev pub max_index : Option ℕ → Option ℕ → Option ℕ
max_index none b = b
max_index (some i) none = some i
max_index (some i) (some j) = some (if ltb i j then j else i)

-- `if split_at < limit // 2: split_at = limit`; -1 is below every half.
abbrev pub cut_at : (limit : ℕ) → Option ℕ → ℕ
cut_at limit none = limit
cut_at limit (some i) = if ltb i (limit / 2) then limit else i

-- `split_at` in the loop: 10 is the newline and 32 the space.
unfoldable pub split_at : (limit : ℕ) → Text → ℕ
split_at limit remaining =
    let window = take limit remaining in
    cut_at limit (max_index (rfind 10 window) (rfind 32 window))

unfoldable pub split_loop : (fuel limit : ℕ) → Text → Option (List Text)
split_loop zero limit remaining = none
split_loop (suc fuel) limit remaining =
    let at = split_at limit remaining in
    let rest = split_loop fuel limit (lstrip (drop at remaining)) in
    if ltb limit (length remaining)
    then option_map (λ chunks. rstrip (take at remaining) ∷ chunks) rest
    else some (if is_blank remaining then [] else remaining ∷ [])

unfoldable pub split_text : Text → (limit : ℕ) → Option (List Text)
split_text text limit =
    let stripped = strip text in
    if is_blank stripped then some [] else split_loop (suc (length stripped)) limit stripped
