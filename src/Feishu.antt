-- ===== src/Feishu.antt =====
-- src/feishu_dify_gateway/feishu.py: the choice of the lane of a message.
pub mod Route
pub mod Ingress
pub mod Sender
pub mod Metadata
pub mod Connection
use feishu_dify_gateway.Base.{Bool, false, not, ◌&&◌, ◌||◌, [], ◌∷◌, length, drop}
use feishu_dify_gateway.Text.{Text, same, starts_with, strip, rstrip_slash, is_blank, is_space}

-- `prefix.strip().rstrip("/")`
unfoldable pub normalized_prefix : Text → Text
normalized_prefix prefix = rstrip_slash (strip prefix)

-- `suffix[:1].isspace()`
abbrev pub starts_with_space : Text → Bool
starts_with_space [] = false
starts_with_space (c ∷ _) = is_space c

unfoldable pub is_administrative_route : (text prefix : Text) → Bool
is_administrative_route text prefix =
    let p = normalized_prefix prefix in
    let t = strip text in
    let suffix = drop (length p) t in
    not (is_blank p) && (same t p || (starts_with t p && starts_with_space suffix))
