-- ===== src/Config/RoutePrefix.antt =====
-- The prefix that `_route_prefix` of src/feishu_dify_gateway/config.py accepts, and how
-- `is_administrative_route` of src/feishu_dify_gateway/feishu.py reads it.
use feishu_dify_gateway.Base.{
  ◌≡◌, refl, sym, ap, ◌∙◌, false, not, ◌&&◌, ◌||◌, none, some, [], ◌∷◌, arith, if◌then◌else◌,
}
use feishu_dify_gateway.Text.{Text, codes, starts_with, strip, rstrip_slash, any_space, is_blank}
use feishu_dify_gateway.Text.Prefix.{any_space-rstrip_slash, strip_clean, rstrip_slash_idem}
use feishu_dify_gateway.Feishu.{normalized_prefix}
use feishu_dify_gateway.Config.{route_prefix}
use mathlib.Core.Path.{subst}

accepted_clean :
    (value p : Text)
    → (if not (is_blank value) && (not (starts_with value (codes "/")) || any_space value)
        then none
        else some (rstrip_slash value))
      ≡ some p
    → (any_space value ≡ false) × (rstrip_slash value ≡ p)
unfolding any_space
accepted_clean [] p e = (refl, ground (arith, e))
accepted_clean (c ∷ s) p e = (ground (arith, e), ground (arith, e))

-- A configured prefix that is accepted has no whitespace, and the choice of the lane reads it as it
-- stands: normalizing it a second time changes nothing.
pub route_prefix-normalized_prefix :
    (raw p : Text) → route_prefix raw ≡ some p → (any_space p ≡ false) × (normalized_prefix p ≡ p)
unfolding route_prefix normalized_prefix
route_prefix-normalized_prefix raw p accepted =
    let (clean, e) = accepted_clean (strip raw) p accepted in
    let p_clean : any_space p ≡ false =
      subst (λ q. any_space q ≡ false) e (any_space-rstrip_slash (strip raw) clean) in
    (
      p_clean,
      ap rstrip_slash (strip_clean p p_clean)
          ∙ ap rstrip_slash (sym e)
          ∙ rstrip_slash_idem (strip raw)
          ∙ e,
    )
