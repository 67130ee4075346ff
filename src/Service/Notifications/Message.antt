-- ===== src/Service/Notifications/Message.antt =====
-- The message of a notification (src/feishu_dify_gateway/service.py) is never blank.
use feishu_dify_gateway.Base.{ℕ, ◌≡◌, refl, ap, ◌∙◌, ◌≢◌, false, [], ◌∷◌}
use feishu_dify_gateway.Text.{Text, strip, rstrip, is_space}
use feishu_dify_gateway.Text.Strip.{lstrip_solid, rstrip_solid}
use feishu_dify_gateway.Models.{Notification}
use feishu_dify_gateway.Service.Notifications.{notification_message}

solid_text : (c : ℕ) (t : Text) → is_space c ≡ false → strip (c ∷ t) ≢ []
unfolding strip
solid_text c t solid = λ blank.
    let e : strip (c ∷ t) ≡ c ∷ rstrip t =
      ap rstrip (lstrip_solid c t solid) ∙ rstrip_solid c t solid in
    cc

-- A notification's message starts with a bracket.
pub notification_message_filled : (n : Notification) → strip (notification_message n) ≢ []
unfolding notification_message
notification_message_filled n = solid_text b'[' _ (unfold is_space in refl)
