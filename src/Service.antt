-- ===== src/Service.antt =====
-- src/feishu_dify_gateway/service.py: `GatewayService`, method by method.
pub mod Split
pub mod Monad
pub mod Sending
pub mod Attempt
pub mod Notifications
pub mod Alerts
pub mod Communications
pub mod Commands
pub mod Replies
pub mod Chat
pub mod Synthetic
pub mod Concurrent
pub mod ControlPlane
