-- ===== src/Tests.antt =====
-- The theorems of the other files at concrete inputs.
pub mod Store
pub mod Security
pub mod Service
pub mod Clients
pub mod App
pub mod Feishu
pub mod Eventually
pub mod Config
pub mod Logging
pub mod Concurrent
