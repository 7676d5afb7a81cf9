-- ===== src/Webhook.antt =====
-- pkg/webhook: webhook configurations from markers.
pub mod Config
pub mod Convert
pub mod Generate
mod Tests
