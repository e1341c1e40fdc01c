-- ===== src/CommerceBridge.antt =====
-- server/apps/commerce_bridge: webhooks of a hosted shop, mirrored as orders and ledgered once.
pub mod Words
pub mod Model
pub mod Service
pub mod Settlement
pub mod Deliveries
mod Tests
