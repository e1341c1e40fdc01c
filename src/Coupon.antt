-- ===== src/Coupon.antt =====
-- server/apps/coupon: coupons and the point ledger.
pub mod Model
pub mod Service
pub mod Points
pub mod Lifecycle
pub mod Turns
mod Tests
