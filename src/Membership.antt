-- ===== src/Membership.antt =====
-- server/apps/membership: tiers, subscriptions, entitlement and the billing worker.
pub mod Model
pub mod Subscribe
pub mod Change
pub mod Billing
pub mod Exclusive
pub mod Calls
pub mod Entitlement
pub mod Renewal
pub mod Charges
mod Tests
