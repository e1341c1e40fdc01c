-- ===== src/EventCampaign.antt =====
-- server/apps/event_campaign: event campaigns and the fans' holds on them.
pub mod Model
pub mod Service
pub mod Holds
pub mod Moves
pub mod Turns
mod Tests
