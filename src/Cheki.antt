-- ===== src/Cheki.antt =====
-- server/apps/cheki: the records of cheki sales and shoots.
pub mod Service
pub mod Life
mod Tests
