-- ===== src/Reservation.antt =====
-- server/apps/reservation: reservations and the waiting list.
pub mod Service
pub mod Slots
pub mod Operations
pub mod Accepted
mod Tests
