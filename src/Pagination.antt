-- ===== src/Pagination.antt =====
-- server/config/pagination.py: keyset pagination of the list endpoints.
pub mod Keyset
pub mod Sorting
pub mod Query
pub mod Laws
pub mod Pages
pub mod Tiebreak
pub mod Walk
pub mod Listing
mod Tests
