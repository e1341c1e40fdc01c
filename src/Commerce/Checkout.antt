-- ===== src/Commerce/Checkout.antt =====
-- The checkout of server/apps/commerce/api.py.
mod Checks
mod Rows
mod Phases
unfoldable pub use Checks.*
unfoldable pub use Rows.*
unfoldable pub use Phases.*
