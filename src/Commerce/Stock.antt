-- ===== src/Commerce/Stock.antt =====
-- The stock of a product: the reservation in `create_order` and `create_free_order`, and
-- `_restock_order_lines`, of server/apps/commerce/api.py.
mod Defs
mod Laws
unfoldable pub use Defs.*
pub use Laws.*
