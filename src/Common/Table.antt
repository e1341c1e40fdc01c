-- ===== src/Common/Table.antt =====
-- Database tables: `Defs` has the queries, `Laws` what they do.
mod Defs
mod Laws
unfoldable pub use Defs.*
pub use Laws.*
