-- ===== src/Host/Names.antt =====
-- native/host.c: `jfh_id`, `jfh_leaf`, and the names that the code builds itself.
mod Defs
mod Generated
unfoldable pub use Defs.*
pub use Generated.*
