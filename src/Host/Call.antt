-- ===== src/Host/Call.antt =====
-- native/host.c, `jfh_call`: the operations on the root and on a job's directory.
mod Defs
mod Owned
mod Descriptors
unfoldable pub use Defs.*
pub use Owned.{claimed, kept}
pub use Descriptors.*
