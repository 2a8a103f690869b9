-- ===== src/Host/Request.antt =====
-- native/host.c: `jfh_os_run`, `jfh_spool_run` and `jfh_pack`, from the Bend program's arguments to
-- its answer.
mod Defs
mod Limits
unfoldable pub use Defs.*
pub use Limits.*
