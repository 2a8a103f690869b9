-- ===== src/Host/Directory.antt =====
-- native/host.c: the walk to the root directory and the job directories.
mod Defs
mod Handles
unfoldable pub use Defs.*
pub use Handles.*
