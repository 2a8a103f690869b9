-- ===== src/Marshal.antt =====
-- The argument list of a child process, as native/host.c and native/posix.c take it in.
mod Defs
mod Bounds
unfoldable pub use Defs.*
pub use Bounds.*
