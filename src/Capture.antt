-- ===== src/Capture.antt =====
-- native/posix.c: what a child's output goes through, `jf_spool` and `jf_read`.
mod Defs
mod Streams
unfoldable pub use Defs.*
pub use Streams.*
