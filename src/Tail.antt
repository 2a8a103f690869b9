-- ===== src/Tail.antt =====
-- native/posix.c, `jf_tail`: keep the newest `limit` bytes of a stream in a buffer.
mod Defs
mod Window
unfoldable pub use Defs.*
pub use Window.*
