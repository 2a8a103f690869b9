-- ===== src/Gate.antt =====
-- native/posix.c: the table of running jobs that `jf_gate` guards.
mod Defs
mod Table
mod Threads
mod Shutdown
unfoldable pub use Defs.*
pub use Table.*
pub use Threads.*
pub use Shutdown.*
