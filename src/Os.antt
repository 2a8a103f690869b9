-- ===== src/Os.antt =====
-- The operating system as native/host.c, native/posix.c and native/pipe.c call it: the system
-- calls are a parameter over an abstract world, and the code's own state is `errno` and a log of
-- what the calls did.
mod Defs
mod Ledger
mod Rules
unfoldable pub use Defs.*
unfoldable pub use Ledger.*
pub use Rules.*
