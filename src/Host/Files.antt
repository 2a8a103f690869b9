-- ===== src/Host/Files.antt =====
-- native/host.c: random names, reading a file, and replacing one atomically.
mod Defs
mod Random
mod ReadFile
mod Atomic
unfoldable pub use Defs.*
pub use Random.*
pub use ReadFile.*
pub use Atomic.*
