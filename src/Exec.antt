-- ===== src/Exec.antt =====
-- native/posix.c: how a subprocess request is admitted, and how its report is packed.
pub mod Kernel
pub mod Run
mod Defs
mod Start
unfoldable pub use Defs.*
pub use Start.*
