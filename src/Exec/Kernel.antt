-- ===== src/Exec/Kernel.antt =====
-- The system calls of `jf_exec_call`, what its loops rely on, and the children and slots that a
-- log leaves behind.
mod Defs
mod Balance
unfoldable pub use Defs.*
pub use Balance.*
