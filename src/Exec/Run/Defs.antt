-- ===== src/Exec/Run/Defs.antt =====
-- native/posix.c, `jf_exec_call`: its local variables, the poll loop, and its label `cleanup`.
mod Locals
mod Pieces
mod Rounds
unfoldable pub use Locals.*
unfoldable pub use Pieces.*
unfoldable pub use Rounds.*
