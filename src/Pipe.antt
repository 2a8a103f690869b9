-- ===== src/Pipe.antt =====
-- native/pipe.c: `native_pipe_run` and `native_stdin_run`, and `jf_pipe` of native/posix.c.
mod Defs
mod Handles
unfoldable pub use Defs.*
pub use Handles.*
