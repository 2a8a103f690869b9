-- ===== src/Exec/Run.antt =====
-- native/posix.c, `jf_exec_call`: the run of one child, from its registration to its end.
mod Defs
mod Begin
mod Streams
mod State
mod Timing
mod Calls
mod Control
mod Reap
mod Transfer
mod Loop
mod Cleanup
mod Start
mod Launch
mod Whole
mod Yields
mod Verdict
mod Conclusion
mod Call
mod Report
mod Shutdown
unfoldable pub use Defs.*
unfoldable pub use Begin.*
pub use Call.*
pub use Verdict.{SetsErrno}
pub use Report.*
unfoldable pub use Shutdown.*
