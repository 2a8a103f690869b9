-- ===== src/Exec/Run/Defs/Locals.antt =====
-- native/posix.c, `jf_exec_call`: its local variables, and the tests on them.
use jev_fabric.Base.{
  ℕ, ◌+◌, ◌-◌, ◌^◌, Bool, true, false, ◌||◌, not, List, Option, none, some, ltb, if◌then◌else◌, [],
  ◌∷◌,
}
use jev_fabric.Os.{Errno, clear, Event, reaped}
use jev_fabric.Capture.{Stream}
use jev_fabric.Exec.Defs.{Job}
use jev_fabric.Exec.Kernel.{Ready}
use jev_fabric.Os.{ExitStatus, exited, signaled}

-- JF_DRAIN_GRACE_NS
abbrev pub drain_grace : ℕ
drain_grace = 100000000

-- JF_NS_PER_MS
abbrev pub ns_per_ms : ℕ
ns_per_ms = 1000000

-- JF_TIMEOUT_EXIT
abbrev pub timeout_exit : ℕ
timeout_exit = 124

-- The local variables of `jf_exec_call` once it is registered, with what it writes in the job and
-- in `w->code`. -1 is `none`. The read ends of the output pipes are the streams' descriptors, and
-- their flags JF_STDOUT_CUT and JF_STDERR_CUT the captures'.
pub record Run : Type 0 where
  pub job : Job
  pub slot : ℕ
  pub in_read : Option ℕ
  pub in_write : Option ℕ
  pub out_write : Option ℕ
  pub err_write : Option ℕ
  pub out : Stream
  pub err : Stream
  pub pid : Option ℕ
  pub done : Bool
  pub status : ExitStatus
  pub sent : ℕ
  pub exited_at : ℕ
  pub timed_out : Bool
  pub cancelled : Bool
  pub exit_code : ℕ
  pub code : Errno

-- How a piece of the loop's body goes on: to the next piece, out of the loop, or to `cleanup`.
pub data Next : Type 0 where
  go break_with cleanup_with : Run → Next

abbrev pub is_there : Option ℕ → Bool
is_there none = false
is_there (some _) = true

abbrev pub with_code : Run → Errno → Run
with_code r e = record r { code = e }

-- The bit that the drain of an unfinished stream sets.
abbrev pub cut_if : Bool → Stream → Stream
cut_if b t = record t { fd = none; capture = record t.capture { cut = (t.capture).cut || b } }

-- `job->log_error`: one variable for both streams, which stderr's read comes last to set.
abbrev pub log_error_of : Errno → Errno → Errno
log_error_of out clear = out
log_error_of out e = e

abbrev pub is_clear : Errno → Bool
is_clear clear = true
is_clear _ = false

abbrev pub code_of : ExitStatus → ℕ
code_of (exited n) = n
code_of (signaled n) = 128 + n

-- The unsigned subtraction of two times below 2 ^ 64, which a clock of nanoseconds reaches after
-- 584 years.
abbrev pub elapsed : ℕ → ℕ → ℕ
elapsed now since = if ltb now since then now + 2 ^ 64 - since else now - since

abbrev pub reap_event : ℕ → Option ExitStatus → List Event
reap_event pid none = []
reap_event pid (some status) = reaped pid status ∷ []

abbrev pub nothing_ready : Ready
nothing_ready = record { out_ready = false; err_ready = false; in_ready = false }

-- !done || out_pipe[0] >= 0 || err_pipe[0] >= 0
abbrev pub goes_on : Run → Bool
goes_on r = not r.done || is_there (r.out).fd || is_there (r.err).fd
