-- ===== src/Lib.antt =====
-- jev-fabric: the native effects.
--
-- The program is written in Bend and compiled to C; what it does to the operating system goes
-- through a few C effects, which this development models:
--   - native/host.c, the private job store: a root directory, one directory for each job, small
--     files replaced atomically, a lease held by flock, and the launch of a detached worker;
--   - native/posix.c, owned subprocesses: pipes, captured streams with their spool files, and the
--     table of at most eight jobs that a shutdown kills;
--   - native/pipe.c, pipes and a duplicate of standard input as File handles;
--   - native/http.c, pooled HTTPS requests by libcurl.
-- The effects share no state but the interrupt flag. Each runs its `*_call` function on a helper
-- thread, and its `*_run` and `*_pack` functions on the loop of the Bend runtime.
--
-- Files:
--   Base: shared names, Boolean tests, list operations, bounded loads and stores of bytes.
--   Os: the system calls as a record of functions over an abstract world, with what the loops rely
--     on (`IsLawful`); `errno`, the log of what was done, the monad of the C functions (Os/Defs);
--     which descriptors a log leaves open and what was written to them (Os/Ledger); rules for what
--     a function returns (Os/Rules).
--   Tail, Capture: `jf_tail`; `jf_spool` and `jf_read` of native/posix.c for one stream of a job.
--   Gate: the critical sections under `jf_gate` and the threads that run them.
--   Exec: `jf_exec_start` and `jf_exec_pack`, with the effects that call them, up to `io_work`;
--     what `jf_exec_call` needs of the kernel and what a log leaves behind (Exec/Kernel); the call
--     itself (Exec/Run): its locals, the pieces of its loop and its label `cleanup` (Run/Defs), its
--     launch (Run/Begin), what holds between the pieces and how many rounds are left (Run/State,
--     Run/Timing), the whole (Run/Call), and what it reports (Run/Verdict, Run/Report);
--     `jf_cleanup` (Run/Shutdown).
--   Pipe: `jf_pipe`, `native_pipe_run`, `native_stdin_run`.
--   Marshal: the argument loops of `jfh_os_run` and `jf_exec_start`.
--   Host/Names, Host/Directory, Host/Files, Host/Call, Host/Request: native/host.c, from the tests
--     on names up to `jfh_os_run`.
--   Http: `jh_write`, `jh_progress`, `jh_configure`, `jh_https` and the tests of
--     `native_http_post_run`; `jh_post_call` (Http/Transfer); `jh_post_pack`, `jh_scrub` and
--     `native_http_post_run` (Http/Pack); `jh_load` (Http/Load).
--   Witness: a small operating system and a machine with a clock (Witness/Kernel) that keep the
--     hypotheses, and every theorem applied.
--
-- A C function that answers -1 with `errno` set answers `none` here and sets `errno` in the state.
-- A system call's answer is a parameter at every call: a value or an error number, and any world
-- after it. A successful call is logged, a write to the gate with what it changed in the table, and
-- a waitpid with the status that it gave; theorems speak of the log. Bytes are numbers, a C string
-- the list of its bytes before the NUL. `size_t` and `unsigned` wrap where the source may.
--
-- Loops that try again on EINTR run on fuel: the number of bytes still wanted, plus the number of
-- interruptions that the world says are still to come, plus one. Each round transfers a byte or
-- uses up an interruption, so the fuel is enough: a function that ran out would return nothing
-- (`none` in the monad), and the theorems about these functions say that they return.
--
-- The poll loop of `jf_exec_call` runs on fuel too: the nanoseconds of the job's timeout, of the
-- patience (the time that a killed child may take to end) and of the drain grace. `IsLive` states
-- what that relies on: each poll takes a nanosecond or more, and a killed child ends in time. A
-- waitpid without WNOHANG may wait for ever, but for a child that was killed. Its
-- clock is not cut at 2 ^ 64, which nanoseconds reach after 584 years. Other threads, the child
-- and signals may change the world at each call.
--
-- Not modelled: memory that is freed but for the request buffers of native/http.c, the signals'
-- handlers, the registration of the effects, and the destruction of the spawn attributes; in
-- native/http.c the values of the options that are pointers to this call's own objects (the share
-- handle, the header list, the callbacks and their argument) and the pointers in which `jh_load`
-- keeps the symbols; in native/host.c the branch for macOS and a negative `st_size`.
-- posix_spawn, libcurl, the dynamic loader, the Bend runtime's `io_nul` and the file system are
-- parameters. The Bend modules are not C and are not modelled.
pub mod Base
pub mod Tail
pub mod Os
pub mod Pipe
pub mod Marshal
pub mod Capture
pub mod Gate
pub mod Exec
pub mod Host
pub mod Http
pub mod Witness
