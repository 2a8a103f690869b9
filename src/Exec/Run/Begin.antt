-- ===== src/Exec/Run/Begin.antt =====
-- native/posix.c, `jf_exec_call` up to its poll loop, and the whole of it.
use jev_fabric.Base.{
  ℕ, ◌+◌, ◌*◌, ◌%◌, ◌^◌, false, List, [], ◌∷◌, Option, none, some, ◌==◌, if◌then◌else◌,
}
use jev_fabric.Os.{
  clear, eintr, ecanceled, Ret, ok, fail, launched, M, ◌>>=◌, ◌>>◌, pure, perform, get_errno,
  nothing, exhausted,
}
use jev_fabric.Capture.{Stream}
use jev_fabric.Gate.{Gate, register, launch_child, publish_pid}
use jev_fabric.Pipe.{jf_pipe}
use jev_fabric.Exec.Defs.{Job, Handle, absent, negative, open_at}
use jev_fabric.Exec.Kernel.{
  Kernel, Setup, actions_init, attr_init, set_group, default_signals, set_flags, adddup2, observe,
  under_gate, note,
}
use jev_fabric.Os.{exited}
use jev_fabric.Exec.Run.Defs.{
  Run, with_code, ns_per_ms, drain_grace, close_end, cleanup, conclude, rounds,
}

-- The slot that `register` gave.
abbrev pub slot_given : Option (Option ℕ) → Option ℕ
slot_given none = none
slot_given (some slot) = slot

abbrev pub file_of : Handle → Option ℕ
file_of (open_at fd) = some fd
file_of _ = none

-- A stream before anything is read: the buffer is the malloc'ed one.
abbrev pub fresh_stream : List ℕ → Handle → ℕ → Stream
fresh_stream buffer log limit = record {
  fd = none;
  capture = record { dest = buffer; used = 0; cut = false };
  spool = record { file = file_of log; logged = 0; log_error = clear };
  limit = limit;
}

-- The locals at the beginning, for a job registered at `slot`.
abbrev pub fresh_run : Job → List ℕ → List ℕ → ℕ → Run
fresh_run job out_buffer err_buffer slot = record {
  job = job;
  slot = slot;
  in_read = none;
  in_write = none;
  out_write = none;
  err_write = none;
  out = fresh_stream out_buffer job.log_out job.limit;
  err = fresh_stream err_buffer job.log_err job.limit;
  pid = none;
  done = false;
  status = exited 0;
  sent = 0;
  exited_at = 0;
  timed_out = false;
  cancelled = false;
  exit_code = 0;
  code = clear;
}

-- A job that the gate turned away, with EAGAIN, or the locals of one that ran.
pub data Called : Type 0 where
  turned_away : Job → Called
  ran : Run → Called

-- int child_stdin
abbrev pub child_stdin : Run → Option ℕ
child_stdin r = if (r.job).inherit_stdin then some 0 else r.in_read

abbrev pub setups : Run → List Setup
setups r =
    actions_init
    ∷ attr_init
    ∷ set_group
    ∷ default_signals
    ∷ set_flags
    ∷ adddup2 (child_stdin r) 0
    ∷ adddup2 r.out_write 1
    ∷ adddup2 r.err_write 2
    ∷ []

module _ {W : Type 0} (k : Kernel W) (patience : ℕ) where
  -- w->code = errno; goto cleanup;
  unfoldable pub fail_errno : Run → M W Run
  fail_errno r = get_errno >>= λ e. cleanup k (with_code r e)

  unfoldable pub watch : ℕ → Run → ℕ → M W Run
  watch pid r now =
      rounds k ((r.job).timeout * ns_per_ms + patience + drain_grace + 7) pid
        ((now + (r.job).timeout * ns_per_ms) % 2 ^ 64) r
      >>= conclude k

  unfoldable pub err_nonblocking : ℕ → Run → Option (Unit {0}) → M W Run
  err_nonblocking pid r none = fail_errno r
  err_nonblocking pid r (some _) = observe k k.sys_tick >>= watch pid r

  abbrev pub set_nonblock : Option ℕ → M W (Option (Unit {0}))
  set_nonblock none = pure (some tt)
  set_nonblock (some fd) = perform (k.sys_nonblock fd) nothing

  unfoldable pub out_nonblocking : ℕ → Run → Option (Unit {0}) → M W Run
  out_nonblocking pid r none = fail_errno r
  out_nonblocking pid r (some _) = set_nonblock (r.err).fd >>= err_nonblocking pid r

  unfoldable pub in_nonblocking : ℕ → Run → Option (Unit {0}) → M W Run
  in_nonblocking pid r none = fail_errno r
  in_nonblocking pid r (some _) = set_nonblock (r.out).fd >>= out_nonblocking pid r

  -- The child's ends are closed, and the others made nonblocking.
  unfoldable pub after_spawn : ℕ → Run → M W Run
  after_spawn pid r = do
    close_end k r.in_read
    close_end k r.out_write
    close_end k r.err_write
    let parent = record r { in_read = none; out_write = none; err_write = none }
    set_nonblock r.in_write >>= in_nonblocking pid parent

  unfoldable pub spawn_answered : Run → Ret ℕ → M W Run
  spawn_answered r (fail e) = cleanup k r
  spawn_answered r (ok pid) = note k (launched pid) >> after_spawn pid (record r { pid = some pid })

  -- The gate is locked from the test of `jf_shutdown` on, so that nothing but this writes to it;
  -- the pid goes into the table if the code is 0.
  unfoldable pub publish_child : Run → Gate → Ret ℕ → M W Run
  publish_child r g answer =
      under_gate k (λ _. some r.slot) (λ now. (publish_pid now r.slot answer, tt))
      >> spawn_answered (with_code r (launch_child g r.slot answer).1) answer

  abbrev pub read_gate : M W Gate
  read_gate s = some (k.gate s.world, s)

  unfoldable pub spawn_at : Run → Gate → M W Run
  spawn_at r g =
      if g.shutdown
      then publish_child r g (fail ecanceled)
      else (observe k (k.sys_spawnp (r.job).argv) >>= publish_child r g)

  unfoldable pub spawn_child : Run → M W Run
  spawn_child r = read_gate >>= spawn_at r

  abbrev pub set_up_next : (Run → M W Run) → Run → Option (Unit {0}) → M W Run
  set_up_next rest r none = fail_errno r
  set_up_next rest r (some _) = rest r

  -- The calls that prepare the launch, in their order; the first that fails gives its code.
  unfoldable pub set_up : List Setup → Run → M W Run
  set_up [] r = spawn_child r
  set_up (step ∷ steps) r = perform (k.sys_setup step) nothing >>= set_up_next (set_up steps) r

  unfoldable pub err_piped : Run → Option (ℕ × ℕ) → M W Run
  err_piped r none = fail_errno r
  err_piped r (some ends) =
      let all = record r { err = record r.err { fd = some ends.0 }; err_write = some ends.1 } in
      set_up (setups all) all

  unfoldable pub out_piped : Run → Option (ℕ × ℕ) → M W Run
  out_piped r none = fail_errno r
  out_piped r (some ends) =
      jf_pipe k.os
      >>= err_piped (record r { out = record r.out { fd = some ends.0 }; out_write = some ends.1 })

  unfoldable pub open_outputs : Run → M W Run
  open_outputs r = jf_pipe k.os >>= out_piped r

  unfoldable pub in_piped : Run → Option (ℕ × ℕ) → M W Run
  in_piped r none = fail_errno r
  in_piped r (some ends) = open_outputs (record r { in_read = some ends.0; in_write = some ends.1 })

  -- A reader for standard input that the caller gave goes over from the job to `in_pipe[0]`.
  unfoldable pub take_stdin : Handle → Run → M W Run
  take_stdin (open_at fd) r =
      open_outputs (record r { in_read = some fd; job = record r.job { stdin_fd = absent } })
  take_stdin absent r =
      if (r.job).inherit_stdin then open_outputs r else (jf_pipe k.os >>= in_piped r)
  take_stdin negative r =
      if (r.job).inherit_stdin then open_outputs r else (jf_pipe k.os >>= in_piped r)

  unfoldable pub unless_interrupted : Run → ℕ → M W Run
  unless_interrupted r v =
      if v == 0 then take_stdin (r.job).stdin_fd r else cleanup k (with_code r eintr)

  abbrev pub run_over : Run → M W Called
  run_over r = pure (ran r)

  -- A job that is registered with slot -1 would write outside the table: `exhausted` stands for
  -- that, which never happens.
  unfoldable pub registered : Job → List ℕ → List ℕ → Option (Option ℕ) → M W Called
  registered job out_buffer err_buffer none = pure (turned_away job)
  registered job out_buffer err_buffer (some none) = exhausted
  registered job out_buffer err_buffer (some (some slot)) =
      observe k k.sys_interrupt
      >>= unless_interrupted (fresh_run job out_buffer err_buffer slot)
      >>= run_over

  unfoldable pub jf_exec_call : Job → List ℕ → List ℕ → M W Called
  jf_exec_call job out_buffer err_buffer =
      under_gate k slot_given register >>= registered job out_buffer err_buffer
