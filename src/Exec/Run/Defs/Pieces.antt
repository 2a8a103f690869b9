-- ===== src/Exec/Run/Defs/Pieces.antt =====
-- native/posix.c, `jf_exec_call`: the body of its poll loop, piece by piece.
use jev_fabric.Base.{
  ℕ, ◌+◌, Bool, true, ◌||◌, Option, none, some, ltb, ◌==◌, if◌then◌else◌, length, drop, take, [],
  ◌∷◌,
}
use jev_fabric.Os.{
  is_eintr, killed, wrote, M, ◌>>=◌, ◌>>◌, pure, perform, get_errno, nothing, close,
}
use jev_fabric.Capture.{Stream, is_fatal, jf_read}
use jev_fabric.Gate.{retire}
use jev_fabric.Exec.Kernel.{Kernel, Ready, observe, under_gate}
use jev_fabric.Os.{ExitStatus}
use jev_fabric.Exec.Run.Defs.Locals.{
  drain_grace, timeout_exit, Run, Next, go, break_with, cleanup_with, is_there, with_code, cut_if,
  log_error_of, is_clear, elapsed, reap_event, nothing_ready,
}

module _ {W : Type 0} (k : Kernel W) where
  -- jf_close
  unfoldable pub close_end : Option ℕ → M W (Unit {0})
  close_end none = pure tt
  close_end (some fd) = close k.os fd

  -- kill(-pid, SIGKILL); its answer is ignored.
  unfoldable pub kill_group : Option ℕ → M W (Unit {0})
  kill_group none = pure tt
  kill_group (some pid) = perform (k.sys_kill pid) (λ _. killed pid ∷ []) >> pure tt

  unfoldable pub cancel : Run → ℕ → M W Next
  cancel r v = kill_group r.pid >> pure (go (record r { cancelled = true; exit_code = 128 + v }))

  -- `jf_interrupt` is read twice: as the test, and for the code.
  unfoldable pub seen_interrupt : Run → ℕ → M W Next
  seen_interrupt r v =
      if v == 0 || r.cancelled then pure (go r) else (observe k k.sys_interrupt >>= cancel r)

  unfoldable pub check_interrupt : Run → M W Next
  check_interrupt r =
      if r.done then pure (go r) else (observe k k.sys_interrupt >>= seen_interrupt r)

  unfoldable pub seen_tick : ℕ → Run → ℕ → M W Next
  seen_tick deadline r now =
      if ltb now deadline || (r.timed_out || r.cancelled)
      then pure (go r)
      else (kill_group r.pid >> pure (go (record r { timed_out = true; exit_code = timeout_exit })))

  unfoldable pub check_deadline : ℕ → Run → M W Next
  check_deadline deadline r =
      if r.done then pure (go r) else (observe k k.sys_tick >>= seen_tick deadline r)

  -- got == pid
  unfoldable pub child_ended : Run → ExitStatus → ℕ → M W Next
  child_ended r status now = do
    kill_group r.pid
    close_end r.in_write
    under_gate k (λ _. some r.slot) (λ g. (retire g r.slot, tt))
    pure (go (record r { done = true; status = status; exited_at = now; in_write = none }))

  unfoldable pub waited : Run → Option (Option ExitStatus) → M W Next
  waited r none = do
    e ← get_errno
    if is_eintr e then pure (go r) else pure (cleanup_with (with_code r e))
  waited r (some none) = pure (go r)
  waited r (some (some status)) = observe k k.sys_tick >>= child_ended r status

  unfoldable pub check_child : ℕ → Run → M W Next
  check_child pid r =
      if r.done then pure (go r) else (perform (k.sys_waitpid pid) (reap_event pid) >>= waited r)

  unfoldable pub drained : Run → ℕ → M W Next
  drained r now =
      if ltb drain_grace (elapsed now r.exited_at)
      then (close_end (r.out).fd
          >> (close_end (r.err).fd
              >> pure (
                  break_with (record r {
                    out = cut_if (is_there (r.out).fd) r.out;
                    err = cut_if (is_there (r.err).fd) r.err;
                  }))))
      else pure (go r)

  unfoldable pub check_grace : Run → M W Next
  check_grace r = if r.done then (observe k k.sys_tick >>= drained r) else pure (go r)

  -- All of the input has been sent.
  unfoldable pub end_input : Run → M W Next
  end_input r =
      if r.sent == length (r.job).input
      then (close_end r.in_write >> pure (go (record r { in_write = none })))
      else pure (go r)

  unfoldable pub read_stream : Stream → Option ℕ → Bool → M W Stream
  read_stream t none ready = pure t
  read_stream t (some fd) ready = if ready then jf_read k.os t fd else pure t

  unfoldable pub fed : Run → Option ℕ → M W Next
  fed r none = do
    e ← get_errno
    if is_fatal e
        then (close_end r.in_write >> pure (go (record r { in_write = none })))
        else pure (go r)
  fed r (some n) = pure (go (record r { sent = r.sent + n }))

  unfoldable pub feed_to : Option ℕ → Run → Bool → M W Next
  feed_to none r ready = pure (go r)
  feed_to (some fd) r ready =
      if ready
      then (perform (k.os.sys_write fd (drop r.sent (r.job).input))
            (λ n. wrote fd (take n (drop r.sent (r.job).input)) ∷ [])
          >>= fed r)
      else pure (go r)

  unfoldable pub check_logs : Run → Bool → M W Next
  check_logs r in_ready =
      let e = log_error_of ((r.out).spool).log_error ((r.err).spool).log_error in
      if is_clear e then feed_to r.in_write r in_ready else pure (cleanup_with (with_code r e))

  unfoldable pub with_err : Run → Bool → Stream → M W Next
  with_err r in_ready t = check_logs (record r { err = t }) in_ready

  unfoldable pub with_out : Run → Ready → Stream → M W Next
  with_out r ready t =
      read_stream r.err (r.err).fd ready.err_ready
      >>= with_err (record r { out = t }) ready.in_ready

  unfoldable pub take_ready : Run → Ready → M W Next
  take_ready r ready = read_stream r.out (r.out).fd ready.out_ready >>= with_out r ready

  unfoldable pub polled : Run → Option Ready → M W Next
  polled r none = do
    e ← get_errno
    if is_eintr e then take_ready r nothing_ready else pure (cleanup_with (with_code r e))
  polled r (some ready) = take_ready r ready

  unfoldable pub poll_once : Run → M W Next
  poll_once r = perform (k.sys_poll (r.out).fd (r.err).fd r.in_write) nothing >>= polled r
