-- ===== src/Exec/Run/Defs/Rounds.antt =====
-- native/posix.c, `jf_exec_call`: the rounds of its poll loop, and its label `cleanup`.
use jev_fabric.Base.{
  ℕ, zero, suc, ◌+◌, Bool, true, false, ◌||◌, Option, [], ◌∷◌, none, some, if◌then◌else◌,
}
use jev_fabric.Os.{is_eintr, gone, reaped, M, ◌>>=◌, ◌>>◌, pure, get_errno, exhausted}
use jev_fabric.Gate.{leave}
use jev_fabric.Exec.Kernel.{Kernel, under_gate, note, block}
use jev_fabric.Os.{ExitStatus}
use jev_fabric.Exec.Run.Defs.Locals.{Run, Next, go, break_with, cleanup_with, code_of, goes_on}
use jev_fabric.Exec.Run.Defs.Pieces.{
  close_end, kill_group, check_interrupt, check_deadline, check_child, check_grace, end_input,
  poll_once,
}

module _ {W : Type 0} (k : Kernel W) where
  -- The pieces one after the other.
  unfoldable pub and_then : (Run → M W Next) → Next → M W Next
  and_then f (go r) = f r
  and_then f (break_with r) = pure (break_with r)
  and_then f (cleanup_with r) = pure (cleanup_with r)

  -- The loop's body, piece by piece.
  unfoldable pub round_to_deadline : ℕ → Run → M W Next
  round_to_deadline deadline r = check_interrupt k r >>= and_then (check_deadline k deadline)

  unfoldable pub round_to_child : ℕ → ℕ → Run → M W Next
  round_to_child pid deadline r = round_to_deadline deadline r >>= and_then (check_child k pid)

  unfoldable pub round_to_grace : ℕ → ℕ → Run → M W Next
  round_to_grace pid deadline r = round_to_child pid deadline r >>= and_then (check_grace k)

  unfoldable pub round_to_input : ℕ → ℕ → Run → M W Next
  round_to_input pid deadline r = round_to_grace pid deadline r >>= and_then (end_input k)

  unfoldable pub round : ℕ → ℕ → Run → M W Next
  round pid deadline r = round_to_input pid deadline r >>= and_then (poll_once k)

  unfoldable pub rounds : ℕ → ℕ → ℕ → Run → M W Next
  rounds zero pid deadline r = exhausted
  rounds (suc fuel) pid deadline r =
      let more = round pid deadline r >>= and_then (rounds fuel pid deadline) in
      if goes_on r then more else pure (break_with r)

  -- while (waitpid(pid, &status, 0) < 0 && errno == EINTR) {}
  unfoldable pub wait_next : M W (Unit {0}) → ℕ → Option ExitStatus → M W (Unit {0})
  wait_next again pid none = do e ← get_errno; if is_eintr e then again else note k (gone pid)
  wait_next again pid (some _) = pure tt

  unfoldable pub wait_rounds : ℕ → ℕ → M W (Unit {0})
  wait_rounds zero pid = exhausted
  wait_rounds (suc fuel) pid =
      block k (k.sys_wait pid) (λ status. reaped pid status ∷ [])
      >>= wait_next (wait_rounds fuel pid) pid

  abbrev pub interrupts_left : M W ℕ
  interrupts_left s = some (k.os.interrupts s.world, s)

  -- pid > 0 && !done
  unfoldable pub reap_child : Option ℕ → Bool → M W (Unit {0})
  reap_child none done = pure tt
  reap_child (some pid) true = pure tt
  reap_child (some pid) false = do
    kill_group k (some pid)
    n ← interrupts_left
    wait_rounds (n + 1) pid

  unfoldable pub close_ends : Run → M W (Unit {0})
  close_ends r = do
    close_end k r.in_read
    close_end k r.in_write
    close_end k (r.out).fd
    close_end k r.out_write
    close_end k (r.err).fd
    close_end k r.err_write

  unfoldable pub leave_gate : ℕ → M W (Unit {0})
  leave_gate slot = under_gate k (λ _. some slot) (λ g. (leave g slot, tt))

  -- From the label `cleanup` on.
  unfoldable pub cleanup : Run → M W Run
  cleanup r = do reap_child r.pid r.done; close_ends r; leave_gate r.slot; pure r

  -- The exit code, where the loop was left by its test or by `break`.
  unfoldable pub conclude : Next → M W Run
  conclude (go r) = cleanup r
  conclude (cleanup_with r) = cleanup r
  conclude (break_with r) =
      cleanup (if r.timed_out || r.cancelled then r else record r { exit_code = code_of r.status })
