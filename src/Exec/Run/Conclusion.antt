-- ===== src/Exec/Run/Conclusion.antt =====
-- native/posix.c, `jf_exec_call`: what stands in the report once the poll loop is over.
use jev_fabric.Base.{
  ℕ, ◌≡◌, refl, Bool, true, false, ◌||◌, Option, none, some, arith, if◌then◌else◌, zero, suc,
}
use jev_fabric.Os.{St, pure}
use jev_fabric.Exec.Kernel.{Kernel}
use jev_fabric.Os.{ExitStatus, exited, signaled}
use jev_fabric.Exec.Run.Defs.{
  Run, Next, go, break_with, cleanup_with, is_there, code_of, goes_on, check_interrupt,
  check_deadline, check_child, check_grace, end_input, poll_once, and_then, round_to_deadline,
  round_to_child, round_to_grace, round_to_input, round, rounds, reap_child, close_ends, leave_gate,
  cleanup, conclude,
}
use jev_fabric.Exec.Run.Yields.{Yields, Yields-bind, Yields-then, Yields-if}
use jev_fabric.Exec.Run.Verdict.{
  SetsErrno, Told, IsWatched, Exit, Ended, Reported, Going, Over, Goes, piece-Goes,
  check_interrupt-Goes, check_deadline-Goes, check_child-Goes, check_grace-Goes, end_input-Goes,
  poll_once-Goes,
}

module _ {W : Type 0} (k : Kernel W) (sets : SetsErrno k) where
  round-Goes :
      (pid deadline : ℕ) (r : Run) (s : St W) → IsWatched r → Goes k sets (round k pid deadline r s)
  unfolding round round_to_input round_to_grace round_to_child round_to_deadline
  round-Goes pid deadline r s p =
      piece-Goes k sets (round_to_input k pid deadline r) (poll_once k) s
        (piece-Goes k sets (round_to_grace k pid deadline r) (end_input k) s
          (piece-Goes k sets (round_to_child k pid deadline r) (check_grace k) s
            (piece-Goes k sets (round_to_deadline k deadline r) (check_child k pid) s
              (piece-Goes k sets (check_interrupt k r) (check_deadline k deadline) s
                (check_interrupt-Goes k sets r s p) (check_deadline-Goes k sets deadline))
              (check_child-Goes k sets pid))
            (check_grace-Goes k sets))
          (end_input-Goes k sets))
        (poll_once-Goes k sets)

  none-there : (end : Option ℕ) → is_there end ≡ false → end ≡ none
  none-there none e = refl
  none-there (some fd) e = cc

  goes_on-Ended : (r : Run) → is_there r.pid ≡ true → goes_on r ≡ false → Ended r
  goes_on-Ended r there e = (
    ground (arith, e),
    there,
    none-there (r.out).fd (ground (arith, e)),
    none-there (r.err).fd (ground (arith, e)),
  )

  pub rounds-Over :
      (fuel pid deadline : ℕ) (r : Run) (s : St W)
      → IsWatched r
      → Yields (rounds k fuel pid deadline r s) (λ nx _. Over nx)
  unfolding rounds and_then
  rounds-Over zero pid deadline r s p = tt
  rounds-Over (suc fuel) pid deadline r s p =
      Yields-if (goes_on r) _ (pure (break_with r)) s _
        (λ _.
          Yields-bind (round k pid deadline r) (and_then k (rounds k fuel pid deadline)) s
            (λ nx _. Going nx) _ (round-Goes pid deadline r s p)
            (elim [
              | go x ↦ λ t q. rounds-Over fuel pid deadline x t q
              | break_with x ↦ λ t q. q
              | cleanup_with x ↦ λ t q. q
            ]))
        (λ e. (p, goes_on-Ended r p.1 e))

  -- `cleanup` writes nothing in the report.
  pub cleanup-Reported :
      (r : Run) (s : St W) → Reported r → Yields (cleanup k r s) (λ x _. Reported x)
  unfolding cleanup
  cleanup-Reported r s p = Yields-then (reap_child k r.pid r.done) _ s _ (λ _ t.
      Yields-then (close_ends k r) _ t _
        (λ _ u. Yields-then (leave_gate k r.slot) _ u _ (λ _ _. p)))

  Exit-flagged :
      (cancelled timed_out : Bool) (status : ExitStatus) (code : ℕ)
      → (timed_out || cancelled) ≡ true
      → Told cancelled timed_out code
      → Exit cancelled timed_out status code
  Exit-flagged true timed_out status code e p = p
  Exit-flagged false true status code e p = p
  Exit-flagged false false status code e p = cc

  Exit-free :
      (cancelled timed_out : Bool) (status : ExitStatus)
      → (timed_out || cancelled) ≡ false
      → Exit cancelled timed_out status (code_of status)
  Exit-free false false (exited n) e = refl
  Exit-free false false (signaled n) e = refl
  Exit-free false true status e = cc
  Exit-free true false status e = cc
  Exit-free true true status e = cc

  with_exit :
      (flagged : Bool) (r : Run)
      → (r.timed_out || r.cancelled) ≡ flagged
      → IsWatched r
      → Ended r
      → Reported (if flagged then r else record r { exit_code = code_of r.status })
  with_exit true r e p x = λ _. (x, Exit-flagged r.cancelled r.timed_out r.status r.exit_code e p.0)
  with_exit false r e p x = λ _. (x, Exit-free r.cancelled r.timed_out r.status e)

  pub conclude-Reported :
      (nx : Next) (s : St W) → Over nx → Yields (conclude k nx s) (λ x _. Reported x)
  unfolding conclude
  conclude-Reported (go r) s p = absurd p
  conclude-Reported (cleanup_with r) s p = cleanup-Reported r s (λ e. absurd (p e))
  conclude-Reported (break_with r) s (p, x) =
      cleanup-Reported _ s (with_exit (r.timed_out || r.cancelled) r refl p x)
