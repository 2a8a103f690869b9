-- ===== src/Exec/Run/Verdict.antt =====
-- native/posix.c, `jf_exec_call`: what the poll loop leaves in the report.
use jev_fabric.Base.{
  ℕ, ◌+◌, ◌≤◌, ◌≡◌, ◌≢◌, refl, ◌∙◌, sym, ap, Bool, true, false, ◌||◌, ◌==◌, ltb, List, Option, none,
  some, arith, length, drop, take, [], ◌∷◌,
}
use jev_fabric.Os.{clear, is_eintr, wrote, fail, St, M, ◌>>=◌, pure, perform, nothing}
use jev_fabric.Capture.{is_fatal}
use jev_fabric.Exec.Kernel.{Kernel, Setup}
use jev_fabric.Os.{ExitStatus, exited, signaled}
use jev_fabric.Exec.Run.Defs.{
  Run, Next, go, break_with, cleanup_with, with_code, is_there, is_clear, log_error_of, drain_grace,
  elapsed, timeout_exit, reap_event, close_end, kill_group, cancel, seen_interrupt, check_interrupt,
  seen_tick, check_deadline, child_ended, waited, check_child, drained, check_grace, end_input,
  read_stream, fed, feed_to, check_logs, with_err, with_out, take_ready, nothing_ready, polled,
  poll_once, and_then,
}
use jev_fabric.Exec.Run.Yields.{Yields, Yields-bind, Yields-then, Yields-call, Yields-if}

-- A call that fails gives a nonzero error number.
pub record SetsErrno {W : Type 0} (k : Kernel W) : Type 0 where
  pub pipe_errno : (w : W) → (k.os.sys_pipe w).0 ≡ fail clear → ⊥
  pub cloexec_errno : (fd : ℕ) (w : W) → (k.os.sys_cloexec fd w).0 ≡ fail clear → ⊥
  pub setup_errno : (step : Setup) (w : W) → (k.sys_setup step w).0 ≡ fail clear → ⊥
  pub spawn_errno : (argv : List (List ℕ)) (w : W) → (k.sys_spawnp argv w).0 ≡ fail clear → ⊥
  pub nonblock_errno : (fd : ℕ) (w : W) → (k.sys_nonblock fd w).0 ≡ fail clear → ⊥
  pub wait_errno : (pid : ℕ) (w : W) → (k.sys_waitpid pid w).0 ≡ fail clear → ⊥
  pub poll_errno : (a b c : Option ℕ) (w : W) → (k.sys_poll a b c w).0 ≡ fail clear → ⊥

-- The exit code while the loop runs: set where the job was cancelled, or timed out.
abbrev pub Told : Bool → Bool → ℕ → Type 0
Told true timed_out code = 128 ≤ code
Told false true code = code ≡ timeout_exit
Told false false code = Unit

abbrev pub IsTold : Run → Type 0
IsTold r = Told r.cancelled r.timed_out r.exit_code

-- It is in the loop, with a child.
abbrev pub IsWatched : Run → Type 0
IsWatched r = IsTold r × (is_there r.pid ≡ true)

-- The exit code of a report: 128 or more where the job was cancelled, 124 where it timed out, and
-- else what the child's status says: its exit code, or 128 and the signal that ended it.
abbrev pub Exit : Bool → Bool → ExitStatus → ℕ → Type 0
Exit true timed_out status code = 128 ≤ code
Exit false true status code = code ≡ 124
Exit false false (exited n) code = code ≡ n
Exit false false (signaled n) code = code ≡ 128 + n

-- The child was reaped, and both streams are at their end or were cut.
abbrev pub Ended : Run → Type 0
Ended r = (r.done ≡ true) × (is_there r.pid ≡ true) × ((r.out).fd ≡ none) × ((r.err).fd ≡ none)

abbrev pub Reported : Run → Type 0
Reported r = r.code ≡ clear → Ended r × Exit r.cancelled r.timed_out r.status r.exit_code

-- After a piece of the loop.
abbrev pub Going : Next → Type 0
Going (go r) = IsWatched r
Going (break_with r) = IsWatched r × Ended r
Going (cleanup_with r) = r.code ≢ clear

-- After the loop.
abbrev pub Over : Next → Type 0
Over (go r) = ⊥
Over nx = Going nx

module _ {W : Type 0} (k : Kernel W) (sets : SetsErrno k) where
  abbrev pub Goes : Option (Next × St W) → Type 0
  Goes m = Yields m (λ nx _. Going nx)

  -- One piece after another.
  pub piece-Goes :
      (m : M W Next) (f : Run → M W Next) (s : St W)
      → Goes (m s)
      → ((r : Run) (t : St W) → IsWatched r → Goes (f r t))
      → Goes ((m >>= and_then k f) s)
  unfolding and_then
  piece-Goes m f s o step =
      Yields-bind m (and_then k f) s (λ nx _. Going nx) _ o
        (elim [ go r ↦ λ t p. step r t p | break_with r ↦ λ t p. p | cleanup_with r ↦ λ t p. p ])

  pub check_interrupt-Goes : (r : Run) (s : St W) → IsWatched r → Goes (check_interrupt k r s)
  unfolding check_interrupt seen_interrupt cancel
  check_interrupt-Goes r s p =
      Yields-if r.done (pure (go r)) _ s _ (λ _. p)
        (λ _.
          Yields-if ((k.sys_interrupt s.world).0 == 0 || r.cancelled) (pure (go r)) _ _ _ (λ _. p)
            (λ _. Yields-then (kill_group k r.pid) _ _ _ (λ _ _. (omega arith, p.1))))

  pub check_deadline-Goes :
      (deadline : ℕ) (r : Run) (s : St W) → IsWatched r → Goes (check_deadline k deadline r s)
  unfolding check_deadline seen_tick
  check_deadline-Goes deadline r s p =
      Yields-if r.done (pure (go r)) _ s _ (λ _. p)
        (λ _.
          Yields-if (ltb (k.sys_tick s.world).0 deadline || (r.timed_out || r.cancelled))
            (pure (go r)) _ _ _ (λ _. p)
            (λ e. Yields-then (kill_group k r.pid) _ _ _ (λ _ _.
              let uncancelled : r.cancelled ≡ false = ground (arith, e) in
              (rw uncancelled refl, p.1))))

  pub check_child-Goes : (pid : ℕ) (r : Run) (s : St W) → IsWatched r → Goes (check_child k pid r s)
  unfolding check_child waited child_ended
  check_child-Goes pid r s p =
      Yields-if r.done (pure (go r)) _ s _ (λ _. p)
        (λ _.
          Yields-call (k.sys_waitpid pid) (reap_event pid) (waited k r) s _
            (elim [
              | none ↦ λ _. p
              | some status ↦ λ t.
                  Yields-then (kill_group k r.pid) _ _ _
                    (λ _ u. Yields-then (close_end k r.in_write) _ u _ (λ _ _. p))
            ])
            (λ e t failed set.
              Yields-if (is_eintr t.errno) (pure (go r)) (pure (cleanup_with (with_code r t.errno)))
                t _ (λ _. p)
                (λ _ bad. sets.wait_errno pid s.world (failed ∙ ap fail (sym set ∙ bad)))))

  pub check_grace-Goes : (r : Run) (s : St W) → IsWatched r → Goes (check_grace k r s)
  unfolding check_grace drained
  check_grace-Goes r s p =
      Yields-if r.done _ (pure (go r)) s _
        (λ h.
          Yields-if (ltb drain_grace (elapsed (k.sys_tick s.world).0 r.exited_at)) _ (pure (go r)) _
            _
            (λ _. Yields-then (close_end k (r.out).fd) _ _ _ (λ _ u.
              Yields-then (close_end k (r.err).fd) _ u _ (λ _ _. (p, (h, p.1, refl, refl)))))
            (λ _. p))
        (λ _. p)

  pub end_input-Goes : (r : Run) (s : St W) → IsWatched r → Goes (end_input k r s)
  unfolding end_input
  end_input-Goes r s p =
      Yields-if (r.sent == length (r.job).input) _ (pure (go r)) s _
        (λ _. Yields-then (close_end k r.in_write) _ s _ (λ _ _. p)) (λ _. p)

  fed-Goes : (r : Run) (put : Option ℕ) (s : St W) → IsWatched r → Goes (fed k r put s)
  unfolding fed
  fed-Goes r (some n) s p = p
  fed-Goes r none s p =
      Yields-if (is_fatal s.errno) _ (pure (go r)) s _
        (λ _. Yields-then (close_end k r.in_write) _ s _ (λ _ _. p)) (λ _. p)

  feed_to-Goes :
      (end : Option ℕ) (r : Run) (ready : Bool) (s : St W)
      → IsWatched r
      → Goes (feed_to k end r ready s)
  unfolding feed_to
  feed_to-Goes none r ready s p = p
  feed_to-Goes (some fd) r ready s p =
      Yields-if ready
        (perform (k.os.sys_write fd (drop r.sent (r.job).input))
            (λ n. wrote fd (take n (drop r.sent (r.job).input)) ∷ [])
          >>= fed k r)
        (pure (go r)) s _
        (λ _.
          Yields-then
            (perform (k.os.sys_write fd (drop r.sent (r.job).input))
              (λ n. wrote fd (take n (drop r.sent (r.job).input)) ∷ []))
            (fed k r) s _ (λ put t. fed-Goes r put t p))
        (λ _. p)

  check_logs-Goes :
      (r : Run) (ready : Bool) (s : St W) → IsWatched r → Goes (check_logs k r ready s)
  unfolding check_logs
  check_logs-Goes r ready s p =
      let e = log_error_of ((r.out).spool).log_error ((r.err).spool).log_error in
      Yields-if (is_clear e) (feed_to k r.in_write r ready) (pure (cleanup_with (with_code r e))) s
        _ (λ _. feed_to-Goes r.in_write r ready s p)
        (λ bad same. let clash : is_clear e ≡ true = ap is_clear same in cc)

  take_ready-Goes :
      (r : Run) (s : St W) (out_ready err_ready in_ready : Bool)
      → IsWatched r
      → Goes (
          take_ready k r
            (record { out_ready = out_ready; err_ready = err_ready; in_ready = in_ready })
            s)
  unfolding take_ready with_out with_err
  take_ready-Goes r s out_ready err_ready in_ready p =
      Yields-then (read_stream k r.out (r.out).fd out_ready) _ s _ (λ t u.
        Yields-then (read_stream k r.err (r.err).fd err_ready) _ u _
          (λ t' v. check_logs-Goes (record r { out = t; err = t' }) in_ready v p))

  pub poll_once-Goes : (r : Run) (s : St W) → IsWatched r → Goes (poll_once k r s)
  unfolding poll_once polled
  poll_once-Goes r s p =
      Yields-call (k.sys_poll (r.out).fd (r.err).fd r.in_write) nothing (polled k r) s _
        (λ ready t. take_ready-Goes r t ready.out_ready ready.err_ready ready.in_ready p)
        (λ e t failed set.
          Yields-if (is_eintr t.errno) (take_ready k r nothing_ready)
            (pure (cleanup_with (with_code r t.errno))) t _
            (λ _. take_ready-Goes r t false false false p)
            (λ _ bad.
              sets.poll_errno (r.out).fd (r.err).fd r.in_write s.world
                (failed ∙ ap fail (sym set ∙ bad))))
