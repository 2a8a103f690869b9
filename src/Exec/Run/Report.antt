-- ===== src/Exec/Run/Report.antt =====
-- native/posix.c, `jf_exec_call`: what the report says when the call returns.
use jev_fabric.Base.{
  ℕ, ◌+◌, ◌*◌, ◌%◌, ◌^◌, ◌<◌, ◌≡◌, ◌≢◌, ◌∙◌, refl, Bool, true, false, sym, ap, Bool-cases, inl, inr,
  ◌==◌, List, [], ◌∷◌, Option, none, some, arith, if◌then◌else◌, length,
}
use jev_fabric.Os.{
  clear, eintr, ecanceled, Ret, ok, fail, ExitStatus, St, M, ◌>>=◌, nothing, Returns,
  Returns-weaken, close,
}
use jev_fabric.Pipe.{jf_pipe, seal_both, cloexec}
use jev_fabric.Gate.{Gate, launch_child}
use jev_fabric.Exec.Defs.{Job, Handle, absent, negative, open_at}
use jev_fabric.Exec.Kernel.{Child, ended, children, Kernel, IsLive, Setup, observe}
use jev_fabric.Exec.Run.Defs.{
  Run, with_code, is_there, ns_per_ms, drain_grace, close_end, rounds, conclude, cleanup,
}
use jev_fabric.Exec.Run.Begin.{
  fresh_run, Called, turned_away, ran, fail_errno, watch, err_nonblocking, set_nonblock,
  out_nonblocking, in_nonblocking, after_spawn, spawn_answered, publish_child, spawn_at,
  spawn_child, set_up_next, set_up, err_piped, out_piped, open_outputs, in_piped, take_stdin,
  unless_interrupted, run_over, registered, jf_exec_call,
}
use jev_fabric.Exec.Run.Yields.{
  Yields, Yields-Returns, Yields-bind, Yields-then, Yields-call, Yields-if,
}
use jev_fabric.Exec.Run.Verdict.{SetsErrno, IsTold, IsWatched, Exit, Reported, Over}
use jev_fabric.Exec.Run.Conclusion.{rounds-Over, conclude-Reported, cleanup-Reported}
use jev_fabric.Exec.Run.Call.{Counted, With, Finished, jf_exec_call-Left}
use jev_fabric.Exec.Run.Cleanup.{Past}

-- A job that was turned away says nothing more.
abbrev IsConcluded : Called → Type 0
IsConcluded (turned_away job) = Unit
IsConcluded (ran r) = Reported r

-- A job that ran without an error, over `a` other children: the log has its child reaped, with this
-- status, both streams are closed, and the exit code is the one for that status.
abbrev pub IsReported : {W : Type 0} → List Child → Called → St W → Type 0
IsReported a (turned_away job) t = Unit
IsReported a (ran r) t =
    r.code ≡ clear
    → (pid : ℕ) × (status : ExitStatus) × (children t.log ≡ some (ended pid status ∷ a))
      × ((r.out).fd ≡ none)
      × ((r.err).fd ≡ none)
      × Exit r.cancelled r.timed_out status r.exit_code

-- The child that the loop has reaped is the one of the log.
Past-ended :
    (target : Option ℕ) (done : Bool) (status : ExitStatus) (a f : List Child)
    → done ≡ true
    → is_there target ≡ true
    → Past a target done status f
    → (pid : ℕ) × (f ≡ ended pid status ∷ a)
Past-ended none done status a f e there p = cc
Past-ended (some pid) true status a f e there p = (pid, p)
Past-ended (some pid) false status a f e there p = cc

module _ {W : Type 0} (k : Kernel W) (patience : ℕ) (sets : SetsErrno k) where
  abbrev Reports : Option (Run × St W) → Type 0
  Reports m = Yields m (λ r _. Reported r)

  fail_errno-Reports : (r : Run) (s : St W) → s.errno ≢ clear → Reports (fail_errno k patience r s)
  unfolding fail_errno
  fail_errno-Reports r s e = cleanup-Reported k sets (with_code r s.errno) s (λ p. absurd (e p))

  watch-Reports :
      (pid : ℕ) (r : Run) (now : ℕ) (s : St W)
      → IsWatched r
      → Reports (watch k patience pid r now s)
  unfolding watch
  watch-Reports pid r now s p =
      Yields-bind
        (rounds k ((r.job).timeout * ns_per_ms + patience + drain_grace + 7) pid
          ((now + (r.job).timeout * ns_per_ms) % 2 ^ 64) r)
        (conclude k) s (λ nx _. Over nx) _ (rounds-Over k sets _ pid _ r s p)
        (conclude-Reported k sets)

  -- fcntl on an end, and what follows.
  set_nonblock-Reports :
      (end : Option ℕ) (next : Run → Option (Unit {0}) → M W Run) (r : Run) (s : St W)
      → ((t : St W) → Reports (next r (some tt) t))
      → ((t : St W) → t.errno ≢ clear → Reports (next r none t))
      → Reports ((set_nonblock k patience end >>= next r) s)
  set_nonblock-Reports none next r s good bad = good s
  set_nonblock-Reports (some fd) next r s good bad =
      Yields-call (k.sys_nonblock fd) nothing (next r) s _ (λ _ t. good t)
        (λ e t failed set.
          bad t (λ c. sets.nonblock_errno fd s.world (failed ∙ ap fail (sym set ∙ c))))

  after_spawn-Reports :
      (pid : ℕ) (r : Run) (s : St W) → IsWatched r → Reports (after_spawn k patience pid r s)
  unfolding after_spawn in_nonblocking out_nonblocking err_nonblocking
  after_spawn-Reports pid r s p =
      let parent : Run = record r { in_read = none; out_write = none; err_write = none } in
      Yields-then (close_end k r.in_read) _ s _ (λ _ s1.
        Yields-then (close_end k r.out_write) _ s1 _ (λ _ s2.
          Yields-then (close_end k r.err_write) _ s2 _ (λ _ s3.
            set_nonblock-Reports r.in_write (in_nonblocking k patience pid) parent s3
              (λ t.
                set_nonblock-Reports (r.out).fd (out_nonblocking k patience pid) parent t
                  (λ u.
                    set_nonblock-Reports (r.err).fd (err_nonblocking k patience pid) parent u
                      (λ v. watch-Reports pid parent _ _ p) (fail_errno-Reports parent))
                  (fail_errno-Reports parent))
              (fail_errno-Reports parent))))

  publish_child-Reports :
      (r : Run) (g : Gate) (answer : Ret ℕ) (s : St W)
      → IsTold r
      → answer ≢ fail clear
      → Reports (publish_child k patience r g answer s)
  unfolding publish_child spawn_answered launch_child
  publish_child-Reports r g (ok pid) s p good = after_spawn-Reports pid _ _ (p, refl)
  publish_child-Reports r g (fail e) s p good = cleanup-Reported k sets _ _ (λ c.
      absurd (elim (Bool-cases g.shutdown) [
        | inl shut ↦ ground (arith, c, shut)
        | inr up ↦ let same : e ≡ clear = ground (arith, c, up) in good (ap fail same)
      ]))

  spawn_child-Reports : (r : Run) (s : St W) → IsTold r → Reports (spawn_child k patience r s)
  unfolding spawn_child spawn_at
  spawn_child-Reports r s p =
      Yields-if (k.gate s.world).shutdown
        (publish_child k patience r (k.gate s.world) (fail ecanceled)) _ s _
        (λ _. publish_child-Reports r (k.gate s.world) (fail ecanceled) s p (λ e. cc))
        (λ _.
          publish_child-Reports r (k.gate s.world) _ _ p (sets.spawn_errno (r.job).argv s.world))

  set_up-Reports :
      (steps : List Setup) (r : Run) (s : St W) → IsTold r → Reports (set_up k patience steps r s)
  unfolding set_up
  set_up-Reports [] r s p = spawn_child-Reports r s p
  set_up-Reports (step ∷ steps) r s p =
      Yields-call (k.sys_setup step) nothing (set_up_next k patience (set_up k patience steps) r) s
        _ (λ _ t. set_up-Reports steps r t p)
        (λ e t failed set.
          fail_errno-Reports r t
            (λ c. sets.setup_errno step s.world (failed ∙ ap fail (sym set ∙ c))))

  -- `jf_pipe` answers -1 with errno set.
  abbrev Made : Option (ℕ × ℕ) → St W → Type 0
  Made none t = t.errno ≢ clear
  Made (some ends) t = Unit

  jf_pipe-Made : (s : St W) → Yields (jf_pipe k.os s) Made
  unfolding jf_pipe seal_both cloexec close
  jf_pipe-Made s = grind (arith, sets.pipe_errno, sets.cloexec_errno)

  pipe-Reports :
      (next : Run → Option (ℕ × ℕ) → M W Run) (r : Run) (s : St W)
      → ((ends : ℕ × ℕ) (t : St W) → Reports (next r (some ends) t))
      → ((t : St W) → t.errno ≢ clear → Reports (next r none t))
      → Reports ((jf_pipe k.os >>= next r) s)
  pipe-Reports next r s good bad =
      Yields-bind (jf_pipe k.os) (next r) s Made _ (jf_pipe-Made s)
        (elim [ none ↦ λ t e. bad t e | some ends ↦ λ t _. good ends t ])

  open_outputs-Reports : (r : Run) (s : St W) → IsTold r → Reports (open_outputs k patience r s)
  unfolding open_outputs out_piped err_piped
  open_outputs-Reports r s p =
      pipe-Reports (out_piped k patience) r s
        (λ ends t.
          pipe-Reports (err_piped k patience) _ t (λ ends' u. set_up-Reports _ _ u p)
            (fail_errno-Reports _))
        (fail_errno-Reports r)

  own_input-Reports :
      (r : Run) (s : St W)
      → IsTold r
      → Reports (
          (if (r.job).inherit_stdin
              then open_outputs k patience r
              else (jf_pipe k.os >>= in_piped k patience r))
            s)
  unfolding in_piped
  own_input-Reports r s p =
      Yields-if (r.job).inherit_stdin (open_outputs k patience r)
        (jf_pipe k.os >>= in_piped k patience r) s _ (λ _. open_outputs-Reports r s p)
        (λ _.
          pipe-Reports (in_piped k patience) r s (λ ends t. open_outputs-Reports _ t p)
            (fail_errno-Reports r))

  take_stdin-Reports :
      (h : Handle) (r : Run) (s : St W) → IsTold r → Reports (take_stdin k patience h r s)
  unfolding take_stdin
  take_stdin-Reports (open_at fd) r s p = open_outputs-Reports _ s p
  take_stdin-Reports absent r s p = own_input-Reports r s p
  take_stdin-Reports negative r s p = own_input-Reports r s p

  registered-Reported :
      (job : Job) (out_buffer err_buffer : List ℕ) (answer : Option (Option ℕ)) (s : St W)
      → Yields (registered k patience job out_buffer err_buffer answer s) (λ c _. IsConcluded c)
  unfolding registered unless_interrupted
  registered-Reported job out_buffer err_buffer none s = tt
  registered-Reported job out_buffer err_buffer (some none) s = tt
  registered-Reported job out_buffer err_buffer (some (some slot)) s =
      let first = fresh_run job out_buffer err_buffer slot in
      Yields-bind (observe k k.sys_interrupt >>= unless_interrupted k patience first)
        (run_over k patience) s (λ r _. Reported r) (λ c _. IsConcluded c)
        (Yields-if ((k.sys_interrupt s.world).0 == 0) (take_stdin k patience job.stdin_fd first)
          (cleanup k (with_code first eintr)) _ (λ r _. Reported r)
          (λ _. take_stdin-Reports job.stdin_fd first _ tt)
          (λ _. cleanup-Reported k sets (with_code first eintr) _ (λ e. cc)))
        (λ r t x. x)

  -- The report of a call that returned is about the child that its log has reaped.
  concluded :
      (live : IsLive k patience) (b : ℕ → ℕ) (a : List Child) (g : List ℕ) (c : Called) (t : St W)
      → IsConcluded c
      → Finished k patience live b a g c t
      → IsReported a c t
  concluded live b a g (turned_away job) t p v = tt
  concluded live b a g (ran r) t p (f, past, v) = λ clean.
      let ((done, there, out, err), exit) = p clean in
      let (pid, e) = Past-ended r.pid r.done r.status a f done there past in
      (pid, r.status, v.parent ∙ ap some e, out, err, exit)

  -- On a live kernel whose failing calls set errno, with buffers of the job's limit, which is below
  -- 2 ^ 32, and a table that counts its jobs, `jf_exec_call` returns; its thread has the descriptors
  -- and slots that it had before, but for a standard input reader that it took from the job and
  -- closed, and of a child that it launched none is left but one that
  -- was reaped or that waitpid did not know. A job that ran and is reported without an
  -- error is one whose child was reaped, once, with the status that waitpid gave, and whose output
  -- streams are both closed. Its exit code is 128 or more where the job was cancelled, 124 where it
  -- only timed out, and else the code that the child exited with, or 128 and the signal that ended
  -- it.
  pub jf_exec_call-Reported :
      (live : IsLive k patience) (b : ℕ → ℕ) (a : List Child) (g : List ℕ) (job : Job)
      (out_buffer err_buffer : List ℕ) (limit : job.limit < 2 ^ 32)
      (out_room : length out_buffer ≡ job.limit) (err_room : length err_buffer ≡ job.limit)
      (s : St W)
      → Counted (k.gate s.world)
      → With job b a g s
      → Returns
          (jf_exec_call k patience job out_buffer err_buffer s)
          (λ c t. IsReported a c t × Finished k patience live b a g c t)
  unfolding jf_exec_call
  jf_exec_call-Reported live b a g job out_buffer err_buffer limit out_room err_room s counted v =
      Returns-weaken (jf_exec_call k patience job out_buffer err_buffer s)
        (λ c t. IsConcluded c × Finished k patience live b a g c t) _
        (Yields-Returns (jf_exec_call k patience job out_buffer err_buffer s) (λ c _. IsConcluded c)
          (Finished k patience live b a g) (registered-Reported job out_buffer err_buffer _ _)
          (jf_exec_call-Left k patience live b a g job out_buffer err_buffer limit out_room err_room
            s counted v))
        (λ c t x. (concluded live b a g c t x.0 x.1, x.1))
