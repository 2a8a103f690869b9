-- ===== src/Exec/Run/Cleanup.antt =====
-- native/posix.c, `jf_exec_call` from its label `cleanup` on: nothing is left behind.
use jev_fabric.Base.{
  ℕ, ◌+◌, ◌≡◌, ◌⊎◌, refl, Bool, true, false, ◌||◌, List, ◌∷◌, Option, none, some, arith,
  if◌then◌else◌,
}
use jev_fabric.Os.{ExitStatus, St, Returns, Returns-bind, Returns-weaken}
use jev_fabric.Exec.Kernel.{
  Child, alive, ended, slot-left, Kernel, IsLive, Later-refl, Holds-same, one,
}
use jev_fabric.Exec.Run.Defs.{
  Run, Next, go, break_with, cleanup_with, code_of, close_end, kill_group, reap_child, close_ends,
  leave_gate, cleanup, conclude,
}
use jev_fabric.Exec.Run.Begin.{file_of}
use jev_fabric.Exec.Run.State.{Sound, Sound-same, SoundRun, child, owned, After}
use jev_fabric.Exec.Run.Calls.{Sounds, close_end-Sounds, Struck, kill_group-Struck}
use jev_fabric.Exec.Run.Loop.{wait_rounds-Waited}

-- What became of a run's child, over `a` other children: it was reaped in the loop, with the status
-- kept there; or it was reaped in the end, or waitpid knew none.
abbrev pub Past : List Child → Option ℕ → Bool → ExitStatus → List Child → Type 0
Past a none done status f = f ≡ a
Past a (some pid) true status f = f ≡ ended pid status ∷ a
Past a (some pid) false status f = (f ≡ a) ⊎ ((last : ExitStatus) × (f ≡ ended pid last ∷ a))

module _ {W : Type 0} (k : Kernel W) (patience : ℕ) (live : IsLive k patience) (b : ℕ → ℕ)
    (a : List Child) (g : List ℕ) where
  -- The thread has what it had at first, but for a standard input reader that the job still has,
  -- and for a child that has ended.
  abbrev pub Left : Run → St W → Type 0
  Left r t =
      (f : List Child) × Past a r.pid r.done r.status f
      × Sound (λ x. one (file_of (r.job).stdin_fd) x + b x) f g t.log

  reap_child-Past :
      (target : Option ℕ) (done : Bool) (status : ExitStatus) (often : ℕ → ℕ) (slots : List ℕ)
      (s : St W)
      → Sound often (child target done status a) slots s.log
      → Returns
          (reap_child k target done s)
          (λ _ t. (f : List Child) × Past a target done status f × Sound often f slots t.log)
  unfolding reap_child
  reap_child-Past none done status often slots s v = (a, refl, v)
  reap_child-Past (some pid) true status often slots s v = (ended pid status ∷ a, refl, v)
  reap_child-Past (some pid) false status often slots s v =
      Returns-bind (kill_group k (some pid)) _ s (Struck k patience live pid s)
        (λ _ t. (f : List Child) × Past a (some pid) false status f × Sound often f slots t.log)
        (kill_group-Struck k patience live (some pid) pid s refl)
        (λ _ t x.
          wait_rounds-Waited k patience live b a g (k.os.interrupts t.world + 1) pid x.1.0 often
            slots t (omega arith) x.1.1
            (Sound-same often (alive pid ∷ a) slots s.log t.log x.0.0 v))

  -- What is left to close, end by end.
  module _ (r : Run) (f : List Child) where
    abbrev last : ℕ → ℕ
    last x = one (file_of (r.job).stdin_fd) x + b x

    abbrev from_err_write : ℕ → ℕ
    from_err_write x = one r.err_write x + last x

    abbrev from_err : ℕ → ℕ
    from_err x = one ((r.err).fd) x + from_err_write x

    abbrev from_out_write : ℕ → ℕ
    from_out_write x = one r.out_write x + from_err x

    abbrev from_out : ℕ → ℕ
    from_out x = one ((r.out).fd) x + from_out_write x

    abbrev from_in_write : ℕ → ℕ
    from_in_write x = one r.in_write x + from_out x

    close-Sound :
        (end : Option ℕ) (rest : ℕ → ℕ) (slots : List ℕ) (s : St W)
        → Sound (λ x. one end x + rest x) f slots s.log
        → Returns (close_end k end s) (λ _ t. Sound rest f slots t.log)
    close-Sound end rest slots s v =
        Returns-weaken (close_end k end s) (λ _ t. Sounds k patience live rest f slots s.world t) _
          (close_end-Sounds k patience live end (λ x. one end x + rest x) rest f slots s.world s
            (λ x. refl) (v, Later-refl k s.world))
          (λ _ t x. x.0)

    close_ends-Sound :
        (slots : List ℕ) (s : St W)
        → Sound (λ x. owned r x + b x) f slots s.log
        → Returns (close_ends k r s) (λ _ t. Sound last f slots t.log)
    unfolding close_ends
    close_ends-Sound slots s v =
        Returns-bind (close_end k r.in_read) _ s (λ _ t. Sound from_in_write f slots t.log) _
          (close-Sound r.in_read from_in_write slots s (record {
            ends =
                Holds-same s.log (λ x. owned r x + b x) (λ x. one r.in_read x + from_in_write x)
                  v.ends (λ x. omega arith);
            parent = v.parent;
            place = v.place;
          }))
          (λ _ s1 v1.
            Returns-bind (close_end k r.in_write) _ s1 (λ _ t. Sound from_out f slots t.log) _
              (close-Sound r.in_write from_out slots s1 v1)
              (λ _ s2 v2.
                Returns-bind (close_end k (r.out).fd) _ s2
                  (λ _ t. Sound from_out_write f slots t.log) _
                  (close-Sound (r.out).fd from_out_write slots s2 v2)
                  (λ _ s3 v3.
                    Returns-bind (close_end k r.out_write) _ s3
                      (λ _ t. Sound from_err f slots t.log) _
                      (close-Sound r.out_write from_err slots s3 v3)
                      (λ _ s4 v4.
                        Returns-bind (close_end k (r.err).fd) _ s4
                          (λ _ t. Sound from_err_write f slots t.log) _
                          (close-Sound (r.err).fd from_err_write slots s4 v4)
                          (λ _ s5 v5. close-Sound r.err_write last slots s5 v5)))))

  -- From `cleanup` on: the child is reaped, every end closed, and the slot given back.
  pub cleanup-Left :
      (r : Run) (s : St W) → SoundRun k patience b a g r s → Returns (cleanup k r s) Left
  unfolding cleanup leave_gate
  cleanup-Left r s v =
      Returns-bind (reap_child k r.pid r.done) _ s
        (λ _ t.
          (f : List Child) × Past a r.pid r.done r.status f
          × Sound (λ x. owned r x + b x) f (r.slot ∷ g) t.log)
        Left (reap_child-Past r.pid r.done r.status _ (r.slot ∷ g) s v)
        (λ _ t (f, past, x).
          Returns-bind (close_ends k r) _ t (λ _ u. Sound (last r f) f (r.slot ∷ g) u.log) Left
            (close_ends-Sound r f (r.slot ∷ g) t x)
            (λ _ u y. (
              f,
              past,
              record {
                ends = y.ends;
                parent = y.parent;
                place = slot-left (k.gate u.world) r.slot u.log g y.place;
              },
            )))

  -- The exit code is no matter.
  either :
      (flagged : Bool) (r : Run) (s : St W)
      → SoundRun k patience b a g r s
      → SoundRun k patience b a g
          (if flagged then r else record r { exit_code = code_of r.status })
          s
  either true r s v = v
  either false r s v = v

  pub conclude-Left :
      (nx : Next) (s : St W)
      → After k patience b a g (SoundRun k patience b a g) nx s
      → Returns (conclude k nx s) Left
  unfolding conclude
  conclude-Left (go r) s v = cleanup-Left r s v
  conclude-Left (cleanup_with r) s v = cleanup-Left r s v
  conclude-Left (break_with r) s v =
      cleanup-Left
        (if r.timed_out || r.cancelled then r else record r { exit_code = code_of r.status }) s
        (either (r.timed_out || r.cancelled) r s v)
