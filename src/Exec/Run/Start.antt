-- ===== src/Exec/Run/Start.antt =====
-- native/posix.c, `jf_exec_call` from the launch of its child on.
use jev_fabric.Base.{
  ℕ, ◌+◌, ◌*◌, ◌%◌, ◌^◌, ◌≤◌, ◌≡◌, Bool, true, false, ◌||◌, List, ◌∷◌, Option, none, some, arith,
}
use jev_fabric.Os.{St, M, ◌>>=◌, nothing, Returns, Returns-bind, Returns-weaken, Returns-call}
use jev_fabric.Exec.Kernel.{Child, Kernel, IsLive, Later-refl, one}
use jev_fabric.Exec.Run.Defs.{Run, with_code, drain_grace, ns_per_ms, close_end, rounds, conclude}
use jev_fabric.Exec.Run.Begin.{
  fail_errno, watch, err_nonblocking, set_nonblock, out_nonblocking, in_nonblocking, after_spawn,
}
use jev_fabric.Exec.Run.Streams.{Shown}
use jev_fabric.Exec.Run.State.{Sound, SoundRun, child, owned, Due, After}
use jev_fabric.Exec.Run.Calls.{Sounds, close_end-Sounds}
use jev_fabric.Exec.Run.Loop.{rounds-Sound}
use jev_fabric.Exec.Run.Cleanup.{Left, cleanup-Left, conclude-Left}

-- Before the loop: nothing is read, and the child has not ended.
pub record IsBegun (r : Run) : Type 0 where
  pub out_shown : Shown r.out
  pub err_shown : Shown r.err
  pub undone : r.done ≡ false
  pub unflagged : (r.timed_out || r.cancelled) ≡ false

module _ {W : Type 0} (k : Kernel W) (patience : ℕ) (live : IsLive k patience) (b : ℕ → ℕ)
    (a : List Child) (g : List ℕ) where
  abbrev Ends : Run → St W → Type 0
  Ends = Left k patience live b a g

  pub fail_errno-Left :
      (r : Run) (s : St W)
      → SoundRun k patience b a g r s
      → Returns (fail_errno k patience r s) Ends
  unfolding fail_errno
  fail_errno-Left r s v = cleanup-Left k patience live b a g (with_code r s.errno) s v

  Due-begun :
      (pid deadline n : ℕ) (done flagged : Bool) (since : ℕ) (w : W)
      → done ≡ false
      → flagged ≡ false
      → deadline + patience + drain_grace + 5 ≤ n + k.clock w
      → patience + drain_grace + 5 ≤ n
      → Due k patience pid deadline n 0 0 0 done flagged since w
  Due-begun pid deadline n true flagged since w e f x y = cc
  Due-begun pid deadline n false true since w e f x y = cc
  Due-begun pid deadline n false false since w e f x y = (x, omega arith)

  -- The loop has fuel enough for the time until the deadline, the child's end, and the drain.
  watch-Left :
      (pid : ℕ) (r : Run) (now : ℕ) (s : St W)
      → SoundRun k patience b a g r s
      → r.pid ≡ some pid
      → IsBegun r
      → now ≤ k.clock s.world
      → Returns (watch k patience pid r now s) Ends
  unfolding watch
  watch-Left pid r now s v mine begun past =
      Returns-bind
        (rounds k ((r.job).timeout * ns_per_ms + patience + drain_grace + 7) pid
          ((now + (r.job).timeout * ns_per_ms) % 2 ^ 64) r)
        (conclude k) s (After k patience b a g (SoundRun k patience b a g)) Ends
        (rounds-Sound k patience live b a g pid _ _ r s (record {
          sound = v;
          out_shown = begun.out_shown;
          err_shown = begun.err_shown;
          mine = mine;
          due =
              Due-begun pid _ _ r.done (r.timed_out || r.cancelled) r.exited_at s.world begun.undone
                begun.unflagged (omega arith) (omega arith);
        }))
        (λ nx t x. conclude-Left k patience live b a g nx t x)

  err_nonblocking-Left :
      (pid : ℕ) (r : Run) (answer : Option (Unit {0})) (s : St W)
      → SoundRun k patience b a g r s
      → r.pid ≡ some pid
      → IsBegun r
      → Returns (err_nonblocking k patience pid r answer s) Ends
  unfolding err_nonblocking
  err_nonblocking-Left pid r none s v mine begun = fail_errno-Left r s v
  err_nonblocking-Left pid r (some _) s v mine begun =
      watch-Left pid r _ _ v mine begun (live.tick_between s.world).1

  -- fcntl on an end, where there is one, and what follows.
  set_nonblock-Left :
      (end : Option ℕ) (next : Run → Option (Unit {0}) → M W Run) (r : Run) (s : St W)
      → SoundRun k patience b a g r s
      → ((answer : Option (Unit {0})) (t : St W)
          → SoundRun k patience b a g r t
          → Returns (next r answer t) Ends)
      → Returns ((set_nonblock k patience end >>= next r) s) Ends
  set_nonblock-Left none next r s v go_on = go_on (some tt) s v
  set_nonblock-Left (some fd) next r s v go_on =
      Returns-call (k.sys_nonblock fd) nothing (next r) s Ends (λ _ _. go_on (some tt) _ v)
        (λ _ _. go_on none _ v)

  out_nonblocking-Left :
      (pid : ℕ) (r : Run) (answer : Option (Unit {0})) (s : St W)
      → SoundRun k patience b a g r s
      → r.pid ≡ some pid
      → IsBegun r
      → Returns (out_nonblocking k patience pid r answer s) Ends
  unfolding out_nonblocking
  out_nonblocking-Left pid r none s v mine begun = fail_errno-Left r s v
  out_nonblocking-Left pid r (some _) s v mine begun =
      set_nonblock-Left (r.err).fd (err_nonblocking k patience pid) r s v
        (λ answer t x. err_nonblocking-Left pid r answer t x mine begun)

  in_nonblocking-Left :
      (pid : ℕ) (r : Run) (answer : Option (Unit {0})) (s : St W)
      → SoundRun k patience b a g r s
      → r.pid ≡ some pid
      → IsBegun r
      → Returns (in_nonblocking k patience pid r answer s) Ends
  unfolding in_nonblocking
  in_nonblocking-Left pid r none s v mine begun = fail_errno-Left r s v
  in_nonblocking-Left pid r (some _) s v mine begun =
      set_nonblock-Left (r.out).fd (out_nonblocking k patience pid) r s v
        (λ answer t x. out_nonblocking-Left pid r answer t x mine begun)

  -- The parent's run, as the child's ends are closed one by one.
  module _ (r : Run) where
    abbrev no_reader : Run
    no_reader = record r { in_read = none }

    abbrev no_writer : Run
    no_writer = record no_reader { out_write = none }

    abbrev parent_run : Run
    parent_run = record no_writer { err_write = none }

    abbrev Ledger : Run → St W → Type 0
    Ledger p t = Sound (λ x. owned p x + b x) (child r.pid r.done r.status a) (r.slot ∷ g) t.log

    close-Ledger :
        (end : Option ℕ) (p q : Run) (s : St W)
        → ((x : ℕ) → owned p x + b x ≡ one end x + (owned q x + b x))
        → Ledger p s
        → Returns (close_end k end s) (λ _ t. Ledger q t)
    close-Ledger end p q s split v =
        Returns-weaken (close_end k end s)
          (λ _ t.
            Sounds k patience live (λ x. owned q x + b x) (child r.pid r.done r.status a)
              (r.slot ∷ g) s.world t)
          _
          (close_end-Sounds k patience live end (λ x. owned p x + b x) (λ x. owned q x + b x) _
            (r.slot ∷ g) s.world s split (v, Later-refl k s.world))
          (λ _ t x. x.0)

    pub after_spawn-Left :
        (pid : ℕ) (s : St W)
        → SoundRun k patience b a g r s
        → r.pid ≡ some pid
        → IsBegun r
        → Returns (after_spawn k patience pid r s) Ends
    unfolding after_spawn
    after_spawn-Left pid s v mine begun =
        Returns-bind (close_end k r.in_read) _ s (λ _ t. Ledger no_reader t) Ends
          (close-Ledger r.in_read r no_reader s (λ x. omega arith) v)
          (λ _ s1 v1.
            Returns-bind (close_end k r.out_write) _ s1 (λ _ t. Ledger no_writer t) Ends
              (close-Ledger r.out_write no_reader no_writer s1 (λ x. omega arith) v1)
              (λ _ s2 v2.
                Returns-bind (close_end k r.err_write) _ s2 (λ _ t. Ledger parent_run t) Ends
                  (close-Ledger r.err_write no_writer parent_run s2 (λ x. omega arith) v2)
                  (λ _ s3 v3.
                    set_nonblock-Left r.in_write (in_nonblocking k patience pid) parent_run s3 v3
                      (λ answer t x. in_nonblocking-Left pid parent_run answer t x mine (record {
                        out_shown = begun.out_shown;
                        err_shown = begun.err_shown;
                        undone = begun.undone;
                        unflagged = begun.unflagged;
                      })))))
