-- ===== src/Pipe/Defs.antt =====
-- native/pipe.c, and `jf_pipe` of native/posix.c: pipes whose ends close on exec.
use jev_fabric.Base.{ℕ, List, [], ◌∷◌, Option, none, some}
use jev_fabric.Os.{
  Errno, Event, opened, sealed, Os, M, ◌>>=◌, ◌>>◌, pure, perform, get_errno, refuse, close,
}

-- io_done and io_fail: what an effect answers to the Bend program.
pub data Reply (A : Type 0) : Type 0 where
  done : A → Reply A
  failed : Errno → Reply A

module _ {W : Type 0} (os : Os W) where
  abbrev opened_both : ℕ × ℕ → List Event
  opened_both fds = opened fds.1 ∷ opened fds.0 ∷ []

  unfoldable pub pipe : M W (Option (ℕ × ℕ))
  pipe = perform os.sys_pipe opened_both

  -- fcntl(fd, F_SETFD, FD_CLOEXEC)
  unfoldable pub cloexec : ℕ → M W (Option (Unit {0}))
  cloexec fd = perform (os.sys_cloexec fd) (λ _. sealed fd ∷ [])

  -- `fcntl(fds[0], ...) < 0 || fcntl(fds[1], ...) < 0`, answered by `none`.
  unfoldable pub seal_both : ℕ × ℕ → M W (Option (Unit {0}))
  unfolding cloexec
  seal_both fds = do first ← cloexec fds.0; elim first [ none ↦ pure none | some _ ↦ cloexec fds.1 ]

  close_both : ℕ × ℕ → M W (Unit {0})
  unfolding close
  close_both fds = do close os fds.0; close os fds.1

  -- Both ends, or -1 with `errno` and neither end.
  unfoldable pub jf_pipe : M W (Option (ℕ × ℕ))
  unfolding pipe seal_both close_both
  jf_pipe = do
    made ← pipe
    elim made [
      | none ↦ pure none
      | some fds ↦ do
        kept ← seal_both fds
        elim kept [
          | some _ ↦ pure (some fds)
          | none ↦ do saved ← get_errno; close_both fds; refuse saved
        ]
    ]

  unfoldable pub native_pipe_run : M W (Reply (ℕ × ℕ))
  unfolding pipe seal_both close_both
  native_pipe_run = do
    made ← pipe
    elim made [
      | none ↦ do e ← get_errno; pure (failed e)
      | some fds ↦ do
        kept ← seal_both fds
        elim kept [
          | some _ ↦ pure (done fds)
          | none ↦ do saved ← get_errno; close_both fds; pure (failed saved)
        ]
    ]

  -- fcntl(0, F_DUPFD_CLOEXEC, 3)
  unfoldable pub native_stdin_run : M W (Reply ℕ)
  native_stdin_run = do
    dup ← perform (os.sys_dup 0 3) (λ fd. sealed fd ∷ opened fd ∷ [])
    elim dup [ none ↦ do e ← get_errno; pure (failed e) | some fd ↦ pure (done fd) ]
