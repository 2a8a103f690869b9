-- ===== src/Pipe/Handles.antt =====
-- native/pipe.c and `jf_pipe`: no path leaks a descriptor or closes one twice.
use jev_fabric.Base.{ℕ, ◌≡◌, List, ◌∷◌, some, none, Option, arith}
use jev_fabric.Os.{Os, St, Returns, close, held, release_first, release_second}
use jev_fabric.Pipe.Defs.{jf_pipe, Reply, done, failed, native_pipe_run, seal_both, cloexec}

-- The handles that an answer passes to the caller.
abbrev pub handed : Reply (ℕ × ℕ) → List ℕ → List ℕ
handed (done fds) h = fds.1 ∷ fds.0 ∷ h
handed (failed _) h = h

abbrev pub both_ends : Option (ℕ × ℕ) → List ℕ → List ℕ
both_ends none h = h
both_ends (some fds) h = fds.1 ∷ fds.0 ∷ h

-- `native_pipe_run` returns with both ends open and handed to the caller, or fails with neither.
pub native_pipe_run-held :
    {W : Type 0} (os : Os W) (s : St W) (h : List ℕ)
    → held s.log ≡ some h
    → Returns (native_pipe_run os s) (λ r s'. held s'.log ≡ some (handed r h))
unfolding native_pipe_run seal_both cloexec close
native_pipe_run-held os s h e = grind (arith, release_second, release_first)

-- `jf_pipe` answers both ends, which are then open, or -1 with neither left open.
pub jf_pipe-held :
    {W : Type 0} (os : Os W) (s : St W) (h : List ℕ)
    → held s.log ≡ some h
    → Returns (jf_pipe os s) (λ r s'. held s'.log ≡ some (both_ends r h))
unfolding jf_pipe seal_both cloexec close
jf_pipe-held os s h e = grind (arith, release_second, release_first)
