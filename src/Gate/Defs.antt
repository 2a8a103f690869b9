-- ===== src/Gate/Defs.antt =====
-- native/posix.c: `jf_jobs`, `jf_pids` and `jf_shutdown`, and each critical section under
-- `jf_gate` in `jf_exec_call` and `jf_cleanup` as one function of them.
use jev_fabric.Base.{
  ℕ, suc, ◌+◌, ◌-◌, ◌%◌, ◌^◌, Bool, true, false, ◌&&◌, not, List, [], ◌∷◌, Option, none, some, ltb,
  if◌then◌else◌, set, replicate,
}
use jev_fabric.Os.{Errno, clear, ecanceled, Ret, ok, fail}

abbrev pub max_jobs : ℕ
max_jobs = 8

-- A `pid_t` of the table: 0, -1, or the process group of a live child.
pub data Slot : Type 0 where
  free reserved : Slot
  live : ℕ → Slot

pub record Gate : Type 0 where
  pub jobs : ℕ  -- unsigned
  pub pids : List Slot
  pub shutdown : Bool

abbrev pub start : Gate
start = record { jobs = 0; pids = replicate max_jobs free; shutdown = false }

-- The search loop: the first slot that is 0.
unfoldable pub find_free : List Slot → Option ℕ
find_free [] = none
find_free (free ∷ ps) = some 0
find_free (p ∷ ps) = elim (find_free ps) [ none ↦ none | some i ↦ some (suc i) ]

abbrev pub reserve : List Slot → Option ℕ → List Slot
reserve ps none = ps
reserve ps (some i) = set ps i reserved

-- The first critical section. `none` is "not registered"; `some none` would be a registered job
-- with `slot` still -1.
unfoldable pub register : Gate → Gate × Option (Option ℕ)
register g =
    if not g.shutdown && ltb g.jobs max_jobs
    then (
      record g { jobs = (g.jobs + 1) % 2 ^ 32; pids = reserve g.pids (find_free g.pids) },
      some (find_free g.pids),
    )
    else (g, none)

abbrev pub spawn_code : Ret ℕ → Errno
spawn_code (ok _) = clear
spawn_code (fail e) = e

abbrev pub publish_pid : Gate → ℕ → Ret ℕ → Gate
publish_pid g slot (ok pid) = record g { pids = set g.pids slot (live pid) }
publish_pid g slot (fail e) = g

-- The second one: posix_spawnp, unless the process is shutting down; `spawn` is its answer.
unfoldable pub launch_child : Gate → ℕ → Ret ℕ → Gate × Errno
launch_child g slot spawn =
    if g.shutdown then (g, ecanceled) else (publish_pid g slot spawn, spawn_code spawn)

-- Once waitpid has answered: the group is no longer ours to kill.
unfoldable pub retire : Gate → ℕ → Gate
retire g slot = record g { pids = set g.pids slot reserved }

-- The last one. `jf_jobs--` on an unsigned.
unfoldable pub leave : Gate → ℕ → Gate
leave g slot = record g { pids = set g.pids slot free; jobs = (g.jobs + 2 ^ 32 - 1) % 2 ^ 32 }

-- The copy `owned` of the table as the two loops of `jf_cleanup` read it: the groups that the first
-- kills, and the second waits for.
unfoldable pub owned : List Slot → List ℕ
owned [] = []
owned (live pid ∷ ps) = pid ∷ owned ps
owned (p ∷ ps) = owned ps

-- What `jf_cleanup` does to the gate, and the groups that its loops go over; the loops themselves are
-- in Exec/Run/Shutdown.
unfoldable pub jf_cleanup : Gate → Gate × List ℕ
jf_cleanup g = (record g { shutdown = true }, owned g.pids)
