-- ===== src/Os/Defs.antt =====
-- System calls over an abstract world, `errno`, and the monad in which the C functions are
-- written. A C function that answers -1 with `errno` set answers `none` here.
use jev_fabric.Base.{
  ℕ, ◌≤◌, ◌<◌, ◌≡◌, length, List, [], ◌∷◌, ◌++◌, Option, none, some, Bool, true, false,
}

-- The values of `errno` that the code names; `clear` is 0, and `other` any other value.
pub data Errno : Type 0 where
  clear eintr eagain ewouldblock einval enomem efbig eperm eio enospc ebusy enoent eexist : Errno
  ecanceled enametoolong : Errno
  other : ℕ → Errno

abbrev pub is_eintr : Errno → Bool
is_eintr eintr = true
is_eintr _ = false

-- What a system call answers: a value, or -1 with an error number.
pub data Ret (A : Type 0) : Type 0 where
  ok : A → Ret A
  fail : Errno → Ret A

-- `struct stat`, as far as the code reads it; `group_other` is `st_mode & 077`.
pub record Stat : Type 0 where
  pub is_dir : Bool
  pub is_reg : Bool
  pub nlink : ℕ
  pub uid : ℕ
  pub group_other : ℕ
  pub size : ℕ

-- The flag words given to open and openat, by what the code asks for.
pub data OpenMode : Type 0 where
  directory read_only read_only_nonblock create_excl create_writer lease random_source : OpenMode

-- A file name or a path, as the bytes before its NUL.
abbrev pub FileName : Type 0
FileName = List ℕ

-- The calls. Each takes the world and answers with the next one.
pub record Os (W : Type 0) : Type 0 where
  pub sys_pipe : W → Ret (ℕ × ℕ) × W
  pub sys_cloexec : ℕ → W → Ret (Unit {0}) × W
  pub sys_dup : ℕ → ℕ → W → Ret ℕ × W
  pub sys_close : ℕ → W → Ret (Unit {0}) × W
  pub sys_read : ℕ → ℕ → W → Ret (List ℕ) × W
  pub sys_write : ℕ → List ℕ → W → Ret ℕ × W
  pub sys_open : FileName → OpenMode → W → Ret ℕ × W
  pub sys_openat : ℕ → FileName → OpenMode → W → Ret ℕ × W
  pub sys_mkdirat : ℕ → FileName → W → Ret (Unit {0}) × W
  pub sys_fstat : ℕ → W → Ret Stat × W
  pub sys_fstatat : ℕ → FileName → W → Ret Stat × W
  pub sys_fsync : ℕ → W → Ret (Unit {0}) × W
  pub sys_renameat : ℕ → FileName → FileName → W → Ret (Unit {0}) × W
  pub sys_unlinkat : ℕ → FileName → W → Ret (Unit {0}) × W
  pub sys_flock : ℕ → Bool → W → Ret (Unit {0}) × W
  pub sys_setsid : W → Ret (Unit {0}) × W
  pub sys_malloc : ℕ → W → Ret (Unit {0}) × W
  pub sys_list : ℕ → W → Ret (List FileName) × W
  pub sys_readlink : FileName → W → Ret FileName × W
  pub sys_realpath : FileName → W → Ret FileName × W
  pub sys_actions : W → Ret (Unit {0}) × W
  pub sys_addopen : ℕ → Bool → W → Ret (Unit {0}) × W
  pub sys_spawn : List FileName → W → Ret ℕ × W
  pub sys_thread : W → Ret (Unit {0}) × W
  pub home : W → Option FileName
  pub euid : W → ℕ
  pub path_max : ℕ
  -- How many more calls a signal will interrupt: the fuel of the loops that try again on EINTR.
  pub interrupts : W → ℕ

-- What the loops rely on: read and write transfer no more than they are asked to, and a call is
-- not interrupted for ever; and a write that fails sets a nonzero `errno`.
pub record IsLawful {W : Type 0} (os : Os W) : Type 0 where
  pub read_eintr :
      (fd n : ℕ) (w : W)
      → (os.sys_read fd n w).0 ≡ fail eintr
      → os.interrupts (os.sys_read fd n w).1 < os.interrupts w
  pub read_ok :
      (fd n : ℕ) (w : W) (bytes : List ℕ)
      → (os.sys_read fd n w).0 ≡ ok bytes
      → (length bytes ≤ n) × (os.interrupts (os.sys_read fd n w).1 ≤ os.interrupts w)
  pub write_eintr :
      (fd : ℕ) (bytes : List ℕ) (w : W)
      → (os.sys_write fd bytes w).0 ≡ fail eintr
      → os.interrupts (os.sys_write fd bytes w).1 < os.interrupts w
  pub write_ok :
      (fd put : ℕ) (bytes : List ℕ) (w : W)
      → (os.sys_write fd bytes w).0 ≡ ok put
      → (put ≤ length bytes) × (os.interrupts (os.sys_write fd bytes w).1 ≤ os.interrupts w)
  pub write_errno : (fd : ℕ) (bytes : List ℕ) (w : W) → (os.sys_write fd bytes w).0 ≡ fail clear → ⊥

-- WIFEXITED with WEXITSTATUS, or WTERMSIG.
pub data ExitStatus : Type 0 where
  exited signaled : ℕ → ExitStatus

-- What a successful call did.
pub data Event : Type 0 where
  opened : ℕ → Event
  closed : ℕ → Event
  wrote : ℕ → List ℕ → Event
  synced : ℕ → Event
  made : ℕ → FileName → Event
  created : ℕ → FileName → Event
  renamed : ℕ → FileName → FileName → Event
  unlinked : ℕ → FileName → Event
  locked : ℕ → Event
  sealed : ℕ → Event
  fetched : ℕ → List ℕ → Event
  spawned : ℕ → List FileName → Event
  led_session : Event
  reaper : ℕ → Event
  examined : ℕ → Stat → Event
  -- An owned child: launched, sent SIGKILL with its group, reaped, or found gone by waitpid.
  launched killed gone : ℕ → Event
  reaped : ℕ → ExitStatus → Event
  -- A write to the table of running jobs: the slot that it is about, whether every other slot was
  -- left as it was, whether that one is free now, and the number of jobs before and after.
  gate_set : ℕ → Bool → Bool → ℕ → ℕ → Event

-- The world, `errno`, and the log with its newest event first.
pub record St (W : Type 0) : Type 0 where
  pub world : W
  pub errno : Errno
  pub log : List Event

-- `none` is a loop whose fuel ran out.
abbrev pub M : Type 0 → Type 0 → Type 0
M W A = St W → Option (A × St W)

abbrev pub pure : {W A : Type 0} → A → M W A
pure a s = some (a, s)

infixl 5 ◌>>=◌ ◌>>◌
abbrev pub ◌>>=◌ : {W A B : Type 0} → M W A → (A → M W B) → M W B
◌>>=◌ m f s = elim (m s) [ none ↦ none | some (a, s') ↦ f a s' ]

abbrev pub ◌>>◌ : {W A B : Type 0} → M W A → M W B → M W B
m >> k = m >>= λ _. k

-- A failing call sets `errno`; a successful one is logged.
abbrev pub settle : {W A : Type 0} → (A → List Event) → St W → Ret A × W → Option A × St W
settle did s (ok a, w) = (some a, record s { world = w; log = did a ++ s.log })
settle did s (fail e, w) = (none, record s { world = w; errno = e })

abbrev pub perform : {W A : Type 0} → (W → Ret A × W) → (A → List Event) → M W (Option A)
perform f did s = some (settle did s (f s.world))

-- The fuel of a loop ran out.
abbrev pub exhausted : {W A : Type 0} → M W A
exhausted _ = none

abbrev pub get_errno : {W : Type 0} → M W Errno
get_errno s = some (s.errno, s)

abbrev pub set_errno : {W : Type 0} → Errno → M W (Unit {0})
set_errno e s = some (tt, record s { errno = e })

-- `errno = e; return -1;`
abbrev pub refuse : {W A : Type 0} → Errno → M W (Option A)
refuse e s = some (none, record s { errno = e })

abbrev pub nothing : {A : Type 0} → A → List Event
nothing _ = []

-- `errno` after a call whose result the code ignores.
abbrev pub errno_after : {A : Type 0} → Ret A → Errno → Errno
errno_after (ok _) e = e
errno_after (fail x) e = x

module _ {W : Type 0} (os : Os W) where
  -- The descriptor is gone whatever close answers.
  unfoldable pub close : ℕ → M W (Unit {0})
  close fd s =
      let r = os.sys_close fd s.world in
      some (tt, record s { world = r.1; errno = errno_after r.0 s.errno; log = closed fd ∷ s.log })

  -- int saved = errno; close(fd); errno = saved; return -1;
  unfoldable pub close_failing : {A : Type 0} → ℕ → M W (Option A)
  unfolding close
  close_failing fd = do saved ← get_errno; close fd; refuse saved

-- The function returns, and what it answers and leaves satisfies `P`.
abbrev pub Returns : {W A : Type 0} → Option (A × St W) → (A → St W → Type 0) → Type 0
Returns none P = ⊥
Returns (some (a, s)) P = P a s
