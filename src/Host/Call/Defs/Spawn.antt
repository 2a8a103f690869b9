-- ===== src/Host/Call/Defs/Spawn.antt =====
-- native/host.c: `jfh_request`, the state of `jfh_call`, and `jfh_spawn_process`.
use jev_fabric.Base.{
  ℕ, ◌+◌, Bool, true, false, ◌||◌, not, List, [], ◌∷◌, Option, none, some, ltb, ◌==◌, if◌then◌else◌,
  length, get_or,
}
use jev_fabric.Os.{
  Errno, clear, eagain, ewouldblock, einval, eio, FileName, spawned, reaper, Os, M, ◌>>=◌, ◌>>◌,
  pure, perform, set_errno, nothing,
}
use jev_fabric.Host.Names.{is_dots}

pub record Request : Type 0 where
  pub op : ℕ
  pub limit : ℕ
  pub id : FileName
  pub name : FileName
  pub text : List ℕ
  pub argv : List FileName

-- JFH_SELF to JFH_SPOOL
abbrev pub op_self : ℕ
op_self = 0

abbrev pub op_create : ℕ
op_create = 1

abbrev pub op_read : ℕ
op_read = 2

abbrev pub op_write : ℕ
op_write = 3

abbrev pub op_claim : ℕ
op_claim = 4

abbrev pub op_alive : ℕ
op_alive = 5

abbrev pub op_spawn : ℕ
op_spawn = 6

abbrev pub op_spool : ℕ
op_spool = 7

abbrev pub jobs_max : ℕ
jobs_max = 4096

-- The local variables of `jfh_call` at its label `end`, with what it has put into the request and
-- the lease.
pub record Attempt : Type 0 where
  pub rc : Bool
  pub fd : Option ℕ
  pub dir : Option ℕ
  pub result : Option (List ℕ)
  pub handle : Option ℕ
  pub lease_fd : Option ℕ

-- The count of directory entries, which stops at `limit`.
unfoldable pub count_entries : ℕ → ℕ → List FileName → ℕ
count_entries limit count [] = count
count_entries limit count (name ∷ names) =
    let rest = count_entries limit (if is_dots name then count else count + 1) names in
    if ltb count limit then rest else count

abbrev pub would_block : Errno → Bool
would_block eagain = true
would_block ewouldblock = true
would_block _ = false

abbrev pub or_eio : Errno → Errno
or_eio clear = eio
or_eio e = e

module _ {W : Type 0} (os : Os W) where
  -- The three addopen calls of `jfh_spawn_process`: /dev/null for reading, then for writing.
  unfoldable pub add_opens : List (ℕ × Bool) → M W (Option (Unit {0}))
  add_opens [] = pure (some tt)
  add_opens ((fd, writing) ∷ more) = do
    added ← perform (os.sys_addopen fd writing) nothing
    elim added [ none ↦ pure none | some _ ↦ add_opens more ]

  unfoldable pub launch : List FileName → Option (Unit {0}) → M W (Option (Unit {0}))
  launch argv none = pure none
  launch argv (some _) = do
    child ← perform (os.sys_spawn argv) (λ pid. spawned pid argv ∷ [])
    elim child [
      | none ↦ pure none
      | some pid ↦ do perform os.sys_thread (λ _. reaper pid ∷ []); pure (some tt)
    ]

  unfoldable pub jfh_spawn_process : Request → M W (Option (Unit {0}))
  jfh_spawn_process req =
      if length req.argv == 0 || not (get_or (get_or req.argv 0 []) 0 0 == b'/')
      then set_errno einval >> pure none
      else do
        actions ← perform os.sys_actions nothing
        elim actions [
          | none ↦ pure none
          | some _ ↦ do
            added ← add_opens ((0, false) ∷ (1, true) ∷ (2, true) ∷ [])
            launch req.argv added
        ]
