-- ===== src/Host/Call/Defs/Steps.antt =====
-- native/host.c: `jfh_call`. The static `jfh_lease` is passed in, and the new one out.
use jev_fabric.Base.{
  ℕ, ◌+◌, ◌-◌, Bool, true, false, ◌||◌, not, List, [], ◌∷◌, Option, none, some, ltb, leb, ◌==◌,
  if◌then◌else◌, length,
}
use jev_fabric.Os.{
  Errno, clear, einval, ebusy, enospc, enametoolong, read_only_nonblock, create_writer, lease,
  FileName, opened, made, synced, locked, led_session, Os, M, ◌>>=◌, ◌>>◌, pure, perform, get_errno,
  set_errno, nothing, close,
}
use jev_fabric.Host.Names.{codes, jfh_leaf}
use jev_fabric.Host.Directory.{jfh_private, jfh_root, jfh_dir}
use jev_fabric.Host.Files.{jfh_random, jfh_read_file, jfh_atomic}
use jev_fabric.Host.Call.Defs.Spawn.{
  Request, op_self, op_create, op_read, op_write, op_claim, op_alive, op_spawn, op_spool, jobs_max,
  Attempt, count_entries, would_block, or_eio, jfh_spawn_process,
}

module _ {W : Type 0} (os : Os W) where
  module _ (held_lease : Option ℕ) where
    -- `goto end` with `rc` still -1.
    abbrev pub stop : Option ℕ → Option ℕ → M W Attempt
    stop fd dir = pure (record {
      rc = false;
      fd = fd;
      dir = dir;
      result = none;
      handle = none;
      lease_fd = held_lease;
    })

    abbrev pub finished : Option ℕ → Option ℕ → Option (List ℕ) → Attempt
    finished fd dir result = record {
      rc = true;
      fd = fd;
      dir = dir;
      result = result;
      handle = none;
      lease_fd = held_lease;
    }

    -- strdup, and `rc` by whether it had memory.
    unfoldable pub answer : Option ℕ → Option ℕ → List ℕ → M W Attempt
    answer fd dir text = do
      copy ← perform (os.sys_malloc (length text + 1)) nothing
      elim copy [ none ↦ stop fd dir | some _ ↦ pure (finished fd dir (some text)) ]

    -- The branch for Linux.
    unfoldable pub call_self : M W Attempt
    call_self = do
      path ← perform (os.sys_readlink (codes "/proc/self/exe")) nothing
      elim path [
        | none ↦ stop none none
        | some p ↦
            if length p == os.path_max - 1 then set_errno enametoolong >> stop none none else do
              resolved ← perform (os.sys_realpath p) nothing
              elim resolved [ none ↦ stop none none | some r ↦ answer none none r ]
      ]

    unfoldable pub create_named : ℕ → Option FileName → M W Attempt
    create_named dir none = stop none (some dir)
    create_named dir (some id) = do
      new ← perform (os.sys_mkdirat dir id) (λ _. made dir id ∷ [])
      elim new [
        | none ↦ stop none (some dir)
        | some _ ↦ do
          flushed ← perform (os.sys_fsync dir) (λ _. synced dir ∷ [])
          elim flushed [ none ↦ stop none (some dir) | some _ ↦ answer none (some dir) id ]
      ]

    unfoldable pub create_counted : ℕ → ℕ → ℕ → Option (List FileName) → M W Attempt
    create_counted limit dir copy none = close os copy >> stop none (some dir)
    create_counted limit dir copy (some entries) = do
      close os copy
      if leb limit (count_entries limit 0 entries)
          then set_errno enospc >> stop none (some dir)
          else (jfh_random os >>= create_named dir)

    unfoldable pub create_copied : ℕ → ℕ → Option ℕ → M W Attempt
    create_copied limit dir none = stop none (some dir)
    create_copied limit dir (some copy) =
        perform (os.sys_list copy) nothing >>= create_counted limit dir copy

    unfoldable pub create_locked : ℕ → ℕ → Option (Unit {0}) → M W Attempt
    create_locked limit dir none = stop none (some dir)
    create_locked limit dir (some _) =
        perform (os.sys_dup dir 3) (λ fd. opened fd ∷ []) >>= create_copied limit dir

    unfoldable pub create_in : ℕ → Option ℕ → M W Attempt
    create_in limit none = stop none none
    create_in limit (some dir) =
        perform (os.sys_flock dir false) (λ _. locked dir ∷ []) >>= create_locked limit dir

    -- `limit` is the most job directories that the root may hold.
    unfoldable pub call_create : ℕ → M W Attempt
    call_create limit =
        if limit == 0 || ltb jobs_max limit
        then set_errno einval >> stop none none
        else (jfh_root os >>= create_in limit)

    unfoldable pub spool_checked : ℕ → ℕ → Option (Unit {0}) → M W Attempt
    spool_checked dir fd none = stop (some fd) (some dir)
    spool_checked dir fd (some _) =
        pure (record (finished none (some dir) none) { handle = some fd })

    unfoldable pub spool_opened : ℕ → Option ℕ → M W Attempt
    spool_opened dir none = stop none (some dir)
    spool_opened dir (some fd) = jfh_private os fd false >>= spool_checked dir fd

    -- A nonzero `limit` means "create the writer".
    unfoldable pub call_spool : ℕ → Request → M W Attempt
    call_spool dir req =
        perform
          (os.sys_openat dir req.name
            (if req.limit == 0 then read_only_nonblock else create_writer))
          (λ fd. opened fd ∷ [])
        >>= spool_opened dir

    abbrev pub file_read : ℕ → Option (Option (List ℕ)) → M W Attempt
    file_read dir none = stop none (some dir)
    file_read dir (some text) = pure (finished none (some dir) text)

    abbrev pub file_written : ℕ → Option (Unit {0}) → M W Attempt
    file_written dir none = stop none (some dir)
    file_written dir (some _) = pure (finished none (some dir) none)

    unfoldable pub claim_session : ℕ → ℕ → Option (Unit {0}) → M W Attempt
    claim_session dir fd none = stop (some fd) (some dir)
    claim_session dir fd (some _) = do
      leader ← perform os.sys_setsid (λ _. led_session ∷ [])
      elim leader [
        | none ↦ stop (some fd) (some dir)
        | some _ ↦ pure (record (finished none (some dir) none) { lease_fd = some fd })
      ]

    abbrev pub has_lease : Option ℕ → Bool
    has_lease none = false
    has_lease (some _) = true

    unfoldable pub call_claim : ℕ → ℕ → M W Attempt
    call_claim dir fd =
        if has_lease held_lease
        then set_errno ebusy >> stop (some fd) (some dir)
        else (perform (os.sys_flock fd true) (λ _. locked fd ∷ []) >>= claim_session dir fd)

    unfoldable pub call_alive : ℕ → ℕ → M W Attempt
    call_alive dir fd = do
      lock ← perform (os.sys_flock fd true) (λ _. locked fd ∷ [])
      e ← get_errno
      elim lock [
        | none ↦
            if would_block e
            then answer (some fd) (some dir) (codes "1")
            else stop (some fd) (some dir)
        | some _ ↦ answer (some fd) (some dir) (codes "0")
      ]

    unfoldable pub lease_checked : ℕ → ℕ → ℕ → Option (Unit {0}) → M W Attempt
    lease_checked op dir fd none = stop (some fd) (some dir)
    lease_checked op dir fd (some _) =
        if op == op_claim then call_claim dir fd else call_alive dir fd

    unfoldable pub lease_opened : ℕ → ℕ → Option ℕ → M W Attempt
    lease_opened op dir none = stop none (some dir)
    lease_opened op dir (some fd) = jfh_private os fd false >>= lease_checked op dir fd

    unfoldable pub call_lease : ℕ → ℕ → M W Attempt
    call_lease op dir =
        perform (os.sys_openat dir (codes ".lease") lease) (λ fd. opened fd ∷ [])
        >>= lease_opened op dir

    -- The operations on a named file: the name is checked first.
    unfoldable pub call_file : ℕ → Request → M W Attempt
    call_file dir req =
        if not (jfh_leaf req.name)
        then set_errno einval >> stop none (some dir)
        else if req.op == op_spool
        then call_spool dir req
        else if req.op == op_read
        then (jfh_read_file os dir req.name req.limit >>= file_read dir)
        else (jfh_atomic os dir req.name req.text >>= file_written dir)

    -- With the job's directory open.
    unfoldable pub call_job : Request → Option ℕ → M W Attempt
    call_job req none = stop none none
    call_job req (some dir) =
        if req.op == op_spool || (req.op == op_read || req.op == op_write)
        then call_file dir req
        else if req.op == op_claim || req.op == op_alive
        then call_lease req.op dir
        else (set_errno einval >> stop none (some dir))

    abbrev pub spawn_done : Option (Unit {0}) → M W Attempt
    spawn_done none = stop none none
    spawn_done (some _) = pure (finished none none none)

    unfoldable pub call_body : Request → M W Attempt
    call_body req =
        if req.op == op_self
        then call_self
        else if req.op == op_create
        then call_create req.limit
        else if req.op == op_spawn
        then (jfh_spawn_process os req >>= spawn_done)
        else (jfh_dir os req.id >>= call_job req)

  abbrev pub close_if : Option ℕ → M W (Unit {0})
  close_if none = pure tt
  close_if (some fd) = close os fd

  -- The label `end`: `w->code`, and the descriptors that are still the call's own.
  unfoldable pub call_end : Attempt → M W (Errno × Attempt)
  call_end a = do
    e ← get_errno
    close_if a.fd
    close_if a.dir
    pure (if a.rc then clear else or_eio e, a)

  unfoldable pub jfh_call : Option ℕ → Request → M W (Errno × Attempt)
  jfh_call held_lease req = call_body held_lease req >>= call_end
