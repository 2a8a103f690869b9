-- ===== src/Host/Files/Defs.antt =====
-- native/host.c: `jfh_random`, `jfh_read_file` and `jfh_atomic`.
use jev_fabric.Base.{
  ℕ, zero, suc, ◌+◌, ◌-◌, Bool, true, false, ◌||◌, not, List, [], ◌∷◌, ◌++◌, Option, none, some,
  ltb, leb, ◌==◌, if◌then◌else◌, length, take, drop,
}
use jev_fabric.Os.{
  Errno, is_eintr, enoent, efbig, enomem, eperm, eio, Stat, read_only_nonblock, create_excl,
  random_source, FileName, opened, examined, fetched, wrote, synced, renamed, unlinked, Os, M,
  ◌>>=◌, ◌>>◌, pure, perform, get_errno, set_errno, refuse, nothing, exhausted, close,
  close_failing,
}
use jev_fabric.Host.Names.{codes, hex_of, temp_name}
use jev_fabric.Host.Directory.{jfh_private, current_euid}

abbrev pub is_enoent : Errno → Bool
is_enoent enoent = true
is_enoent _ = false

-- sizeof bytes
abbrev pub random_bytes : ℕ
random_bytes = 16

module _ {W : Type 0} (os : Os W) where
  abbrev pub interrupts_left : M W ℕ
  interrupts_left s = some (os.interrupts s.world, s)

  -- read(fd, ..., n)
  abbrev pub read : ℕ → ℕ → M W (Option (List ℕ))
  read fd n = perform (os.sys_read fd n) (λ bytes. fetched fd bytes ∷ [])

  -- What the loop of `jfh_random` does with the answer to a read; on failure the descriptor is
  -- closed.
  unfoldable pub fill_next :
      (List ℕ → M W (Option (List ℕ))) → ℕ → List ℕ → Option (List ℕ) → M W (Option (List ℕ))
  fill_next again fd used none = do
    e ← get_errno
    if is_eintr e then again used else (close os fd >> refuse e)
  fill_next again fd used (some []) = close os fd >> refuse eio
  fill_next again fd used (some (b ∷ bs)) = again (used ++ b ∷ bs)

  unfoldable pub fill : ℕ → ℕ → List ℕ → M W (Option (List ℕ))
  fill zero fd used = exhausted
  fill (suc fuel) fd used =
      if ltb (length used) random_bytes
      then read fd (random_bytes - length used) >>= fill_next (fill fuel fd) fd used
      else pure (some used)

  -- The digits, once the bytes are there.
  unfoldable pub random_end : ℕ → Option (List ℕ) → M W (Option FileName)
  random_end fd none = pure none
  random_end fd (some bytes) = close os fd >> pure (some (hex_of bytes))

  unfoldable pub random_from : Option ℕ → M W (Option FileName)
  random_from none = pure none
  random_from (some fd) = do
    k ← interrupts_left
    bytes ← fill (random_bytes + k + 1) fd []
    random_end fd bytes

  -- Writes 32 lowercase hex digits; the model answers them.
  unfoldable pub jfh_random : M W (Option FileName)
  jfh_random =
      perform (os.sys_open (codes "/dev/urandom") random_source) (λ fd. opened fd ∷ [])
      >>= random_from

  unfoldable pub read_next :
      (List ℕ → M W (Option (List ℕ))) → ℕ → List ℕ → Option (List ℕ) → M W (Option (List ℕ))
  read_next again fd used none = do
    e ← get_errno
    if is_eintr e then again used else close_failing os fd
  read_next again fd used (some []) = pure (some used)
  read_next again fd used (some (b ∷ bs)) = again (used ++ b ∷ bs)

  -- The loop of `jfh_read_file`: one byte past the limit is asked for, so growth is seen.
  unfoldable pub read_rounds : ℕ → ℕ → ℕ → List ℕ → M W (Option (List ℕ))
  read_rounds zero fd limit used = exhausted
  read_rounds (suc fuel) fd limit used =
      if leb (length used) limit
      then read fd (limit + 1 - length used) >>= read_next (read_rounds fuel fd limit) fd used
      else pure (some used)

  -- From the loop's end on.
  unfoldable pub read_end : ℕ → ℕ → Option (List ℕ) → M W (Option (Option (List ℕ)))
  read_end fd limit none = pure none
  read_end fd limit (some used) = do
    close os fd
    if ltb limit (length used) then refuse efbig else pure (some (some used))

  -- From `malloc` on, with the file open.
  unfoldable pub read_into : ℕ → ℕ → Option (Unit {0}) → M W (Option (Option (List ℕ)))
  read_into fd limit none = close os fd >> refuse enomem
  read_into fd limit (some _) = do
    k ← interrupts_left
    got ← read_rounds (limit + k + 2) fd limit []
    read_end fd limit got

  -- The second fstat, for the size, which is a number here: a negative one is not modelled.
  unfoldable pub read_sized : ℕ → ℕ → Option Stat → M W (Option (Option (List ℕ)))
  read_sized fd limit none = close_failing os fd
  read_sized fd limit (some st) =
      if ltb limit st.size
      then close os fd >> refuse efbig
      else perform (os.sys_malloc (limit + 1)) nothing >>= read_into fd limit

  unfoldable pub read_checked : ℕ → ℕ → Option (Unit {0}) → M W (Option (Option (List ℕ)))
  read_checked fd limit none = close_failing os fd
  read_checked fd limit (some _) =
      perform (os.sys_fstat fd) (λ st. examined fd st ∷ []) >>= read_sized fd limit

  unfoldable pub read_opened : ℕ → Option ℕ → M W (Option (Option (List ℕ)))
  read_opened limit none = do e ← get_errno; if is_enoent e then pure (some none) else pure none
  read_opened limit (some fd) = jfh_private os fd false >>= read_checked fd limit

  -- `some none` is success with `*text` unset: the file is missing.
  unfoldable pub jfh_read_file : ℕ → FileName → ℕ → M W (Option (Option (List ℕ)))
  jfh_read_file dir name limit =
      perform (os.sys_openat dir name read_only_nonblock) (λ fd. opened fd ∷ [])
      >>= read_opened limit

  unfoldable pub write_next : (List ℕ → M W Bool) → List ℕ → Option ℕ → M W Bool
  write_next again rest none = do e ← get_errno; if is_eintr e then again rest else pure false
  write_next again rest (some zero) = pure false
  write_next again rest (some (suc n)) = again (drop (suc n) rest)

  -- The write loop of `jfh_atomic` over what is left to write; `false` is its `goto end`.
  unfoldable pub write_rounds : ℕ → ℕ → List ℕ → M W Bool
  write_rounds zero fd rest = exhausted
  write_rounds (suc fuel) fd rest =
      if ltb 0 (length rest)
      then perform (os.sys_write fd rest) (λ n. wrote fd (take n rest) ∷ [])
        >>= write_next (write_rounds fuel fd) rest
      else pure true

  unfoldable pub publish_kept : Option (Unit {0}) → M W Bool
  publish_kept none = pure false
  publish_kept (some _) = pure true

  unfoldable pub publish_moved : ℕ → Option (Unit {0}) → M W Bool
  publish_moved dir none = pure false
  publish_moved dir (some _) = perform (os.sys_fsync dir) (λ _. synced dir ∷ []) >>= publish_kept

  unfoldable pub publish_flushed : ℕ → FileName → FileName → Option (Unit {0}) → M W Bool
  publish_flushed dir temp name none = pure false
  publish_flushed dir temp name (some _) =
      perform (os.sys_renameat dir temp name) (λ _. renamed dir temp name ∷ [])
      >>= publish_moved dir

  -- fsync(fd) < 0 || renameat(dir, temp, dir, name) < 0 || fsync(dir) < 0, answered by `false`.
  unfoldable pub publish : ℕ → ℕ → FileName → FileName → M W Bool
  publish dir fd temp name =
      perform (os.sys_fsync fd) (λ _. synced fd ∷ []) >>= publish_flushed dir temp name

  unfoldable pub clean_end : Errno → Bool → Option (Unit {0}) → M W (Option (Unit {0}))
  clean_end saved true unlinking = set_errno saved >> pure (some tt)
  clean_end saved false unlinking = refuse saved

  -- From the label `end` on.
  unfoldable pub clean_up : ℕ → ℕ → FileName → Bool → M W (Option (Unit {0}))
  clean_up dir fd temp result = do
    saved ← get_errno
    close os fd
    unlinking ← perform (os.sys_unlinkat dir temp) (λ _. unlinked dir temp ∷ [])
    clean_end saved result unlinking

  unfoldable pub publish_if : ℕ → ℕ → FileName → FileName → Bool → M W Bool
  publish_if dir fd temp name false = pure false
  publish_if dir fd temp name true = publish dir fd temp name

  -- The new content, in the temporary file `fd`.
  unfoldable pub fill_and_publish : ℕ → ℕ → FileName → FileName → List ℕ → M W Bool
  fill_and_publish dir fd temp name text = do
    k ← interrupts_left
    all ← write_rounds (length text + k + 1) fd text
    publish_if dir fd temp name all

  -- What stands at `name` now: nothing, or a file that may be replaced.
  unfoldable pub may_replace : ℕ → FileName → M W (Option (Unit {0}))
  may_replace dir name = do
    stat ← perform (os.sys_fstatat dir name) nothing
    e ← get_errno
    euid ← current_euid os
    elim stat [
      | none ↦ if is_enoent e then pure (some tt) else pure none
      | some st ↦
          if not st.is_reg
            || not (st.uid == euid)
            || not (st.group_other == 0)
            || not (st.nlink == 1)
          then refuse eperm
          else pure (some tt)
    ]

  unfoldable pub write_temp : ℕ → FileName → FileName → List ℕ → Option ℕ → M W (Option (Unit {0}))
  write_temp dir temp name text none = pure none
  write_temp dir temp name text (some fd) =
      fill_and_publish dir fd temp name text >>= clean_up dir fd temp

  unfoldable pub write_named : ℕ → FileName → List ℕ → Option FileName → M W (Option (Unit {0}))
  write_named dir name text none = pure none
  write_named dir name text (some random) =
      perform (os.sys_openat dir (temp_name random) create_excl) (λ fd. opened fd ∷ [])
      >>= write_temp dir (temp_name random) name text

  unfoldable pub replace_file : ℕ → FileName → List ℕ → Option (Unit {0}) → M W (Option (Unit {0}))
  replace_file dir name text none = pure none
  replace_file dir name text (some _) = jfh_random >>= write_named dir name text

  unfoldable pub jfh_atomic : ℕ → FileName → List ℕ → M W (Option (Unit {0}))
  jfh_atomic dir name text = may_replace dir name >>= replace_file dir name text
