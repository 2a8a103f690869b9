-- ===== src/Host/Directory/Defs.antt =====
-- native/host.c: `jfh_private`, `jfh_root` and `jfh_dir`.
use jev_fabric.Base.{
  ℕ, Bool, true, false, ◌&&◌, ◌||◌, not, List, [], ◌∷◌, Option, none, some, leb, ◌==◌,
  if◌then◌else◌, length, get_or,
}
use jev_fabric.Os.{
  Errno, eexist, einval, eperm, Stat, directory, FileName, opened, made, examined, Os, M, ◌>>=◌,
  ◌>>◌, pure, perform, get_errno, refuse, close, close_failing,
}
use jev_fabric.Host.Names.{codes, jfh_id, path_parts, is_dots}

-- Owned by us, nothing for group and others, and of the right type.
unfoldable pub is_private : Stat → Bool → ℕ → Bool
is_private s dir euid =
    let right_type = if dir then s.is_dir else s.is_reg && s.nlink == 1 in
    not (not (s.uid == euid) || not (s.group_other == 0) || not right_type)

abbrev pub is_eexist : Errno → Bool
is_eexist eexist = true
is_eexist _ = false

module _ {W : Type 0} (os : Os W) where
  abbrev pub current_euid : M W ℕ
  current_euid s = some (os.euid s.world, s)

  unfoldable pub jfh_private : ℕ → Bool → M W (Option (Unit {0}))
  jfh_private fd dir = do
    stat ← perform (os.sys_fstat fd) (λ st. examined fd st ∷ [])
    elim stat [
      | none ↦ pure none
      | some st ↦ do
        euid ← current_euid
        if is_private st dir euid then pure (some tt) else refuse eperm
    ]

  abbrev pub open_dir : ℕ → FileName → M W (Option ℕ)
  open_dir dir name = perform (os.sys_openat dir name directory) (λ fd. opened fd ∷ [])

  -- mkdirat(fd, part, 0700) < 0 && errno != EEXIST, answered by `none`.
  unfoldable pub ensure_dir : ℕ → FileName → M W (Option (Unit {0}))
  ensure_dir fd part = do
    new ← perform (os.sys_mkdirat fd part) (λ _. made fd part ∷ [])
    elim new [
      | some _ ↦ pure (some tt)
      | none ↦ do e ← get_errno; if is_eexist e then pure (some tt) else pure none
    ]

  -- One round of the loop over the path's parts: the next directory, with `fd` closed.
  unfoldable pub descend : ℕ → FileName → M W (Option ℕ)
  descend fd part = if is_dots part then close os fd >> refuse einval else do
    there ← ensure_dir fd part
    elim there [
      | none ↦ close_failing os fd
      | some _ ↦ do
        next ← open_dir fd part
        saved ← get_errno
        close os fd
        elim next [ none ↦ refuse saved | some new ↦ pure (some new) ]
    ]

  unfoldable pub walk : List FileName → ℕ → M W (Option ℕ)
  walk [] fd = pure (some fd)
  walk (part ∷ parts) fd = do
    next ← descend fd part
    elim next [ none ↦ pure none | some new ↦ walk parts new ]

  -- if (jfh_private(fd, 1) < 0) { saved = errno; close(fd); ... }
  unfoldable pub keep_private : ℕ → M W (Option ℕ)
  keep_private fd = do
    checked ← jfh_private fd true
    elim checked [ none ↦ close_failing os fd | some _ ↦ pure (some fd) ]

  abbrev root_path : M W FileName
  root_path s = some (elim (os.home s.world) [ some p ↦ p | none ↦ codes ".jev-fabric-native" ], s)

  -- The loop, and the check of the directory that it ends in.
  unfoldable pub descend_all : FileName → ℕ → M W (Option ℕ)
  descend_all path fd = do
    last ← walk (path_parts path) fd
    elim last [ none ↦ pure none | some root ↦ keep_private root ]

  unfoldable pub jfh_root : M W (Option ℕ)
  jfh_root = do
    path ← root_path
    if length path == 0 || leb os.path_max (length path) then refuse einval else do
      start ←
          perform (os.sys_open (if get_or path 0 0 == b'/' then codes "/" else codes ".") directory)
            (λ fd. opened fd ∷ [])
      elim start [ none ↦ pure none | some fd ↦ descend_all path fd ]

  -- openat(root, id, ...), and `root` closed.
  unfoldable pub open_below : ℕ → FileName → M W (Option ℕ)
  open_below root id = do
    fd ← open_dir root id
    saved ← get_errno
    close os root
    elim fd [ none ↦ refuse saved | some new ↦ keep_private new ]

  unfoldable pub jfh_dir : FileName → M W (Option ℕ)
  jfh_dir id =
      if not (jfh_id id)
      then refuse einval
      else do found ← jfh_root; elim found [ none ↦ pure none | some root ↦ open_below root id ]
