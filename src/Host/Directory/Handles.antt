-- ===== src/Host/Directory/Handles.antt =====
-- native/host.c: the walk holds one directory at a time, and no path leaks or closes twice.
use jev_fabric.Base.{ℕ, ◌≡◌, Bool, List, [], ◌∷◌, Option, none, some, arith, inl, inr, Bool-cases}
use jev_fabric.Os.{
  Os, Event, Stat, examined, St, Returns, Returns-bind, FileName, close, close_failing, held,
  release_first, release_second,
}
use jev_fabric.Host.Directory.Defs.{
  jfh_private, ensure_dir, descend, walk, keep_private, descend_all, open_below, jfh_root, jfh_dir,
}
use jev_fabric.Host.Names.{path_parts, jfh_id}

-- The descriptors held once a function has answered a descriptor or -1.
abbrev pub holding : Option ℕ → List ℕ → List ℕ
holding none h = h
holding (some fd) h = fd ∷ h

module _ {W : Type 0} (os : Os W) where
  pub jfh_private_lem :
      (fd : ℕ) (dir : Bool) (s : St W) {h : List ℕ}
      → held s.log ≡ some h
      → Returns (jfh_private os fd dir s) (λ _ s'. held s'.log ≡ some h)
  unfolding jfh_private
  jfh_private_lem fd dir s e = grind arith

  -- A view of the log that looks past the fstat is unchanged.
  pub jfh_private-keeps :
      {A : Type 0} (view : List Event → A) (fd : ℕ) (dir : Bool) (s : St W)
      → ((st : Stat) → view (examined fd st ∷ s.log) ≡ view s.log)
      → Returns (jfh_private os fd dir s) (λ _ s'. view s'.log ≡ view s.log)
  unfolding jfh_private
  jfh_private-keeps view fd dir s past = grind arith

  descend-held :
      (fd : ℕ) (part : FileName) (s : St W) {h : List ℕ}
      → held s.log ≡ some (fd ∷ h)
      → Returns (descend os fd part s) (λ r s'. held s'.log ≡ some (holding r h))
  unfolding descend ensure_dir close close_failing
  descend-held fd part s e = grind (arith, release_first, release_second)

  walk-held :
      (parts : List FileName) (fd : ℕ) (s : St W) {h : List ℕ}
      → held s.log ≡ some (fd ∷ h)
      → Returns (walk os parts fd s) (λ r s'. held s'.log ≡ some (holding r h))
  unfolding walk
  walk-held [] fd s e = e
  walk-held (part ∷ parts) fd s {h} e =
      Returns-bind (descend os fd part) _ s (λ r s'. held s'.log ≡ some (holding r h)) _
        (descend-held fd part s e)
        (elim [ none ↦ λ s' e'. e' | some new ↦ λ s' e'. walk-held parts new s' e' ])

  keep_private-held :
      (fd : ℕ) (s : St W) {h : List ℕ}
      → held s.log ≡ some (fd ∷ h)
      → Returns (keep_private os fd s) (λ r s'. held s'.log ≡ some (holding r h))
  unfolding keep_private jfh_private close close_failing
  keep_private-held fd s e = grind (arith, release_first)

  open_root-held :
      (path : FileName) (fd : ℕ) (s : St W) {h : List ℕ}
      → held s.log ≡ some (fd ∷ h)
      → Returns (descend_all os path fd s) (λ r s'. held s'.log ≡ some (holding r h))
  unfolding descend_all
  open_root-held path fd s {h} e =
      Returns-bind (walk os (path_parts path) fd) _ s (λ r s'. held s'.log ≡ some (holding r h)) _
        (walk-held (path_parts path) fd s e)
        (elim [ none ↦ λ s' e'. e' | some root ↦ λ s' e'. keep_private-held root s' e' ])

  -- Whatever the file system answers, `jfh_root` returns with the one descriptor that it answers,
  -- or with none if it answers -1.
  pub jfh_root-held :
      (s : St W) {h : List ℕ}
      → held s.log ≡ some h
      → Returns (jfh_root os s) (λ r s'. held s'.log ≡ some (holding r h))
  unfolding jfh_root
  jfh_root-held s e = grind (arith, open_root-held)

  after_open-held :
      (root : ℕ) (id : FileName) (s : St W) {h : List ℕ}
      → held s.log ≡ some (root ∷ h)
      → Returns (open_below os root id s) (λ r s'. held s'.log ≡ some (holding r h))
  unfolding open_below close
  after_open-held root id s e = grind (arith, release_first, release_second, keep_private-held)

  -- Whatever the file system answers, `jfh_dir` returns with the one descriptor that it answers, or
  -- with none if it answers -1; the root directory is closed in every case.
  pub jfh_dir-held :
      (id : FileName) (s : St W) {h : List ℕ}
      → held s.log ≡ some h
      → Returns (jfh_dir os id s) (λ r s'. held s'.log ≡ some (holding r h))
  unfolding jfh_dir
  jfh_dir-held id s {h} e = elim (Bool-cases (jfh_id id)) [
    | inl good ↦ rw good (
        Returns-bind (jfh_root os) _ s (λ r s'. held s'.log ≡ some (holding r h)) _
          (jfh_root-held s e)
          (elim [ none ↦ λ s' e'. e' | some root ↦ λ s' e'. after_open-held root id s' e' ]))
    | inr bad ↦ rw bad e
  ]
