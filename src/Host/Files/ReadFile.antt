-- ===== src/Host/Files/ReadFile.antt =====
-- native/host.c, `jfh_read_file`: the whole of a bounded private file, or an error.
use jev_fabric.Base.{
  ℕ, zero, suc, ◌+◌, ◌-◌, ◌≤◌, ◌<◌, ◌≡◌, ◌⊎◌, inl, inr, Bool, true, false, refl, List, [], ◌∷◌,
  ◌++◌, Option, none, some, arith, ltb, leb, length, length-append, ap, append_assoc, append-nil,
  sym, ◌∙◌,
}
use jev_fabric.Os.{
  is_eintr, Os, IsLawful, Returns-bind, opened, closed, examined, after, read_only_nonblock,
  FileName, Event, Stat, St, M, ◌>>=◌, ◌>>◌, refuse, fetched, Returns, Returns-call, Returns-if,
  close, close_failing, held, close_first, perform, nothing, efbig, pure,
}
use jev_fabric.Host.Directory.{jfh_private, jfh_private-keeps}
use jev_fabric.Host.Files.Defs.{
  is_enoent, read_next, read_rounds, read_end, read_into, read_sized, read_checked, read_opened,
  jfh_read_file,
}

-- What all reads of a log answered, the oldest first.
abbrev pub fetches : List Event → List ℕ
fetches [] = []
fetches (fetched fd bytes ∷ log) = fetches log ++ bytes
fetches (_ ∷ log) = fetches log

-- The last read found the end of the file.
abbrev pub ended : List Event → Bool
ended (closed _ ∷ log) = ended log
ended (fetched _ [] ∷ log) = true
ended _ = false

-- `some none` is a missing file; a text is the concatenation of the reads up to the end.
abbrev pub Loaded : {W : Type 0} → ℕ → List ℕ → List ℕ → Option (Option (List ℕ)) → St W → Type 0
Loaded limit before h none s = held s.log ≡ some h
Loaded limit before h (some none) s = held s.log ≡ some h
Loaded limit before h (some (some text)) s =
    (held s.log ≡ some h)
    × (length text ≤ limit)
    × (fetches s.log ≡ before ++ text)
    × (ended s.log ≡ true)

-- What the check of the file's mode leaves alone.
abbrev both : List Event → Option (List ℕ) × List ℕ
both log = (held log, fetches log)

module _ {W : Type 0} (os : Os W) (law : IsLawful os) (limit : ℕ) (before : List ℕ)
    (h : List ℕ) where
  abbrev Read : ℕ → Option (List ℕ) → St W → Type 0
  Read fd none s = held s.log ≡ some h
  Read fd (some used) s =
      (held s.log ≡ some (fd ∷ h))
      × (length used ≤ limit + 1)
      × (fetches s.log ≡ before ++ used)
      × ((limit < length used) ⊎ (ended s.log ≡ true))

  read_next-Read :
      (again : List ℕ → M W (Option (List ℕ))) (fd : ℕ) (used : List ℕ) (s : St W) (w : W)
      (log : List Event)
      → length used ≤ limit
      → held log ≡ some (fd ∷ h)
      → fetches log ≡ before ++ used
      → (got : List ℕ)
      → ((b : ℕ) (bs : List ℕ)
          → got ≡ b ∷ bs
          → Returns
              (again (used ++ b ∷ bs) (record s { world = w; log = fetched fd got ∷ log }))
              (Read fd))
      → Returns
          (read_next os again fd used
            (some got)
            (record s { world = w; log = fetched fd got ∷ log }))
          (Read fd)
  unfolding read_next
  read_next-Read again fd used s w log le e f [] more = (e, omega arith, rw append-nil f, inr refl)
  read_next-Read again fd used s w log le e f (b ∷ bs) more = more b bs refl

  read_rounds-Read :
      (fuel fd : ℕ) (used : List ℕ) (s : St W)
      → length used ≤ limit + 1
      → limit + 1 - length used + os.interrupts s.world < fuel
      → held s.log ≡ some (fd ∷ h)
      → fetches s.log ≡ before ++ used
      → Returns (read_rounds os fuel fd limit used s) (Read fd)
  unfolding read_rounds read_next close_failing
  read_rounds-Read zero fd used s le enough e f = absurd (omega arith)
  read_rounds-Read (suc fuel) fd used s le enough e f =
      Returns-if (leb (length used) limit) _ _ s (Read fd)
        (λ more.
          Returns-call (os.sys_read fd wanted) (λ bytes. fetched fd bytes ∷ [])
            (read_next os again fd used) s (Read fd)
            (λ bytes eq. read_next-Read again fd used s _ s.log (ground arith) e f bytes (λ b bs n.
              read_rounds-Read fuel fd (used ++ b ∷ bs) _
                (ground (arith, law.read_ok fd wanted s.world bytes, length-append used (b ∷ bs)))
                (ground (arith, law.read_ok fd wanted s.world bytes, length-append used (b ∷ bs))) e
                (rw f (rw n (append_assoc before used (b ∷ bs))))))
            (λ x eq.
              Returns-if (is_eintr x) (again used) (close_failing os fd) _ (Read fd)
                (λ t.
                  read_rounds-Read fuel fd used _ le
                    (ground (arith, law.read_eintr fd wanted s.world)) e f)
                (λ _. close_first s.log fd e)))
        (λ full. (e, le, f, inl (ground arith)))
    where
      wanted : ℕ
      wanted = limit + 1 - length used

      again : List ℕ → M W (Option (List ℕ))
      again = read_rounds os fuel fd limit

  read_end-Loaded :
      (fd : ℕ) (got : Option (List ℕ)) (s : St W)
      → Read fd got s
      → Returns (read_end os fd limit got s) (Loaded limit before h)
  unfolding read_end close
  read_end-Loaded fd none s r = r
  read_end-Loaded fd (some used) s r =
      Returns-if (ltb limit (length used)) (refuse efbig) (pure (some (some used))) _
        (Loaded limit before h) (λ big. close_first s.log fd r.0)
        (λ small. (close_first s.log fd r.0, ground arith, r.2, ground arith))

  -- The file `fd` is open, and nothing of it has been read.
  abbrev AtStart : ℕ → St W → Type 0
  AtStart fd s = (held s.log ≡ some (fd ∷ h)) × (fetches s.log ≡ before)

  read_into-Loaded :
      (fd : ℕ) (text : Option (Unit {0})) (s : St W)
      → AtStart fd s
      → Returns (read_into os fd limit text s) (Loaded limit before h)
  unfolding read_into close
  read_into-Loaded fd none s a = close_first s.log fd a.0
  read_into-Loaded fd (some _) s a =
      Returns-bind (read_rounds os (limit + os.interrupts s.world + 2) fd limit [])
        (read_end os fd limit) s (Read fd) (Loaded limit before h)
        (read_rounds-Read _ fd [] s (omega arith) (omega arith) a.0 (a.1 ∙ sym (append-nil before)))
        (λ got s'. read_end-Loaded fd got s')

  read_sized-Loaded :
      (fd : ℕ) (stat : Option Stat) (s : St W)
      → AtStart fd s
      → Returns (read_sized os fd limit stat s) (Loaded limit before h)
  unfolding read_sized close close_failing
  read_sized-Loaded fd none s a = close_first s.log fd a.0
  read_sized-Loaded fd (some st) s a =
      Returns-if (ltb limit st.size) (close os fd >> refuse efbig)
        (perform (os.sys_malloc (limit + 1)) nothing >>= read_into os fd limit) s
        (Loaded limit before h) (λ big. close_first s.log fd a.0)
        (λ fits.
          Returns-call (os.sys_malloc (limit + 1)) nothing (read_into os fd limit) s
            (Loaded limit before h) (λ _ eq. read_into-Loaded fd (some tt) _ a)
            (λ x eq. read_into-Loaded fd none _ a))

  read_checked-Loaded :
      (fd : ℕ) (checked : Option (Unit {0})) (s : St W)
      → AtStart fd s
      → Returns (read_checked os fd limit checked s) (Loaded limit before h)
  unfolding read_checked close_failing
  read_checked-Loaded fd none s a = close_first s.log fd a.0
  read_checked-Loaded fd (some _) s a =
      Returns-call (os.sys_fstat fd) (λ st. examined fd st ∷ []) (read_sized os fd limit) s
        (Loaded limit before h) (λ st eq. read_sized-Loaded fd (some st) _ a)
        (λ x eq. read_sized-Loaded fd none _ a)

  read_opened-Loaded :
      (fd : ℕ) (s : St W)
      → AtStart fd s
      → Returns (read_opened os limit (some fd) s) (Loaded limit before h)
  unfolding read_opened
  read_opened-Loaded fd s a =
      Returns-bind (jfh_private os fd false) (read_checked os fd limit) s
        (λ _ s'. both s'.log ≡ both s.log) (Loaded limit before h)
        (jfh_private-keeps os both fd false s (λ st. refl))
        (λ checked s' k.
          read_checked-Loaded fd checked s' (ap (λ p. p.0) k ∙ a.0, ap (λ p. p.1) k ∙ a.1))

-- With lawful reads, `jfh_read_file` returns and keeps no descriptor; a text that it answers is at
-- most `limit` bytes long, and is the concatenation of all that it read, up to the end of the file.
pub jfh_read_file-Loaded :
    {W : Type 0} (os : Os W) (law : IsLawful os) (dir : ℕ) (name : FileName) (limit : ℕ) (s : St W)
    (h : List ℕ)
    → held s.log ≡ some h
    → Returns (jfh_read_file os dir name limit s) (Loaded limit (fetches s.log) h)
unfolding jfh_read_file read_opened
jfh_read_file-Loaded os law dir name limit s h e =
    Returns-call (os.sys_openat dir name read_only_nonblock) (λ fd. opened fd ∷ [])
      (read_opened os limit) s (Loaded limit (fetches s.log) h)
      (λ fd eq.
        read_opened-Loaded os law limit (fetches s.log) h fd _ (ap (after (opened fd)) e, refl))
      (λ x eq.
        Returns-if (is_enoent x) (pure (some none)) (pure none) _ (Loaded limit (fetches s.log) h)
          (λ _. e) (λ _. e))
