-- ===== src/Host/Files/Atomic.antt =====
-- native/host.c, `jfh_atomic`: a name is only ever given to a file that is written and flushed.
use jev_fabric.Base.{
  ℕ, zero, suc, ◌+◌, ◌<◌, ◌≡◌, ◌⊎◌, inl, inr, Bool, true, false, refl, List, [], ◌∷◌, ◌++◌, Option,
  none, some, arith, ltb, length, length-drop, take, drop, take-append-drop, subst, ap,
  append_assoc, append-nil, sym, ◌∙◌,
}
use jev_fabric.Os.{
  is_eintr, content, content-wrote, content-opened, Errno, Os, IsLawful, Returns-bind, opened,
  closed, wrote, synced, fetched, renamed, unlinked, after, create_excl, FileName, Event, St, pure,
  Returns, Returns-call, Returns-if, close, held, close_first,
}
use jev_fabric.Host.Names.{temp_name}
use jev_fabric.Host.Files.Random.{IsQuiet, Named, jfh_random-Named}
use jev_fabric.Host.Files.Defs.{
  write_next, write_rounds, publish, publish_if, publish_flushed, publish_moved, publish_kept,
  clean_end, clean_up, fill_and_publish, may_replace, write_temp, write_named, replace_file,
  jfh_atomic, jfh_random,
}

-- What a log did to the names of directories: the renamings and the unlinkings.
abbrev pub changes : List Event → List Event
changes [] = []
changes (renamed dir old new ∷ log) = renamed dir old new ∷ changes log
changes (unlinked dir name ∷ log) = unlinked dir name ∷ changes log
changes (_ ∷ log) = changes log

-- The newest event gives `name` to a temporary file that holds `text` and was flushed just before.
abbrev pub Flushed : ℕ → ℕ → FileName → FileName → List ℕ → List Event → Type 0
Flushed dir fd id name text log =
    (base : List Event) × (log ≡ renamed dir (temp_name id) name ∷ synced fd ∷ base)
    × (content fd base ≡ text)

-- After `before`, the file was closed, and its temporary name was unlinked or that failed.
abbrev pub Tidied : ℕ → ℕ → FileName → List Event → List Event → Type 0
Tidied dir fd id before log =
    (log ≡ closed fd ∷ before) ⊎ (log ≡ unlinked dir (temp_name id) ∷ closed fd ∷ before)

-- What `jfh_atomic` leaves, where the changes of names had been `r`. On success, the end of the
-- log gives `name` to the whole flushed text, flushes the directory, and tidies up the temporary
-- name. On -1, no name was changed but for a temporary one that was unlinked; or the end of the log
-- gives `name` to the whole flushed text and tidies up.
abbrev pub Replaced :
    {W : Type 0} → ℕ → FileName → List ℕ → List ℕ → List Event → Option (Unit {0}) → St W → Type 0
Replaced dir name text h r none s =
    (held s.log ≡ some h)
    × (((changes s.log ≡ r) ⊎ ((id : FileName) × (changes s.log ≡ unlinked dir (temp_name id) ∷ r)))
        ⊎ ((fd : ℕ) × (id : FileName) × (log : List Event) × Tidied dir fd id log s.log
            × Flushed dir fd id name text log))
Replaced dir name text h r (some _) s =
    (held s.log ≡ some h)
    × ((fd : ℕ) × (id : FileName) × (log : List Event) × Tidied dir fd id (synced dir ∷ log) s.log
        × Flushed dir fd id name text log)

module _ {W : Type 0} (os : Os W) (law : IsLawful os) where
  -- What stays as it was: the descriptors and the names.
  abbrev Kept : List ℕ → List Event → St W → Type 0
  Kept h r s = (held s.log ≡ some h) × (changes s.log ≡ r)

  module _ (fd : ℕ) (text h : List ℕ) (r : List Event) where
    abbrev Written : Bool → St W → Type 0
    Written true s = Kept (fd ∷ h) r s × (content fd s.log ≡ text)
    Written false s = Kept (fd ∷ h) r s

    -- The file holds all of `text` but `rest`.
    abbrev Writing : List ℕ → St W → Type 0
    Writing rest s = Kept (fd ∷ h) r s × (content fd s.log ++ rest ≡ text)

    Writing-next :
        (rest : List ℕ) (put : ℕ) (s : St W) (w : W)
        → Writing rest s
        → Writing (drop put rest) (record s { world = w; log = wrote fd (take put rest) ∷ s.log })
    Writing-next rest put s w k = (
      k.0,
      rw (content-wrote fd (take put rest) s.log) (
          append_assoc (content fd s.log) (take put rest) (drop put rest)
          ∙ ap (λ t. content fd s.log ++ t) (take-append-drop put rest)
          ∙ k.1),
    )

    write_rounds-Written :
        (fuel : ℕ) (rest : List ℕ) (s : St W)
        → length rest + os.interrupts s.world < fuel
        → Writing rest s
        → Returns (write_rounds os fuel fd rest s) Written
    unfolding write_rounds write_next
    write_rounds-Written zero rest s enough k = absurd (omega arith)
    write_rounds-Written (suc fuel) [] s enough k = (k.0, sym (append-nil _) ∙ k.1)
    write_rounds-Written (suc fuel) (c ∷ cs) s enough k =
        Returns-if (ltb 0 (length (c ∷ cs))) _ _ s Written
          (λ _.
            Returns-call (os.sys_write fd (c ∷ cs)) (λ n. wrote fd (take n (c ∷ cs)) ∷ [])
              (write_next os (write_rounds os fuel fd) (c ∷ cs)) s Written
              (elim [
                | zero ↦ λ eq. (k.0.0, k.0.1)
                | suc n ↦ λ eq.
                    write_rounds-Written fuel (drop n cs) _
                      (ground (arith, law.write_ok fd (suc n) (c ∷ cs) s.world, length-drop n cs))
                      (Writing-next (c ∷ cs) (suc n) s (os.sys_write fd (c ∷ cs) s.world).1 k)
              ])
              (λ x eq.
                Returns-if (is_eintr x) (write_rounds os fuel fd (c ∷ cs)) (pure false) _ Written
                  (λ t.
                    write_rounds-Written fuel (c ∷ cs) _
                      (ground (arith, law.write_eintr fd (c ∷ cs) s.world)) k)
                  (λ _. k.0)))
          (λ f. absurd (ground arith))

  module _ (dir fd : ℕ) (id : FileName) (name text h : List ℕ) (r : List Event) where
    abbrev Published : Bool → St W → Type 0
    Published true s =
        (held s.log ≡ some (fd ∷ h))
        × ((log : List Event) × (s.log ≡ synced dir ∷ log) × Flushed dir fd id name text log)
    Published false s =
        (held s.log ≡ some (fd ∷ h)) × ((changes s.log ≡ r) ⊎ Flushed dir fd id name text s.log)

    publish-Published :
        (s : St W)
        → Written fd text h r true s
        → Returns (publish os dir fd (temp_name id) name s) Published
    unfolding publish publish_flushed publish_moved publish_kept
    publish-Published s k =
        Returns-call (os.sys_fsync fd) (λ _. synced fd ∷ [])
          (publish_flushed os dir (temp_name id) name) s Published
          (λ _ _.
            Returns-call (os.sys_renameat dir (temp_name id) name)
              (λ _. renamed dir (temp_name id) name ∷ []) (publish_moved os dir) _ Published
              (λ _ _.
                Returns-call (os.sys_fsync dir) (λ _. synced dir ∷ []) (publish_kept os) _ Published
                  (λ _ _. (k.0.0, (_, refl, (s.log, refl, k.1))))
                  (λ _ _. (k.0.0, inr (s.log, refl, k.1))))
              (λ _ _. (k.0.0, inl k.0.1)))
          (λ _ _. (k.0.0, inl k.0.1))

    clean_end-Replaced :
        (saved : Errno) (result : Bool) (unlinking : Option (Unit {0})) (s t : St W)
        → Published result s
        → held t.log ≡ some h
        → Tidied dir fd id s.log t.log
        → Returns (clean_end os saved result unlinking t) (Replaced dir name text h r)
    unfolding clean_end
    clean_end-Replaced saved true unlinking s t k e tidy =
        (e, (fd, id, k.1.0, subst (λ l. Tidied dir fd id l t.log) k.1.1 tidy, k.1.2))
    clean_end-Replaced saved false unlinking s t k e tidy = (
      e,
      elim k.1 [
        | inr flushed ↦ inr (fd, id, s.log, tidy, flushed)
        | inl same ↦ inl (elim tidy [
          | inl shut ↦ inl (ap changes shut ∙ same)
          | inr gone ↦ inr (id, ap changes gone ∙ ap (λ l. unlinked dir (temp_name id) ∷ l) same)
        ])
      ],
    )

    Published-held : (result : Bool) (s : St W) → Published result s → held s.log ≡ some (fd ∷ h)
    Published-held true s k = k.0
    Published-held false s k = k.0

    clean_up-Replaced :
        (result : Bool) (s : St W)
        → Published result s
        → Returns (clean_up os dir fd (temp_name id) result s) (Replaced dir name text h r)
    unfolding clean_up close
    clean_up-Replaced result s k =
        Returns-call (os.sys_unlinkat dir (temp_name id)) (λ _. unlinked dir (temp_name id) ∷ [])
          (clean_end os s.errno result) _ (Replaced dir name text h r)
          (λ unlinking _.
            clean_end-Replaced s.errno result (some unlinking) s _ k closed_one (inr refl))
          (λ x _. clean_end-Replaced s.errno result none s _ k closed_one (inl refl))
      where
        closed_one : held (closed fd ∷ s.log) ≡ some h
        closed_one = close_first s.log fd (Published-held result s k)

    fill_and_publish-Published :
        (s : St W)
        → Kept (fd ∷ h) r s
        → content fd s.log ≡ []
        → Returns (fill_and_publish os dir fd (temp_name id) name text s) Published
    unfolding fill_and_publish publish_if
    fill_and_publish-Published s k none_yet =
        Returns-bind (write_rounds os (length text + os.interrupts s.world + 1) fd text)
          (publish_if os dir fd (temp_name id) name) s (Written fd text h r) Published
          (write_rounds-Written fd text h r _ text s (omega arith) (k, rw none_yet))
          (elim [ true ↦ λ s' w. publish-Published s' w | false ↦ λ s' w. (w.0, inl w.1) ])

  module _ (dir : ℕ) (name text h : List ℕ) (r : List Event) where
    write_named-Replaced :
        (id : Option FileName) (s : St W)
        → Kept h r s
        → Returns (write_named os dir name text id s) (Replaced dir name text h r)
    unfolding write_named write_temp
    write_named-Replaced none s k = (k.0, inl (inl k.1))
    write_named-Replaced (some id) s k =
        Returns-call (os.sys_openat dir (temp_name id) create_excl) (λ fd. opened fd ∷ [])
          (write_temp os dir (temp_name id) name text) s (Replaced dir name text h r)
          (λ fd _.
            Returns-bind (fill_and_publish os dir fd (temp_name id) name text)
              (clean_up os dir fd (temp_name id)) _ (Published dir fd id name text h r) _
              (fill_and_publish-Published dir fd id name text h r _
                (ap (after (opened fd)) k.0, k.1) (content-opened fd s.log))
              (λ result s'. clean_up-Replaced dir fd id name text h r result s'))
          (λ x _. (k.0, inl (inl k.1)))

    may_replace-Kept :
        (s : St W) → Kept h r s → Returns (may_replace os dir name s) (λ _ t. Kept h r t)
    unfolding may_replace
    may_replace-Kept s k = grind arith

    changes_past : (e : Event) (log : List Event) → IsQuiet e → changes (e ∷ log) ≡ changes log
    changes_past (opened _) log q = refl
    changes_past (closed _) log q = refl
    changes_past (fetched _ _) log q = refl
    changes_past _ log q = absurd q

    random-Replaced :
        (id : Option FileName) (s : St W)
        → Named changes r h id s
        → Returns (write_named os dir name text id s) (Replaced dir name text h r)
    random-Replaced none s n = write_named-Replaced none s n
    random-Replaced (some id) s n = write_named-Replaced (some id) s (n.0, n.1)

    replace_file-Replaced :
        (free : Option (Unit {0})) (s : St W)
        → Kept h r s
        → Returns (replace_file os dir name text free s) (Replaced dir name text h r)
    unfolding replace_file
    replace_file-Replaced none s k = (k.0, inl (inl k.1))
    replace_file-Replaced (some _) s k =
        Returns-bind (jfh_random os) (write_named os dir name text) s (Named changes r h) _
          (jfh_random-Named os law changes r changes_past h s k.0 k.1)
          (λ id s'. random-Replaced id s')

pub jfh_atomic-Replaced :
    {W : Type 0} (os : Os W) (law : IsLawful os) (dir : ℕ) (name text : List ℕ) (s : St W)
    (h : List ℕ)
    → held s.log ≡ some h
    → Returns (jfh_atomic os dir name text s) (Replaced dir name text h (changes s.log))
unfolding jfh_atomic
jfh_atomic-Replaced os law dir name text s h e =
    Returns-bind (may_replace os dir name) (replace_file os dir name text) s
      (λ _ t. (held t.log ≡ some h) × (changes t.log ≡ changes s.log)) _
      (may_replace-Kept os law dir name text h (changes s.log) s (e, refl))
      (λ free t. replace_file-Replaced os law dir name text h (changes s.log) free t)
