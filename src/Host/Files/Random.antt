-- ===== src/Host/Files/Random.antt =====
-- native/host.c, `jfh_random`.
use jev_fabric.Base.{
  ℕ, zero, suc, ◌+◌, ◌-◌, ◌≤◌, ◌<◌, ◌≡◌, true, refl, List, [], ◌∷◌, ◌++◌, Option, none, some, arith,
  ltb, length, length-append, ap, ◌∙◌,
}
use jev_fabric.Os.{
  is_eintr, Event, closed, Os, IsLawful, Returns-bind, Returns-weaken, opened, after, random_source,
  St, M, ◌>>◌, refuse, fetched, Returns, Returns-call, Returns-if, close, held, close_first,
}
use jev_fabric.Host.Files.Defs.{random_bytes, fill_next, fill, random_end, random_from, jfh_random}
use jev_fabric.Host.Names.{codes, jfh_id, jfh_id-hex_of}

-- What `jfh_random` answers and leaves: a name that `jfh_id` accepts, or -1.
abbrev pub Named : {W A : Type 0} → (List Event → A) → A → List ℕ → Option (List ℕ) → St W → Type 0
Named view v h none s = (held s.log ≡ some h) × (view s.log ≡ v)
Named view v h (some id) s = (held s.log ≡ some h) × (view s.log ≡ v) × (jfh_id id ≡ true)

-- What `jfh_random` may log.
abbrev pub IsQuiet : Event → Type 0
IsQuiet (opened _) = Unit
IsQuiet (closed _) = Unit
IsQuiet (fetched _ _) = Unit
IsQuiet _ = ⊥

-- `view` is any function of the log that looks past such events.
module _ {W A : Type 0} (os : Os W) (law : IsLawful os) (view : List Event → A) (v : A)
    (past : (e : Event) (log : List Event) → IsQuiet e → view (e ∷ log) ≡ view log)
    (h : List ℕ) where
  abbrev Kept : List ℕ → List Event → Type 0
  Kept k log = (held log ≡ some k) × (view log ≡ v)

  abbrev Filled : ℕ → Option (List ℕ) → St W → Type 0
  Filled fd none s = Kept h s.log
  Filled fd (some bytes) s = Kept (fd ∷ h) s.log × (length bytes ≡ random_bytes)

  Kept-close : (fd : ℕ) (log : List Event) → Kept (fd ∷ h) log → Kept h (closed fd ∷ log)
  Kept-close fd log k = (close_first log fd k.0, past (closed fd) log tt ∙ k.1)

  fill_next-Filled :
      (again : List ℕ → M W (Option (List ℕ))) (fd : ℕ) (used : List ℕ) (got : Option (List ℕ))
      (s : St W)
      → Kept (fd ∷ h) s.log
      → (is_eintr s.errno ≡ true → got ≡ none → Returns (again used s) (Filled fd))
      → ((b : ℕ) (bs : List ℕ)
          → got ≡ some (b ∷ bs)
          → Returns (again (used ++ b ∷ bs) s) (Filled fd))
      → Returns (fill_next os again fd used got s) (Filled fd)
  unfolding fill_next close
  fill_next-Filled again fd used none s k retry more =
      Returns-if (is_eintr s.errno) (again used) (close os fd >> refuse s.errno) s (Filled fd)
        (λ t. retry t refl) (λ _. Kept-close fd s.log k)
  fill_next-Filled again fd used (some []) s k retry more = Kept-close fd s.log k
  fill_next-Filled again fd used (some (b ∷ bs)) s k retry more = more b bs refl

  -- With fuel for the bytes still wanted and the interrupts ahead, the loop fills the buffer
  -- exactly, or closes the source and fails.
  fill-Filled :
      (fuel fd : ℕ) (used : List ℕ) (s : St W)
      → length used ≤ random_bytes
      → random_bytes - length used + os.interrupts s.world < fuel
      → Kept (fd ∷ h) s.log
      → Returns (fill os fuel fd used s) (Filled fd)
  unfolding fill
  fill-Filled zero fd used s le enough k = absurd (omega arith)
  fill-Filled (suc fuel) fd used s le enough k =
      Returns-if (ltb (length used) random_bytes) _ _ s (Filled fd)
        (λ more.
          Returns-call (os.sys_read fd wanted) (λ bytes. fetched fd bytes ∷ [])
            (fill_next os (fill os fuel fd) fd used) s (Filled fd)
            (λ bytes eq.
              fill_next-Filled (fill os fuel fd) fd used (some bytes) _
                (k.0, past (fetched fd bytes) s.log tt ∙ k.1) (λ _ n. cc)
                (λ b bs n.
                  fill-Filled fuel fd (used ++ b ∷ bs) _
                    (ground
                      (arith, law.read_ok fd wanted s.world bytes, length-append used (b ∷ bs)))
                    (ground
                      (arith, law.read_ok fd wanted s.world bytes, length-append used (b ∷ bs)))
                    (k.0, past (fetched fd bytes) s.log tt ∙ k.1)))
            (λ x eq.
              fill_next-Filled (fill os fuel fd) fd used none _ k
                (λ t _.
                  fill-Filled fuel fd used _ le (ground (arith, law.read_eintr fd wanted s.world))
                    k)
                (λ b bs n. cc)))
        (λ full. (k, ground arith))
    where
      wanted : ℕ
      wanted = random_bytes - length used

  random_end-Named :
      (fd : ℕ) (bytes : Option (List ℕ)) (s : St W)
      → Filled fd bytes s
      → Returns (random_end os fd bytes s) (Named view v h)
  unfolding random_end close
  random_end-Named fd none s f = f
  random_end-Named fd (some bs) s f =
      let k = Kept-close fd s.log f.0 in (k.0, k.1, jfh_id-hex_of bs f.1)

  -- With lawful reads, `jfh_random` returns, keeps no descriptor, changes nothing in a view of the
  -- log that looks past opening, closing and reading, and what it answers passes `jfh_id`.
  pub jfh_random-Named :
      (s : St W) → held s.log ≡ some h → view s.log ≡ v → Returns (jfh_random os s) (Named view v h)
  unfolding jfh_random random_from
  jfh_random-Named s e q =
      Returns-call (os.sys_open (codes "/dev/urandom") random_source) (λ fd. opened fd ∷ [])
        (random_from os) s (Named view v h)
        (λ fd eq.
          Returns-bind (fill os (random_bytes + os.interrupts _ + 1) fd []) (random_end os fd) _
            (Filled fd) (Named view v h)
            (fill-Filled _ fd [] _ (omega arith) (omega arith)
              (ap (after (opened fd)) e, past (opened fd) s.log tt ∙ q))
            (λ bytes s' f. random_end-Named fd bytes s' f))
        (λ x eq. (e, q))

abbrev blank : List Event → Unit {0}
blank _ = tt

-- The same with nothing else of the log looked at.
pub jfh_random-held :
    {W : Type 0} (os : Os W) (law : IsLawful os) (h : List ℕ) (s : St W)
    → held s.log ≡ some h
    → Returns (jfh_random os s) (λ _ t. held t.log ≡ some h)
jfh_random-held os law h s e =
    Returns-weaken (jfh_random os s) (Named blank tt h) _
      (jfh_random-Named os law blank tt (λ _ _ _. refl) h s e refl)
      (elim [ none ↦ λ t n. n.0 | some id ↦ λ t n. n.0 ])
