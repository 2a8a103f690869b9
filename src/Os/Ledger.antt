-- ===== src/Os/Ledger.antt =====
-- The descriptors that a log leaves open.
use jev_fabric.Base.{ℕ, ◌≡◌, List, [], ◌∷◌, ◌++◌, Option, none, some, ◌==◌, if◌then◌else◌, arith}
use mathlib.Core.Option
use jev_fabric.Os.Defs.{Event, opened, closed, wrote}

-- Take one descriptor out of those held; `none` if it is not among them.
unfoldable pub release : ℕ → List ℕ → Option (List ℕ)
release fd [] = none
release fd (x ∷ xs) = if fd == x then some xs else Option.map (λ r. x ∷ r) (release fd xs)

abbrev pub after : Event → Option (List ℕ) → Option (List ℕ)
after (opened fd) (some h) = some (fd ∷ h)
after (closed fd) (some h) = release fd h
after _ h = h

-- The descriptors that are open after a log, the newest first; `none` once a descriptor was closed
-- that was not open.
abbrev pub held : List Event → Option (List ℕ)
held [] = some []
held (e ∷ log) = after e (held log)

pub release_first : (fd : ℕ) (h : List ℕ) → release fd (fd ∷ h) ≡ some h
unfolding release
release_first fd h = ground arith

pub release_second : (fd x : ℕ) (h : List ℕ) → release fd (x ∷ fd ∷ h) ≡ some (x ∷ h)
unfolding release
release_second fd x h = ground arith

-- Closing the newest descriptor, or the one below it.
pub close_first :
    (log : List Event) (fd : ℕ) {h : List ℕ}
    → held log ≡ some (fd ∷ h)
    → held (closed fd ∷ log) ≡ some h
close_first log fd {h} e = rw e (release_first fd h)

pub close_second :
    (log : List Event) (fd x : ℕ) {h : List ℕ}
    → held log ≡ some (x ∷ fd ∷ h)
    → held (closed fd ∷ log) ≡ some (x ∷ h)
close_second log fd x {h} e = rw e (release_second fd x h)

-- What has been written to a descriptor since it was opened.
abbrev pub content : ℕ → List Event → List ℕ
content fd [] = []
content fd (wrote g bytes ∷ log) = if g == fd then content fd log ++ bytes else content fd log
content fd (opened g ∷ log) = if g == fd then [] else content fd log
content fd (_ ∷ log) = content fd log

pub content-wrote :
    (fd : ℕ) (bytes : List ℕ) (log : List Event)
    → content fd (wrote fd bytes ∷ log) ≡ content fd log ++ bytes
content-wrote fd bytes log = ground arith

pub content-opened : (fd : ℕ) (log : List Event) → content fd (opened fd ∷ log) ≡ []
content-opened fd log = ground arith
