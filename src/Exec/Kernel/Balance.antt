-- ===== src/Exec/Kernel/Balance.antt =====
-- Which descriptors, children and slots a log leaves behind.
use jev_fabric.Base.{
  zero, suc, ◌<◌, ◌%◌, ◌^◌, ◌++◌, refl, true, false, Bool, length, get_or, set, ℕ, ◌+◌, ◌≡◌, ◌∙◌,
  List, [], ◌∷◌, Option, none, some, ◌==◌, if◌then◌else◌, ◌||◌, arith, inl, inr, Bool-cases,
}
use mathlib.Core.Option
use jev_fabric.Os.{
  ExitStatus, Event, opened, closed, launched, reaped, gone, gate_set, held, release, release_first,
}
use jev_fabric.Gate.{Gate, Slot, free, reserved, live, max_jobs, leave}
use jev_fabric.Exec.Kernel.Defs.{same_slot, same_all, same_but, is_free, gate_events}

-- How often `x` stands in a list.
abbrev pub count : ℕ → List ℕ → ℕ
count x [] = 0
count x (y ∷ ys) = (if y == x then 1 else 0) + count x ys

abbrev pub one : Option ℕ → ℕ → ℕ
one none x = 0
one (some fd) x = if fd == x then 1 else 0

-- Each descriptor is open as often as the function says, and none was closed that was not open.
abbrev pub Holds : List Event → (ℕ → ℕ) → Type 0
Holds log often = (k : List ℕ) × (held log ≡ some k) × ((x : ℕ) → count x k ≡ often x)

release-count :
    (fd : ℕ) (k : List ℕ)
    → 0 < count fd k
    → (r : List ℕ) × (release fd k ≡ some r) × ((x : ℕ) → count x k ≡ one (some fd) x + count x r)
unfolding release
release-count fd [] h = absurd (omega arith)
release-count fd (y ∷ ys) h = elim (Bool-cases (fd == y)) [
  | inl same ↦ (ys, rw same, λ x. ground (arith, same))
  | inr other ↦
      let (r, e, c) = release-count fd ys (ground (arith, other)) in
      (y ∷ r, rw (other, e), λ x. omega (arith, c x))
]

-- The ledger of an opened descriptor, of a closed one, and under another reading.
pub Holds-opened :
    (log : List Event) (fd : ℕ) (often : ℕ → ℕ)
    → Holds log often
    → Holds (opened fd ∷ log) (λ x. one (some fd) x + often x)
Holds-opened log fd often (k, e, c) = (fd ∷ k, rw e, λ x. omega (arith, c x))

pub Holds-closed :
    (log : List Event) (fd : ℕ) (often rest : ℕ → ℕ)
    → Holds log often
    → ((x : ℕ) → often x ≡ one (some fd) x + rest x)
    → Holds (closed fd ∷ log) rest
Holds-closed log fd often rest (k, e, c) split =
    let (r, f, d) = release-count fd k (ground (arith, c fd, split fd)) in
    (r, rw e f, λ x. omega (arith, c x, d x, split x))

pub Holds-same :
    (log : List Event) (often rest : ℕ → ℕ)
    → Holds log often
    → ((x : ℕ) → often x ≡ rest x)
    → Holds log rest
Holds-same log often rest (k, e, c) same = (k, e, λ x. omega (arith, c x, same x))

-- A child that was launched: it runs, or it was reaped with this status.
pub data Child : Type 0 where
  alive : ℕ → Child
  ended : ℕ → ExitStatus → Child

-- Give a running child another fate, where `none` is that waitpid knows nothing of it; `none` if no
-- such child runs.
abbrev pub settle_child : ℕ → Option ExitStatus → List Child → Option (List Child)
settle_child pid fate [] = none
settle_child pid fate (ended p status ∷ cs) =
    Option.map (λ r. ended p status ∷ r) (settle_child pid fate cs)
settle_child pid fate (alive p ∷ cs) =
    if p == pid
    then some (elim fate [ none ↦ cs | some status ↦ ended pid status ∷ cs ])
    else Option.map (λ r. alive p ∷ r) (settle_child pid fate cs)

abbrev pub child_after : Event → Option (List Child) → Option (List Child)
child_after (launched pid) (some h) = some (alive pid ∷ h)
child_after (reaped pid status) (some h) = settle_child pid (some status) h
child_after (gone pid) (some h) = settle_child pid none h
child_after _ h = h

-- The children that a log has launched, the newest first; `none` once one was reaped that did not
-- run.
abbrev pub children : List Event → Option (List Child)
children [] = some []
children (e ∷ log) = child_after e (children log)

pub reaped_first :
    (pid : ℕ) (status : ExitStatus) (a : List Child)
    → settle_child pid (some status) (alive pid ∷ a) ≡ some (ended pid status ∷ a)
reaped_first pid status a = ground arith

pub gone_first : (pid : ℕ) (a : List Child) → settle_child pid none (alive pid ∷ a) ≡ some a
gone_first pid a = ground arith

abbrev has : ℕ → List ℕ → Bool
has x [] = false
has x (y ∷ ys) = y == x || has x ys

-- A write that neither takes a slot nor gives it back is about a slot that was taken.
abbrev changed_slot : ℕ → List ℕ → Option (List ℕ)
changed_slot slot h = if has slot h then some h else none

-- A slot is given back by freeing it and counting one job less, and taken by filling it and
-- counting one more.
abbrev pub table_change : Bool → ℕ → ℕ → ℕ → List ℕ → Option (List ℕ)
table_change true slot before now h =
    if (now + 1) % 2 ^ 32 == before % 2 ^ 32 then release slot h else changed_slot slot h
table_change false slot before now h =
    if now == before + 1 then some (slot ∷ h) else changed_slot slot h

abbrev pub slot_after : Event → Option (List ℕ) → Option (List ℕ)
slot_after (gate_set slot true is_free before now) (some h) = table_change is_free slot before now h
slot_after (gate_set slot false is_free before now) (some h) = none
slot_after _ h = h

-- The slots that a log has taken and not given back; `none` once a slot was given back that was not
-- taken, a write about one slot changed another, or a slot that was
-- not taken was changed.
abbrev pub taken_slots : List Event → Option (List ℕ)
taken_slots [] = some []
taken_slots (e ∷ log) = slot_after e (taken_slots log)

-- All three.
abbrev pub ledgers : List Event → Option (List ℕ) × Option (List Child) × Option (List ℕ)
ledgers log = (held log, children log, taken_slots log)

pub Holds-held :
    (log log' : List Event) (often : ℕ → ℕ)
    → held log' ≡ held log
    → Holds log often
    → Holds log' often
Holds-held log log' often same (k, e, c) = (k, same ∙ e, c)

same_slot_refl : (p : Slot) → same_slot p p ≡ true
same_slot_refl free = refl
same_slot_refl reserved = refl
same_slot_refl (live a) = ground arith

same_all_refl : (ps : List Slot) → same_all ps ps ≡ true
same_all_refl [] = refl
same_all_refl (p ∷ ps) = rw (same_slot_refl p, same_all_refl ps) refl

pub same_but_refl : (i : ℕ) (ps : List Slot) → same_but i ps ps ≡ true
same_but_refl zero [] = refl
same_but_refl (suc i) [] = refl
same_but_refl zero (p ∷ ps) = same_all_refl ps
same_but_refl (suc i) (p ∷ ps) = rw (same_slot_refl p, same_but_refl i ps) refl

pub same_but-set : (i : ℕ) (ps : List Slot) (p : Slot) → same_but i ps (set ps i p) ≡ true
same_but-set zero [] p = refl
same_but-set (suc i) [] p = refl
same_but-set zero (q ∷ ps) p = same_all_refl ps
same_but-set (suc i) (q ∷ ps) p = rw (same_slot_refl q, same_but-set i ps p) refl

pub freed_slot : (i : ℕ) (ps : List Slot) → get_or (set ps i free) i free ≡ free
freed_slot zero [] = refl
freed_slot (suc i) [] = refl
freed_slot zero (q ∷ ps) = refl
freed_slot (suc i) (q ∷ ps) = freed_slot i ps

pub filled_slot :
    (i : ℕ) (ps : List Slot) → i < length ps → get_or (set ps i reserved) i free ≡ reserved
filled_slot i [] h = absurd (omega arith)
filled_slot zero (q ∷ ps) h = refl
filled_slot (suc i) (q ∷ ps) h = filled_slot i ps (omega arith)

table_change-kept :
    (is_free : Bool) (slot jobs : ℕ) (h : List ℕ)
    → table_change is_free slot jobs jobs (slot ∷ h) ≡ some (slot ∷ h)
table_change-kept true slot jobs h = ground arith
table_change-kept false slot jobs h = ground arith

-- The writes of the four critical sections.
module _ (t : Gate) (slot : ℕ) (log : List Event) (h : List ℕ) where
  pub slot-kept :
      (t' : Gate)
      → same_but slot t.pids t'.pids ≡ true
      → t'.jobs ≡ t.jobs
      → taken_slots log ≡ some (slot ∷ h)
      → taken_slots (gate_events (some slot) t t' ++ log) ≡ some (slot ∷ h)
  slot-kept t' same jobs e =
      rw (e, same, jobs) (table_change-kept (is_free (get_or t'.pids slot free)) slot t.jobs h)

  pub slot-left :
      taken_slots log ≡ some (slot ∷ h)
      → taken_slots (gate_events (some slot) t (leave t slot) ++ log) ≡ some h
  unfolding leave
  slot-left e =
      rw (e, same_but-set slot t.pids free, freed_slot slot t.pids)
        (ground (arith, release_first slot h))

  pub slot-entered :
      slot < length t.pids
      → t.jobs < max_jobs
      → taken_slots log ≡ some h
      → taken_slots (
          gate_events
            (some slot)
            t
            (record t { jobs = (t.jobs + 1) % 2 ^ 32; pids = set t.pids slot reserved })
          ++ log)
        ≡ some (slot ∷ h)
  slot-entered room few e =
      rw (e, same_but-set slot t.pids reserved, filled_slot slot t.pids room) (ground (arith, few))
