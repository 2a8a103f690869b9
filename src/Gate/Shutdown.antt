-- ===== src/Gate/Shutdown.antt =====
-- native/posix.c: once `jf_cleanup` has taken its copy of the table, no other child can start.
use jev_fabric.Base.{ℕ, zero, suc, ◌≡◌, ◌⊎◌, refl, subst, true, List, [], ◌∷◌, inl, inr, set, arith}
use jev_fabric.Os.{Ret}
use jev_fabric.Gate.Defs.{
  Slot, free, reserved, live, Gate, register, launch_child, retire, leave, jf_cleanup, owned,
}
use jev_fabric.Gate.Threads.{System, Step, enter, spawn, reap, exit, shut}

-- Any number of steps.
pub data Steps (s : System) : System → Type 0 where
  stay : Steps s s
  and_then : {t u : System} → Steps s t → Step t u → Steps s u

abbrev pub Among : ℕ → List ℕ → Type 0
Among x [] = ⊥
Among x (y ∷ ys) = (x ≡ y) ⊎ Among x ys

-- `pid` is the process group of a live child in the table.
abbrev pub InTable : ℕ → List Slot → Type 0
InTable pid [] = ⊥
InTable pid (live x ∷ ps) = (pid ≡ x) ⊎ InTable pid ps
InTable pid (_ ∷ ps) = InTable pid ps

abbrev pub Within : List Slot → List Slot → Type 0
Within ps qs = (pid : ℕ) → InTable pid ps → InTable pid qs

-- A slot that is overwritten, not by a live child, adds none.
module _ (p : Slot)
    (nobody : (pid : ℕ) (ps : List Slot) → InTable pid (p ∷ ps) → InTable pid ps) where
  InTable-set : (ps : List Slot) (i pid : ℕ) → InTable pid (set ps i p) → InTable pid ps
  InTable-set [] i pid m = m
  InTable-set (free ∷ ps) zero pid m = nobody pid ps m
  InTable-set (reserved ∷ ps) zero pid m = nobody pid ps m
  InTable-set (live x ∷ ps) zero pid m = inr (nobody pid ps m)
  InTable-set (free ∷ ps) (suc i) pid m = InTable-set ps i pid m
  InTable-set (reserved ∷ ps) (suc i) pid m = InTable-set ps i pid m
  InTable-set (live x ∷ ps) (suc i) pid (inl e) = inl e
  InTable-set (live x ∷ ps) (suc i) pid (inr m) = inr (InTable-set ps i pid m)

-- Every live child of the table is among those that `jf_cleanup` takes.
owned-InTable : (ps : List Slot) (pid : ℕ) → InTable pid ps → Among pid (owned ps)
unfolding owned
owned-InTable [] pid m = m
owned-InTable (free ∷ ps) pid m = owned-InTable ps pid m
owned-InTable (reserved ∷ ps) pid m = owned-InTable ps pid m
owned-InTable (live x ∷ ps) pid (inl e) = inl e
owned-InTable (live x ∷ ps) pid (inr m) = inr (owned-InTable ps pid m)

-- Shut down for good, and with no child that was not there.
abbrev Shrunk : System → System → Type 0
Shrunk s t = (t.gate.shutdown ≡ true) × Within t.gate.pids s.gate.pids

register-shut : (g : Gate) → g.shutdown ≡ true → g ≡ (register g).0
unfolding register
register-shut g h = ground arith

launch_child-shut :
    (g : Gate) (i : ℕ) (answer : Ret ℕ) → g.shutdown ≡ true → g ≡ (launch_child g i answer).0
unfolding launch_child
launch_child-shut g i answer h = ground arith

-- The condition on the gate after a step that leaves it as it was.
unchanged :
    (g g' : Gate) → g.shutdown ≡ true → g ≡ g' → (g'.shutdown ≡ true) × Within g'.pids g.pids
unchanged g g' h e =
    subst (λ (k : Gate). (k.shutdown ≡ true) × Within k.pids g.pids) e (h, λ pid m. m)

Step-Shrunk : {s t : System} → Step s t → s.gate.shutdown ≡ true → Shrunk s t
unfolding retire leave jf_cleanup
Step-Shrunk {s} (enter t e) h = unchanged s.gate _ h (register-shut s.gate h)
Step-Shrunk {s} (spawn t i answer e) h = unchanged s.gate _ h (launch_child-shut s.gate i answer h)
Step-Shrunk {s} (reap t i e) h = (h, InTable-set reserved (λ pid ps m. m) s.gate.pids i)
Step-Shrunk {s} (exit t i e) h = (h, InTable-set free (λ pid ps m. m) s.gate.pids i)
Step-Shrunk shut h = (refl, λ pid m. m)

Steps-Shrunk : {s t : System} → Steps s t → s.gate.shutdown ≡ true → Shrunk s t
Steps-Shrunk stay h = (h, λ pid m. m)
Steps-Shrunk (and_then before st) h =
    let k = Steps-Shrunk before h in
    let l = Step-Shrunk st k.0 in (l.0, λ pid m. k.1 pid (l.1 pid m))

-- However the threads go on after `jf_cleanup`, the gate stays shut, and every live child of the
-- table is among those that `jf_cleanup` took to kill and wait for.
pub jf_cleanup-Within :
    (s : System) {t : System}
    → Steps (record s { gate = (jf_cleanup s.gate).0 }) t
    → (t.gate.shutdown ≡ true)
      × ((pid : ℕ) → InTable pid t.gate.pids → Among pid (jf_cleanup s.gate).1)
unfolding jf_cleanup
jf_cleanup-Within s steps =
    let k = Steps-Shrunk steps refl in (k.0, λ pid m. owned-InTable s.gate.pids pid (k.1 pid m))
