-- ===== src/Exec/Kernel/Defs.antt =====
-- The system calls of `jf_exec_call`, with the clock, the interrupt flag and the gate that the
-- threads share. Between two calls of one thread the world may change in any way, which stands for
-- the other threads and for the child.
use jev_fabric.Base.{
  zero, suc, ◌++◌, [], ◌&&◌, ◌==◌, get_or, ℕ, ◌+◌, ◌≤◌, ◌<◌, ◌≡◌, ◌⊎◌, Bool, true, false, List, ◌∷◌,
  Option, none, some, arith,
}
use jev_fabric.Os.{
  gate_set, settle, ExitStatus, Errno, eintr, is_eintr, Ret, ok, fail, FileName, Event, Os,
  IsLawful, M,
}
use jev_fabric.Gate.{Gate, Slot, free, reserved, live}

-- The calls that prepare posix_spawnp, in the words of the source.
pub data Setup : Type 0 where
  actions_init attr_init set_group default_signals set_flags : Setup
  adddup2 : Option ℕ → ℕ → Setup

-- `revents` of the three entries of `fds`, each as a truth value.
pub record Ready : Type 0 where
  pub out_ready : Bool
  pub err_ready : Bool
  pub in_ready : Bool

pub record Kernel (W : Type 0) : Type 0 where
  pub os : Os W
  pub sys_setup : Setup → W → Ret (Unit {0}) × W
  pub sys_spawnp : List FileName → W → Ret ℕ × W
  -- fcntl(fd, F_SETFL, O_NONBLOCK)
  pub sys_nonblock : ℕ → W → Ret (Unit {0}) × W
  -- io_tick: nanoseconds.
  pub sys_tick : W → ℕ × W
  -- A load of `jf_interrupt`.
  pub sys_interrupt : W → ℕ × W
  -- kill(-pid, SIGKILL)
  pub sys_kill : ℕ → W → Ret (Unit {0}) × W
  -- waitpid with WNOHANG; `ok none` is 0, `ok (some status)` is the pid.
  pub sys_waitpid : ℕ → W → Ret (Option ExitStatus) × W
  -- waitpid without it; `none` is a call that waits for ever.
  pub sys_wait : ℕ → W → Option (Ret ExitStatus × W)
  pub sys_poll : Option ℕ → Option ℕ → Option ℕ → W → Ret Ready × W
  pub gate : W → Gate
  pub set_gate : Gate → W → W
  -- What `io_tick` reads, and the time by which a killed child will have ended.
  pub clock : W → ℕ
  pub dies_by : ℕ → W → Option ℕ

-- One world comes after another: the clock has not gone back, and a child that is to end by some
-- time still is.
pub record Later {W : Type 0} (k : Kernel W) (w w' : W) : Type 0 where
  pub ticks : k.clock w ≤ k.clock w'
  pub doomed : (pid d : ℕ) → k.dies_by pid w ≡ some d → k.dies_by pid w' ≡ some d

-- What the loops rely on, with `patience` the nanoseconds that a killed child may take to end. The
-- clock is monotonic and moves on in a poll; a kill of an owned child takes effect; waitpid on a
-- child that has ended does not say "not yet" or EINTR; a blocking waitpid answers in the end for a
-- child that was killed, of which nothing is said otherwise, and is not interrupted for ever.
pub record IsLive {W : Type 0} (k : Kernel W) (patience : ℕ) : Type 0 where
  pub lawful : IsLawful k.os
  pub read_later : (fd n : ℕ) (w : W) → Later k w (k.os.sys_read fd n w).1
  pub write_later : (fd : ℕ) (bytes : List ℕ) (w : W) → Later k w (k.os.sys_write fd bytes w).1
  pub close_later : (fd : ℕ) (w : W) → Later k w (k.os.sys_close fd w).1
  pub tick_later : (w : W) → Later k w (k.sys_tick w).1
  pub tick_between :
      (w : W) → (k.clock w ≤ (k.sys_tick w).0) × ((k.sys_tick w).0 ≤ k.clock (k.sys_tick w).1)
  pub interrupt_later : (w : W) → Later k w (k.sys_interrupt w).1
  pub gate_later : (g : Gate) (w : W) → Later k w (k.set_gate g w)
  pub kill_later : (pid : ℕ) (w : W) → Later k w (k.sys_kill pid w).1
  pub kill_works :
      (pid : ℕ) (w : W)
      → (d : ℕ) × (k.dies_by pid (k.sys_kill pid w).1 ≡ some d)
        × (d ≤ k.clock (k.sys_kill pid w).1 + patience)
  pub wait_later : (pid : ℕ) (w : W) → Later k w (k.sys_waitpid pid w).1
  pub wait_ended :
      (pid d : ℕ) (w : W)
      → k.dies_by pid w ≡ some d
      → d ≤ k.clock w
      → ((status : ExitStatus) × ((k.sys_waitpid pid w).0 ≡ ok (some status)))
        ⊎ ((e : Errno) × ((k.sys_waitpid pid w).0 ≡ fail e) × (is_eintr e ≡ false))
  pub wait_answers : (pid d : ℕ) (w : W) → k.dies_by pid w ≡ some d → k.sys_wait pid w ≡ none → ⊥
  pub wait_passes :
      (pid : ℕ) (w w' : W) (answer : Ret ExitStatus)
      → k.sys_wait pid w ≡ some (answer, w')
      → Later k w w'
  pub wait_eintr :
      (pid : ℕ) (w w' : W)
      → k.sys_wait pid w ≡ some (fail eintr, w')
      → k.os.interrupts w' < k.os.interrupts w
  pub poll_later : (a b c : Option ℕ) (w : W) → Later k w (k.sys_poll a b c w).1
  pub poll_ticks : (a b c : Option ℕ) (w : W) → k.clock w < k.clock (k.sys_poll a b c w).1

abbrev pub same_slot : Slot → Slot → Bool
same_slot free free = true
same_slot reserved reserved = true
same_slot (live a) (live b) = a == b
same_slot _ _ = false

abbrev pub same_all : List Slot → List Slot → Bool
same_all [] [] = true
same_all (p ∷ ps) (q ∷ qs) = same_slot p q && same_all ps qs
same_all _ _ = false

-- Two tables are the same but for slot `i`.
abbrev pub same_but : ℕ → List Slot → List Slot → Bool
same_but i [] [] = true
same_but zero (p ∷ ps) (q ∷ qs) = same_all ps qs
same_but (suc i) (p ∷ ps) (q ∷ qs) = same_slot p q && same_but i ps qs
same_but i _ _ = false

abbrev pub is_free : Slot → Bool
is_free free = true
is_free _ = false

-- What a write to the gate did to a slot, for the log.
abbrev pub gate_events : Option ℕ → Gate → Gate → List Event
gate_events none t t' = []
gate_events (some i) t t' =
    gate_set i (same_but i t.pids t'.pids) (is_free (get_or t'.pids i free)) t.jobs t'.jobs ∷ []

module _ {W : Type 0} (k : Kernel W) where
  -- Later is a preorder.
  pub Later-refl : (w : W) → Later k w w
  Later-refl w = record { ticks = omega arith; doomed = λ pid d e. e }

  pub Later-trans : (a b c : W) → Later k a b → Later k b c → Later k a c
  Later-trans a b c p q = record {
    ticks = omega (arith, p.ticks, q.ticks);
    doomed = λ pid d e. q.doomed pid d (p.doomed pid d e);
  }

  -- A read of a value that cannot fail.
  abbrev pub observe : {A : Type 0} → (W → A × W) → M W A
  observe f s = some ((f s.world).0, record s { world = (f s.world).1 })

  -- A critical section: what it reads of the gate is what it writes on. `place` is the slot that it
  -- is about; the log gets what was written.
  abbrev pub under_gate : {A : Type 0} → (A → Option ℕ) → (Gate → Gate × A) → M W A
  under_gate place f s =
      let t = k.gate s.world in
      let r = f t in
      some (
        r.1,
        record s { world = k.set_gate r.0 s.world; log = gate_events (place r.1) t r.0 ++ s.log },
      )

  -- A call that may wait for ever.
  abbrev pub block : {A : Type 0} → (W → Option (Ret A × W)) → (A → List Event) → M W (Option A)
  block call did s = elim (call s.world) [ none ↦ none | some r ↦ some (settle did s r) ]

  -- A note in the log.
  abbrev pub note : Event → M W (Unit {0})
  note e s = some (tt, record s { log = e ∷ s.log })
