-- ===== src/Exec/Run/Call.antt =====
-- native/posix.c, `jf_exec_call`: it returns on every path, and leaves nothing behind.
use jev_fabric.Base.{
  Bool-cases, inl, inr, not, ◌&&◌, ltb, ℕ, ◌+◌, ◌^◌, ◌<◌, ◌≡◌, refl, arith, List, ◌∷◌, ◌++◌, Option,
  none, some, length,
}
use jev_fabric.Os.{Event, St, ◌>>=◌, Returns, Returns-bind}
use jev_fabric.Gate.{Gate, max_jobs, busy, register, find_free_lem}
use jev_fabric.Exec.Defs.{Job}
use jev_fabric.Exec.Kernel.{
  Child, Kernel, IsLive, Holds-held, Holds-same, one, observe, taken_slots, gate_events,
  slot-entered,
}
use jev_fabric.Exec.Run.Defs.{Run}
use jev_fabric.Exec.Run.Begin.{
  file_of, fresh_run, slot_given, Called, turned_away, ran, unless_interrupted, run_over,
  registered, jf_exec_call,
}
use jev_fabric.Exec.Run.State.{Sound}
use jev_fabric.Exec.Run.Cleanup.{Left}
use jev_fabric.Exec.Run.Whole.{unless_interrupted-Left}

-- The table of the gate counts its jobs.
abbrev pub Counted : Gate → Type 0
Counted t = (length t.pids ≡ max_jobs) × (t.jobs ≡ busy t.pids)

-- The slots once `register` has answered.
abbrev Placed : Option (Option ℕ) → List ℕ → List Event → Type 0
Placed none h log = taken_slots log ≡ some h
Placed (some none) h log = ⊥
Placed (some (some slot)) h log = taken_slots log ≡ some (slot ∷ h)

-- While the table counts its jobs, a job that is registered has a slot of it.
register-Placed :
    (t : Gate) (h : List ℕ) (log : List Event)
    → Counted t
    → taken_slots log ≡ some h
    → Placed (register t).1 h (gate_events (slot_given (register t).1) t (register t).0 ++ log)
unfolding register
register-Placed t h log (size, counted) e =
    elim (Bool-cases (not t.shutdown && ltb t.jobs max_jobs)) [
      | inr full ↦ rw full e
      | inl room ↦
          let (i, f, l, q) = find_free_lem t.pids (ground (arith, room, size, counted)) in
          rw (room, f) (slot-entered t i log h l (ground (arith, room)) e)
    ]

-- What the thread has before and after: the job's reader, `b`, the children `a` and the slots `g`.
abbrev pub With : {W : Type 0} → Job → (ℕ → ℕ) → List Child → List ℕ → St W → Type 0
With job b a g s = Sound (λ x. one (file_of job.stdin_fd) x + b x) a g s.log

module _ {W : Type 0} (k : Kernel W) (patience : ℕ) (live : IsLive k patience) (b : ℕ → ℕ)
    (a : List Child) (g : List ℕ) where
  -- What the call leaves: all as it was, for a job that was turned away; and `Left` for one that ran.
  abbrev pub Finished : Called → St W → Type 0
  Finished (turned_away turned) t = With turned b a g t
  Finished (ran r) t = Left k patience live b a g r t

module _ {W : Type 0} (k : Kernel W) (patience : ℕ) (live : IsLive k patience) (b : ℕ → ℕ)
    (a : List Child) (g : List ℕ) (job : Job) (out_buffer err_buffer : List ℕ)
    (limit : job.limit < 2 ^ 32) (out_room : length out_buffer ≡ job.limit)
    (err_room : length err_buffer ≡ job.limit) where
  registered-Left :
      (answer : Option (Option ℕ)) (before after : Gate) (s : St W) (w : W)
      → With job b a g s
      → Placed answer g (gate_events (slot_given answer) before after ++ s.log)
      → Returns
          (registered k patience job out_buffer err_buffer answer
            (record s { world = w; log = gate_events (slot_given answer) before after ++ s.log }))
          (Finished k patience live b a g)
  unfolding registered
  registered-Left none before after s w v placed = v
  registered-Left (some none) before after s w v placed = absurd placed
  registered-Left (some (some slot)) before after s w v placed =
      Returns-bind (observe k k.sys_interrupt >>= unless_interrupted k patience first)
        (run_over k patience) noted (Left k patience live b a g) (Finished k patience live b a g)
        (unless_interrupted-Left k patience live b a g job out_buffer err_buffer slot limit out_room
          err_room (k.sys_interrupt noted.world).0 _
          (record {
            ends =
                Holds-same noted.log (λ x. one (file_of job.stdin_fd) x + b x) _
                  (Holds-held s.log noted.log _ refl v.ends) (λ x. omega arith);
            parent = v.parent;
            place = placed;
          }))
        (λ r t x. x)
    where
      first : Run
      first = fresh_run job out_buffer err_buffer slot

      noted : St W
      noted = record s { world = w; log = gate_events (some slot) before after ++ s.log }

  -- On a kernel that is live (`IsLive`), where a waitpid without WNOHANG is known to end only for a
  -- child that was killed, with buffers of the job's limit, which is below 2 ^ 32, and a table that
  -- counts its jobs, `jf_exec_call` returns on every path, errors included, within the rounds that
  -- the timeout, the patience and the drain grace allow. Then its thread has the descriptors that
  -- it had before, but for a standard input reader that it took from the job and closed: every
  -- descriptor that it opened is closed, none that is not open. The child that it launched, if any,
  -- was reaped once, and with the status that the loop has kept where it was reaped there; or
  -- waitpid knew none. Of the gate it has written to its own slot alone, which is free again, with
  -- the job counted in and out once.
  pub jf_exec_call-Left :
      (s : St W)
      → Counted (k.gate s.world)
      → With job b a g s
      → Returns
          (jf_exec_call k patience job out_buffer err_buffer s)
          (Finished k patience live b a g)
  unfolding jf_exec_call
  jf_exec_call-Left s counted v =
      registered-Left (register (k.gate s.world)).1 _ _ s _ v
        (register-Placed (k.gate s.world) g s.log counted v.place)
