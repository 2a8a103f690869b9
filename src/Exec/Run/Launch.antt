-- ===== src/Exec/Run/Launch.antt =====
-- native/posix.c, `jf_exec_call` from its output pipes to the launch of the child.

use jev_fabric.Base.{ℕ, ◌+◌, ◌≡◌, refl, ◌∙◌, List, [], ◌∷◌, ◌++◌, Option, none, some, arith}
use jev_fabric.Os.{
  ecanceled, Ret, ok, fail, launched, held, Event, St, M, ◌>>=◌, nothing, Returns, Returns-bind,
  Returns-call, Returns-if, Os, close, release_first, release_second,
}
use jev_fabric.Pipe.{jf_pipe, seal_both, cloexec, both_ends}
use jev_fabric.Gate.{Gate, live, launch_child, publish_pid}
use jev_fabric.Exec.Kernel.{
  Child, Kernel, IsLive, one, children, taken_slots, gate_events, slot-kept, same_but-set,
  same_but_refl, Setup,
}
use jev_fabric.Exec.Run.Defs.{Run, with_code}
use jev_fabric.Exec.Run.Begin.{
  spawn_answered, publish_child, spawn_at, spawn_child, set_up, set_up_next, err_piped, out_piped,
  open_outputs,
}
use jev_fabric.Exec.Run.State.{Sound, SoundRun, child, owned}
use jev_fabric.Exec.Run.Cleanup.{Left, cleanup-Left}
use jev_fabric.Exec.Run.Start.{IsBegun, fail_errno-Left, after_spawn-Left}

-- What `jf_pipe` answers, owned.
abbrev piped : Option (ℕ × ℕ) → ℕ → ℕ
piped none x = 0
piped (some ends) x = one (some ends.0) x + one (some ends.1) x

abbrev Piped : {W : Type 0} → List ℕ → St W → Option (ℕ × ℕ) → St W → Type 0
Piped h s r t =
    (held t.log ≡ some (both_ends r h))
    × (children t.log ≡ children s.log)
    × (taken_slots t.log ≡ taken_slots s.log)

jf_pipe-Piped :
    {W : Type 0} (os : Os W) (s : St W) (h : List ℕ)
    → held s.log ≡ some h
    → Returns (jf_pipe os s) (Piped h s)
unfolding jf_pipe seal_both cloexec close
jf_pipe-Piped os s h e = grind (arith, release_second, release_first)

-- The second critical section changes its own slot at most.
publish_pid-kept :
    (now : Gate) (slot : ℕ) (answer : Ret ℕ) (log : List Event) (h : List ℕ)
    → taken_slots log ≡ some (slot ∷ h)
    → taken_slots (gate_events (some slot) now (publish_pid now slot answer) ++ log)
      ≡ some (slot ∷ h)
publish_pid-kept now slot (ok pid) log h e =
    slot-kept now slot log h (publish_pid now slot (ok pid)) (same_but-set slot now.pids (live pid))
      refl e
publish_pid-kept now slot (fail x) log h e =
    slot-kept now slot log h now (same_but_refl slot now.pids) refl e

module _ {W : Type 0} (k : Kernel W) (patience : ℕ) (lives : IsLive k patience) (b : ℕ → ℕ)
    (a : List Child) (g : List ℕ) where
  abbrev Ends : Run → St W → Type 0
  Ends = Left k patience lives b a g

  spawn_answered-Left :
      (r : Run) (answer : Ret ℕ) (s : St W)
      → SoundRun k patience b a g r s
      → r.pid ≡ none
      → IsBegun r
      → Returns (spawn_answered k patience r answer s) Ends
  unfolding spawn_answered
  spawn_answered-Left r (fail e) s v free begun = cleanup-Left k patience lives b a g r s v
  spawn_answered-Left r (ok pid) s v free begun =
      after_spawn-Left k patience lives b a g (record r { pid = some pid }) pid
        (record s { log = launched pid ∷ s.log })
        (record {
          ends = v.ends;
          parent = ground (arith, v.parent, free, begun.undone);
          place = v.place;
        })
        refl
        (record {
          out_shown = begun.out_shown;
          err_shown = begun.err_shown;
          undone = begun.undone;
          unflagged = begun.unflagged;
        })

  -- A run that is ready to launch its child.
  pub record Fresh (r : Run) (s : St W) : Type 0 where
    pub sound : SoundRun k patience b a g r s
    pub free : r.pid ≡ none
    pub begun : IsBegun r

  publish_child-Left :
      (r : Run) (t : Gate) (answer : Ret ℕ) (s : St W)
      → Fresh r s
      → Returns (publish_child k patience r t answer s) Ends
  unfolding publish_child
  publish_child-Left r t answer s f =
      spawn_answered-Left (with_code r (launch_child t r.slot answer).1) answer _
        (record {
          ends = (f.sound).ends;
          parent = (f.sound).parent;
          place = publish_pid-kept (k.gate s.world) r.slot answer s.log g (f.sound).place;
        })
        f.free
        (record {
          out_shown = (f.begun).out_shown;
          err_shown = (f.begun).err_shown;
          undone = (f.begun).undone;
          unflagged = (f.begun).unflagged;
        })

  spawn_child-Left : (r : Run) (s : St W) → Fresh r s → Returns (spawn_child k patience r s) Ends
  unfolding spawn_child spawn_at
  spawn_child-Left r s f =
      Returns-if (k.gate s.world).shutdown
        (publish_child k patience r (k.gate s.world) (fail ecanceled)) _ s Ends
        (λ _. publish_child-Left r (k.gate s.world) (fail ecanceled) s f)
        (λ _.
          publish_child-Left r (k.gate s.world) _ _
            (record { sound = f.sound; free = f.free; begun = f.begun }))

  set_up-Left :
      (steps : List Setup) (r : Run) (s : St W)
      → Fresh r s
      → Returns (set_up k patience steps r s) Ends
  unfolding set_up
  set_up-Left [] r s f = spawn_child-Left r s f
  set_up-Left (step ∷ steps) r s f =
      Returns-call (k.sys_setup step) nothing (set_up_next k patience (set_up k patience steps) r) s
        Ends
        (λ _ _. set_up-Left steps r _ (record { sound = f.sound; free = f.free; begun = f.begun }))
        (λ _ _. fail_errno-Left k patience lives b a g r _ f.sound)

  -- A pipe is made for a run, and its ends go into the run `more`.
  pub pipe-Left :
      (next : Run → Option (ℕ × ℕ) → M W Run) (more : ℕ × ℕ → Run) (r : Run) (s : St W)
      → SoundRun k patience b a g r s
      → ((ends : ℕ × ℕ) (x : ℕ) → owned (more ends) x ≡ piped (some ends) x + owned r x)
      → ((t : St W) → SoundRun k patience b a g r t → Returns (next r none t) Ends)
      → ((ends : ℕ × ℕ) (t : St W)
          → Sound
              (λ x. owned (more ends) x + b x)
              (child r.pid r.done r.status a)
              (r.slot ∷ g)
              t.log
          → Returns (next r (some ends) t) Ends)
      → Returns ((jf_pipe k.os >>= next r) s) Ends
  pipe-Left next more r s v own bad good =
      Returns-bind (jf_pipe k.os) (next r) s (Piped (v.ends).0 s) Ends
        (jf_pipe-Piped k.os s (v.ends).0 (v.ends).1)
        (elim [
          | none ↦ λ t p. bad t (record {
            ends = ((v.ends).0, p.0, (v.ends).2);
            parent = p.1 ∙ v.parent;
            place = p.2 ∙ v.place;
          })
          | some ends ↦ λ t p. good ends t (record {
            ends = (
              both_ends (some ends) (v.ends).0,
              p.0,
              λ x. omega (arith, (v.ends).2 x, own ends x),
            );
            parent = p.1 ∙ v.parent;
            place = p.2 ∙ v.place;
          })
        ])

  -- A run that has no output pipe yet.
  pub record Unpiped (r : Run) (s : St W) : Type 0 where
    pub fresh : Fresh r s
    pub no_out : (r.out).fd ≡ none
    pub no_out_write : r.out_write ≡ none
    pub no_err : (r.err).fd ≡ none
    pub no_err_write : r.err_write ≡ none

  err_piped-Left :
      (r : Run) (s : St W)
      → Fresh r s
      → (r.err).fd ≡ none
      → r.err_write ≡ none
      → Returns ((jf_pipe k.os >>= err_piped k patience r) s) Ends
  unfolding err_piped
  err_piped-Left r s f e e' =
      pipe-Left (err_piped k patience)
        (λ ends. record r { err = record r.err { fd = some ends.0 }; err_write = some ends.1 }) r s
        f.sound (λ ends x. rw (e, one) (rw (e', one) (omega arith)))
        (λ t v. fail_errno-Left k patience lives b a g r t v)
        (λ ends t v. set_up-Left _ _ t (record {
          sound = v;
          free = f.free;
          begun = record {
            out_shown = (f.begun).out_shown;
            err_shown = (f.begun).err_shown;
            undone = (f.begun).undone;
            unflagged = (f.begun).unflagged;
          };
        }))

  pub open_outputs-Left :
      (r : Run) (s : St W) → Unpiped r s → Returns (open_outputs k patience r s) Ends
  unfolding open_outputs out_piped
  open_outputs-Left r s u =
      let f = u.fresh in
      pipe-Left (out_piped k patience)
        (λ ends. record r { out = record r.out { fd = some ends.0 }; out_write = some ends.1 }) r s
        f.sound (λ ends x. rw (u.no_out, one) (rw (u.no_out_write, one) (omega arith)))
        (λ t v. fail_errno-Left k patience lives b a g r t v)
        (λ ends t v.
          err_piped-Left _ t
            (record {
              sound = v;
              free = f.free;
              begun = record {
                out_shown = (f.begun).out_shown;
                err_shown = (f.begun).err_shown;
                undone = (f.begun).undone;
                unflagged = (f.begun).unflagged;
              };
            })
            u.no_err u.no_err_write)
