-- ===== src/Exec/Run/Reap.antt =====
-- native/posix.c: the pieces of the poll loop that watch the child and the drain grace.
use jev_fabric.Base.{
  ℕ, ◌+◌, ◌≤◌, ◌≡◌, ◌⊎◌, refl, Bool, true, false, ◌||◌, List, ◌∷◌, Option, none, some, arith, inl,
  inr, ltb,
}
use jev_fabric.Os.{
  Errno, is_eintr, ok, fail, St, ◌>>=◌, pure, Returns, Returns-bind, Returns-call, Returns-if,
}
use jev_fabric.Gate.{retire, reserved}
use jev_fabric.Exec.Kernel.{
  Child, alive, ended, reaped_first, slot-kept, same_but-set, Kernel, IsLive, Later, Later-refl,
  observe,
}
use jev_fabric.Os.{ExitStatus}
use jev_fabric.Exec.Run.Defs.{
  Run, Next, go, cleanup_with, with_code, is_there, cut_if, drain_grace, elapsed, close_end,
  kill_group, child_ended, waited, reap_event, check_child, drained, check_grace,
}
use jev_fabric.Exec.Run.State.{Sound, Sound-same, child, owned, Due, Looping, After}
use jev_fabric.Exec.Run.Timing.{Due-done, Due-undone, Due-waiting, Due-ended, Due-draining}
use jev_fabric.Exec.Run.Streams.{Shown}
use jev_fabric.Exec.Run.Calls.{Sounds, close_end-Sounds, Struck, kill_group-Struck}

child_done :
    (target : Option ℕ) (pid : ℕ) (status : ExitStatus) (a : List Child)
    → target ≡ some pid
    → child target true status a ≡ ended pid status ∷ a
child_done target pid status a e = rw e refl

child_left :
    (target : Option ℕ) (done : Bool) (status : ExitStatus) (pid : ℕ) (a : List Child)
    → target ≡ some pid
    → done ≡ false
    → child target done status a ≡ alive pid ∷ a
child_left target done status pid a e f = rw e (rw f refl)

module _ {W : Type 0} (k : Kernel W) (patience : ℕ) (live : IsLive k patience) (pid deadline : ℕ)
    (b : ℕ → ℕ) (a : List Child) (g : List ℕ) (n : ℕ) where
  abbrev In : ℕ → ℕ → ℕ → Run → St W → Type 0
  In u f z r s = Looping k patience pid deadline b a g n u f z r s

  abbrev Out : ℕ → ℕ → ℕ → Next → St W → Type 0
  Out u f z = After k patience b a g (In u f z)

  -- The child was reaped, and its end of the input is closed.
  abbrev left_ends : Run → ℕ → ℕ
  left_ends r x = owned (record r { in_write = none }) x + b x

  child_ended-Out :
      (r : Run) (status : ExitStatus) (now : ℕ) (w : W) (s : St W)
      → r.done ≡ false
      → r.pid ≡ some pid
      → now ≤ k.clock s.world
      → Due k patience pid deadline n 1 0 0 r.done (r.timed_out || r.cancelled) r.exited_at w
      → Sound (λ x. owned r x + b x) (ended pid status ∷ a) (r.slot ∷ g) s.log
      → Shown r.out × Shown r.err
      → Returns (child_ended k r status now s) (Out 1 1 0)
  unfolding child_ended
  child_ended-Out r status now w s h mine past due sound shown =
      Returns-bind (kill_group k r.pid) _ s (Struck k patience live pid s) (Out 1 1 0)
        (kill_group-Struck k patience live r.pid pid s mine)
        (λ _ t x.
          Returns-bind (close_end k r.in_write) _ t
            (λ _ u.
              Sounds k patience live (left_ends r) (ended pid status ∷ a) (r.slot ∷ g) s.world u)
            (Out 1 1 0)
            (close_end-Sounds k patience live r.in_write (λ x. owned r x + b x) (left_ends r)
              (ended pid status ∷ a) (r.slot ∷ g) s.world t (λ x. omega arith)
              (Sound-same _ (ended pid status ∷ a) _ s.log t.log x.0.0 sound, x.0.1))
            (λ _ u y.
              let l = live.gate_later (retire (k.gate u.world) r.slot) u.world in
              record {
                sound = rw (child_done r.pid pid status a mine) (record {
                  ends = y.0.ends;
                  parent = y.0.parent;
                  place =
                      slot-kept (k.gate u.world) r.slot u.log g (retire (k.gate u.world) r.slot)
                        (unfold retire in same_but-set r.slot (k.gate u.world).pids reserved)
                        (unfold retire in refl) y.0.place;
                });
                out_shown = shown.0;
                err_shown = shown.1;
                mine = mine;
                due =
                    Due-ended k patience pid deadline n r.done (r.timed_out || r.cancelled)
                      (r.timed_out || r.cancelled) r.exited_at now w _ h
                      (omega (arith, past, y.1.ticks, l.ticks)) due;
              }))

  -- waitpid does not say "not yet" of a child whose time has come.
  waits :
      (r : Run) (s : St W)
      → ((k.sys_waitpid pid s.world).0 ≡ ok none)
        ⊎ ((e : Errno) × ((k.sys_waitpid pid s.world).0 ≡ fail e) × (is_eintr e ≡ true))
      → (d : ℕ) → k.dies_by pid s.world ≡ some d
      → d ≤ k.clock s.world
      → ⊥
  waits r s (inl e) d m c = elim (live.wait_ended pid d s.world m c) [
    | inl (status, f) ↦ cc
    | inr (x, f, p) ↦ cc
  ]
  waits r s (inr (y, e, q)) d m c = elim (live.wait_ended pid d s.world m c) [
    | inl (status, f) ↦ cc
    | inr (x, f, p) ↦ let same : x ≡ y = cc in cc
  ]

  waiting-In :
      (r : Run) (s : St W) (w : W)
      → r.done ≡ false
      → ((d : ℕ) → k.dies_by pid s.world ≡ some d → d ≤ k.clock s.world → ⊥)
      → Later k s.world w
      → In 1 0 0 r s
      → (e : Errno) → In 1 1 0 r (record s { world = w; errno = e })
  waiting-In r s w h runs l i e = record {
    sound = i.sound;
    out_shown = i.out_shown;
    err_shown = i.err_shown;
    mine = i.mine;
    due =
        Due-waiting k patience pid deadline n r.done (r.timed_out || r.cancelled) r.exited_at
          s.world w h runs l i.due;
  }

  pub check_child-Out :
      (r : Run) (s : St W) → In 1 0 0 r s → Returns (check_child k pid r s) (Out 1 1 0)
  unfolding check_child waited
  check_child-Out r s i =
      let l = live.wait_later pid s.world in
      Returns-if r.done (pure (go r)) _ s (Out 1 1 0)
        (λ h. record {
          sound = i.sound;
          out_shown = i.out_shown;
          err_shown = i.err_shown;
          mine = i.mine;
          due =
              Due-done k patience pid deadline n 1 0 1 1 0 r.done (r.timed_out || r.cancelled)
                r.exited_at s.world h i.due;
        })
        (λ h.
          Returns-call (k.sys_waitpid pid) (reap_event pid) (waited k r) s (Out 1 1 0)
            (elim [
              | none ↦ λ eq. waiting-In r s _ h (waits r s (inl eq)) l i s.errno
              | some status ↦ λ eq.
                  let t = live.tick_between (k.sys_waitpid pid s.world).1 in
                  child_ended-Out r status _ s.world _ h i.mine t.1 i.due
                    (record {
                      ends = (i.sound).ends;
                      parent = rw (i.sound).parent (
                          rw (child_left r.pid r.done r.status pid a i.mine h)
                            (reaped_first pid status a));
                      place = (i.sound).place;
                    })
                    (i.out_shown, i.err_shown)
            ])
            (λ x eq.
              Returns-if (is_eintr x) (pure (go r)) (pure (cleanup_with (with_code r x))) _
                (Out 1 1 0) (λ q. waiting-In r s _ h (waits r s (inr (x, eq, q))) l i x)
                (λ _. i.sound)))

  abbrev drained_run : Run → Run
  drained_run r = record r {
    out = cut_if (is_there (r.out).fd) r.out;
    err = cut_if (is_there (r.err).fd) r.err;
  }

  abbrev no_out : Run → ℕ → ℕ
  no_out r x = owned (record r { out = cut_if (is_there (r.out).fd) r.out }) x + b x

  abbrev no_ends : Run → ℕ → ℕ
  no_ends r x = owned (drained_run r) x + b x

  pub check_grace-Out :
      (r : Run) (s : St W) → In 1 1 0 r s → Returns (check_grace k r s) (Out 1 1 1)
  unfolding check_grace drained
  check_grace-Out r s i =
      let now : St W = record s { world = (k.sys_tick s.world).1 } in
      let t = live.tick_between s.world in
      let l = live.tick_later s.world in
      Returns-if r.done (observe k k.sys_tick >>= drained k r) (pure (go r)) s (Out 1 1 1)
        (λ h.
          Returns-if (ltb drain_grace (elapsed (k.sys_tick s.world).0 r.exited_at)) _ (pure (go r))
            _ (Out 1 1 1)
            (λ _.
              Returns-bind (close_end k (r.out).fd) _ now
                (λ _ u.
                  Sounds k patience live (no_out r) (child r.pid r.done r.status a) (r.slot ∷ g)
                    now.world u)
                (Out 1 1 1)
                (close_end-Sounds k patience live (r.out).fd (λ x. owned r x + b x) (no_out r) _
                  (r.slot ∷ g) now.world now (λ x. omega arith) (i.sound, Later-refl k now.world))
                (λ _ u v.
                  Returns-bind (close_end k (r.err).fd) _ u
                    (λ _ y.
                      Sounds k patience live (no_ends r) (child r.pid r.done r.status a)
                        (r.slot ∷ g) now.world y)
                    (Out 1 1 1)
                    (close_end-Sounds k patience live (r.err).fd (no_out r) (no_ends r) _
                      (r.slot ∷ g) now.world u (λ x. omega arith) v)
                    (λ _ y x. x.0)))
            (λ more. record {
              sound = i.sound;
              out_shown = i.out_shown;
              err_shown = i.err_shown;
              mine = i.mine;
              due =
                  Due-draining k patience pid deadline n r.done (r.timed_out || r.cancelled)
                    r.exited_at (k.sys_tick s.world).0 s.world _ h more t.0 t.1 l i.due;
            }))
        (λ h. record {
          sound = i.sound;
          out_shown = i.out_shown;
          err_shown = i.err_shown;
          mine = i.mine;
          due =
              Due-undone k patience pid deadline n 1 1 0 1 r.done (r.timed_out || r.cancelled)
                r.exited_at s.world h i.due;
        })
