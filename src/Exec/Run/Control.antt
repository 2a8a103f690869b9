-- ===== src/Exec/Run/Control.antt =====
-- native/posix.c: the pieces of the poll loop that watch the interrupt and the deadline.
use jev_fabric.Base.{ℕ, ◌≡◌, refl, true, false, ◌||◌, List, arith, ltb, ◌==◌}
use jev_fabric.Os.{St, ◌>>=◌, ◌>>◌, pure, Returns, Returns-bind, Returns-if}
use jev_fabric.Exec.Kernel.{Child, Kernel, IsLive, Later, Later-trans, observe}
use jev_fabric.Exec.Run.Defs.{
  Run, Next, go, timeout_exit, kill_group, cancel, seen_interrupt, check_interrupt, seen_tick,
  check_deadline,
}
use jev_fabric.Exec.Run.State.{Sound-same, Due-Later, Looping, After}
use jev_fabric.Exec.Run.Timing.{Due-struck, Due-early, Due-done}
use jev_fabric.Exec.Run.Calls.{Struck, kill_group-Struck}

module _ {W : Type 0} (k : Kernel W) (patience : ℕ) (live : IsLive k patience) (pid deadline : ℕ)
    (b : ℕ → ℕ) (a : List Child) (g : List ℕ) (n : ℕ) where
  abbrev In : ℕ → ℕ → ℕ → Run → St W → Type 0
  In u f z r s = Looping k patience pid deadline b a g n u f z r s

  abbrev Out : ℕ → ℕ → ℕ → Next → St W → Type 0
  Out u f z = After k patience b a g (In u f z)

  -- Time goes on.
  In-Later :
      (u f z : ℕ) (r : Run) (s : St W) (w : W)
      → Later k s.world w
      → In u f z r s
      → In u f z r (record s { world = w })
  In-Later u f z r s w l v = record {
    sound = v.sound;
    out_shown = v.out_shown;
    err_shown = v.err_shown;
    mine = v.mine;
    due =
        Due-Later k patience pid deadline n u f z r.done (r.timed_out || r.cancelled) r.exited_at
          s.world w l v.due;
  }

  cancel-Out :
      (r : Run) (v : ℕ) (s : St W)
      → r.done ≡ false
      → In 0 0 0 r s
      → Returns (cancel k r v s) (Out 0 0 0)
  unfolding cancel
  cancel-Out r v s h i =
      Returns-bind (kill_group k r.pid) _ s (Struck k patience live pid s) (Out 0 0 0)
        (kill_group-Struck k patience live r.pid pid s i.mine)
        (λ _ t x. record {
          sound = Sound-same _ _ _ s.log t.log x.0.0 i.sound;
          out_shown = i.out_shown;
          err_shown = i.err_shown;
          mine = i.mine;
          due =
              Due-struck k patience pid deadline n 0 0 r.done (r.timed_out || r.cancelled)
                (r.timed_out || true) r.exited_at x.1.0 s.world t.world h (ground arith) x.0.1 x.1.1
                x.1.2 i.due;
        })

  pub check_interrupt-Out :
      (r : Run) (s : St W) → In 0 0 0 r s → Returns (check_interrupt k r s) (Out 0 0 0)
  unfolding check_interrupt seen_interrupt
  check_interrupt-Out r s i =
      Returns-if r.done (pure (go r)) _ s (Out 0 0 0) (λ _. i)
        (λ h.
          let l = live.interrupt_later s.world in
          Returns-if ((k.sys_interrupt s.world).0 == 0 || r.cancelled) (pure (go r))
            (observe k k.sys_interrupt >>= cancel k r) _ (Out 0 0 0) (λ _. In-Later 0 0 0 r s _ l i)
            (λ _. cancel-Out r _ _ h (
              In-Later 0 0 0 r s _
                (Later-trans k s.world _ _ l (live.interrupt_later (k.sys_interrupt s.world).1))
                i)))

  pub check_deadline-Out :
      (r : Run) (s : St W) → In 0 0 0 r s → Returns (check_deadline k deadline r s) (Out 1 0 0)
  unfolding check_deadline seen_tick
  check_deadline-Out r s i =
      let t = live.tick_between s.world in
      let l = live.tick_later s.world in
      let now : St W = record s { world = (k.sys_tick s.world).1 } in
      Returns-if r.done (pure (go r)) _ s (Out 1 0 0)
        (λ h. record {
          sound = i.sound;
          out_shown = i.out_shown;
          err_shown = i.err_shown;
          mine = i.mine;
          due =
              Due-done k patience pid deadline n 0 0 1 0 0 r.done (r.timed_out || r.cancelled)
                r.exited_at s.world h i.due;
        })
        (λ h.
          Returns-if (ltb (k.sys_tick s.world).0 deadline || (r.timed_out || r.cancelled))
            (pure (go r))
            (kill_group k r.pid
              >> pure (go (record r { timed_out = true; exit_code = timeout_exit })))
            _ (Out 1 0 0)
            (λ early. record {
              sound = i.sound;
              out_shown = i.out_shown;
              err_shown = i.err_shown;
              mine = i.mine;
              due =
                  Due-early k patience pid deadline n r.done (r.timed_out || r.cancelled)
                    r.exited_at (k.sys_tick s.world).0 s.world _ early t.0 l i.due;
            })
            (λ _.
              Returns-bind (kill_group k r.pid) _ now (Struck k patience live pid now) (Out 1 0 0)
                (kill_group-Struck k patience live r.pid pid now i.mine)
                (λ _ u x. record {
                  sound = Sound-same _ _ _ s.log u.log x.0.0 i.sound;
                  out_shown = i.out_shown;
                  err_shown = i.err_shown;
                  mine = i.mine;
                  due =
                      Due-struck k patience pid deadline n 1 0 r.done (r.timed_out || r.cancelled)
                        true r.exited_at x.1.0 s.world u.world h refl
                        (Later-trans k s.world _ u.world l x.0.1) x.1.1 x.1.2 i.due;
                })))
