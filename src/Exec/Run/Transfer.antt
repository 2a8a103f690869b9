-- ===== src/Exec/Run/Transfer.antt =====
-- native/posix.c: the pieces of the poll loop that move bytes.
use jev_fabric.Base.{
  ℕ, ◌+◌, ◌≡◌, refl, ◌∙◌, Bool, ◌||◌, List, ◌∷◌, [], Option, none, some, arith, ◌==◌, length, take,
  drop,
}
use jev_fabric.Os.{
  Errno, is_eintr, wrote, St, ◌>>◌, pure, nothing, Returns, Returns-bind, Returns-call, Returns-if,
}
use jev_fabric.Capture.{Stream, is_fatal, jf_read}
use jev_fabric.Exec.Kernel.{Child, Kernel, IsLive, Ready, Later-refl, Holds, Holds-same, one}
use jev_fabric.Exec.Run.Defs.{
  Run, Next, go, cleanup_with, with_code, log_error_of, is_clear, close_end, end_input, read_stream,
  fed, feed_to, check_logs, with_err, with_out, take_ready, nothing_ready, polled, poll_once,
}
use jev_fabric.Exec.Run.Streams.{Shown, Served, jf_read-Served}
use jev_fabric.Exec.Run.State.{child, owned, Due, Due-Later, Due-next, Looping, After}
use jev_fabric.Exec.Run.Calls.{Sounds, close_end-Sounds}

module _ {W : Type 0} (k : Kernel W) (patience : ℕ) (live : IsLive k patience) (pid deadline : ℕ)
    (b : ℕ → ℕ) (a : List Child) (g : List ℕ) where
  abbrev In : ℕ → ℕ → Run → St W → Type 0
  In n z r s = Looping k patience pid deadline b a g n z z z r s

  abbrev Out : ℕ → ℕ → Next → St W → Type 0
  Out n z = After k patience b a g (In n z)

  -- The input's end is closed, at a state that came after `s`.
  abbrev without_input : Run → ℕ → ℕ
  without_input r x = owned (record r { in_write = none }) x + b x

  close_input-Out :
      (n z : ℕ) (r : Run) (s : St W)
      → In n z r s
      → Returns ((close_end k r.in_write >> pure (go (record r { in_write = none }))) s) (Out n z)
  close_input-Out n z r s i =
      Returns-bind (close_end k r.in_write) _ s
        (λ _ u.
          Sounds k patience live (without_input r) (child r.pid r.done r.status a) (r.slot ∷ g)
            s.world u)
        (Out n z)
        (close_end-Sounds k patience live r.in_write (λ x. owned r x + b x) (without_input r) _
          (r.slot ∷ g) s.world s (λ x. omega arith) (i.sound, Later-refl k s.world))
        (λ _ u v. record {
          sound = v.0;
          out_shown = i.out_shown;
          err_shown = i.err_shown;
          mine = i.mine;
          due =
              Due-Later k patience pid deadline n z z z r.done (r.timed_out || r.cancelled)
                r.exited_at s.world u.world v.1 i.due;
        })

  pub end_input-Out :
      (n z : ℕ) (r : Run) (s : St W) → In n z r s → Returns (end_input k r s) (Out n z)
  unfolding end_input
  end_input-Out n z r s i =
      Returns-if (r.sent == length (r.job).input) _ (pure (go r)) s (Out n z)
        (λ _. close_input-Out n z r s i) (λ _. i)

  read_stream-Served :
      (end : Option ℕ) (t : Stream) (ready : Bool) (s : St W) (rest : ℕ → ℕ)
      → t.fd ≡ end
      → Shown t
      → Holds s.log (λ x. one (t.fd) x + rest x)
      → Returns (read_stream k t end ready s) (Served k patience live s rest)
  unfolding read_stream
  read_stream-Served none t ready s rest e fine h = record {
    ends = h;
    family = refl;
    place = refl;
    later = Later-refl k s.world;
    shown = fine;
  }
  read_stream-Served (some fd) t ready s rest e fine h =
      Returns-if ready (jf_read k.os t fd) (pure t) s (Served k patience live s rest)
        (λ _. jf_read-Served k patience live fd t rest e fine s (
          Holds-same s.log (λ x. one (t.fd) x + rest x) (λ x. one (some fd) x + rest x) h
            (λ x. rw e)))
        (λ _. record {
          ends = h;
          family = refl;
          place = refl;
          later = Later-refl k s.world;
          shown = fine;
        })

  -- The input is fed to the child.
  feed_to-Out :
      (n : ℕ) (end : Option ℕ) (r : Run) (ready : Bool) (s : St W)
      → In n 0 r s
      → Returns (feed_to k end r ready s) (Out n 0)
  unfolding feed_to fed
  feed_to-Out n none r ready s i = i
  feed_to-Out n (some fd) r ready s i =
      Returns-if ready _ (pure (go r)) s (Out n 0)
        (λ _.
          Returns-call (k.os.sys_write fd text) (λ m. wrote fd (take m text) ∷ []) (fed k r) s
            (Out n 0)
            (λ m _. record {
              sound = record {
                ends = (i.sound).ends;
                parent = (i.sound).parent;
                place = (i.sound).place;
              };
              out_shown = i.out_shown;
              err_shown = i.err_shown;
              mine = i.mine;
              due = on_time;
            })
            (λ x _.
              Returns-if (is_fatal x) _ (pure (go r)) _ (Out n 0)
                (λ _. close_input-Out n 0 r _ (later_in x)) (λ _. later_in x)))
        (λ _. i)
    where
      text : List ℕ
      text = drop r.sent (r.job).input

      on_time :
          Due k patience pid deadline n 0 0 0 r.done
            (r.timed_out || r.cancelled)
            r.exited_at
            (k.os.sys_write fd text s.world).1
      on_time =
          Due-Later k patience pid deadline n 0 0 0 r.done (r.timed_out || r.cancelled) r.exited_at
            s.world _ (live.write_later fd text s.world) i.due

      later_in :
          (x : Errno)
          → In n 0 r (record s { world = (k.os.sys_write fd text s.world).1; errno = x })
      later_in x = record {
        sound = i.sound;
        out_shown = i.out_shown;
        err_shown = i.err_shown;
        mine = i.mine;
        due = on_time;
      }

  check_logs-Out :
      (n : ℕ) (r : Run) (ready : Bool) (s : St W)
      → In n 0 r s
      → Returns (check_logs k r ready s) (Out n 0)
  unfolding check_logs
  check_logs-Out n r ready s i =
      Returns-if (is_clear (log_error_of ((r.out).spool).log_error ((r.err).spool).log_error))
        (feed_to k r.in_write r ready) _ s (Out n 0) (λ _. feed_to-Out n r.in_write r ready s i)
        (λ _. i.sound)

  -- What a run owns besides one of its streams.
  abbrev beside_out : Run → ℕ → ℕ
  beside_out r x = owned (record r { out = record r.out { fd = none } }) x + b x

  abbrev beside_err : Run → ℕ → ℕ
  beside_err r x = owned (record r { err = record r.err { fd = none } }) x + b x

  with_out-Out :
      (n : ℕ) (r : Run) (ready : Ready) (t : Stream) (s : St W)
      → In n 0 (record r { out = t }) s
      → Returns (with_out k r ready t s) (Out n 0)
  unfolding with_out with_err
  with_out-Out n r ready t s i =
      Returns-bind (read_stream k r.err (r.err).fd ready.err_ready) _ s
        (Served k patience live s (beside_err next)) (Out n 0)
        (read_stream-Served (r.err).fd r.err ready.err_ready s (beside_err next) refl i.err_shown (
          Holds-same s.log (λ x. owned next x + b x) (λ x. one ((r.err).fd) x + beside_err next x)
            (i.sound).ends (λ x. omega arith)))
        (λ t' u v.
          check_logs-Out n (record next { err = t' }) ready.in_ready u
            (record {
              sound = record {
                ends =
                    Holds-same u.log (λ x. one (t'.fd) x + beside_err next x)
                      (λ x. owned (record next { err = t' }) x + b x) v.ends (λ x. omega arith);
                parent = v.family ∙ (i.sound).parent;
                place = v.place ∙ (i.sound).place;
              };
              out_shown = i.out_shown;
              err_shown = v.shown;
              mine = i.mine;
              due =
                  Due-Later k patience pid deadline n 0 0 0 r.done (r.timed_out || r.cancelled)
                    r.exited_at s.world u.world v.later i.due;
            }))
    where
      next : Run
      next = record r { out = t }

  take_ready-Out :
      (n : ℕ) (r : Run) (ready : Ready) (s : St W)
      → In n 0 r s
      → Returns (take_ready k r ready s) (Out n 0)
  unfolding take_ready
  take_ready-Out n r ready s i =
      Returns-bind (read_stream k r.out (r.out).fd ready.out_ready) _ s
        (Served k patience live s (beside_out r)) (Out n 0)
        (read_stream-Served (r.out).fd r.out ready.out_ready s (beside_out r) refl i.out_shown (
          Holds-same s.log (λ x. owned r x + b x) (λ x. one ((r.out).fd) x + beside_out r x)
            (i.sound).ends (λ x. omega arith)))
        (λ t u v. with_out-Out n r ready t u (record {
          sound = record {
            ends =
                Holds-same u.log (λ x. one (t.fd) x + beside_out r x)
                  (λ x. owned (record r { out = t }) x + b x) v.ends (λ x. omega arith);
            parent = v.family ∙ (i.sound).parent;
            place = v.place ∙ (i.sound).place;
          };
          out_shown = v.shown;
          err_shown = i.err_shown;
          mine = i.mine;
          due =
              Due-Later k patience pid deadline n 0 0 0 r.done (r.timed_out || r.cancelled)
                r.exited_at s.world u.world v.later i.due;
        }))

  -- The poll takes one round off what is left.
  pub poll_once-Out :
      (n : ℕ) (r : Run) (s : St W) → In (n + 1) 1 r s → Returns (poll_once k r s) (Out n 0)
  unfolding poll_once polled
  poll_once-Out n r s i =
      Returns-call (k.sys_poll (r.out).fd (r.err).fd r.in_write) nothing (polled k r) s (Out n 0)
        (λ ready _. take_ready-Out n r ready _ (over s.errno))
        (λ x _.
          Returns-if (is_eintr x) (take_ready k r nothing_ready)
            (pure (cleanup_with (with_code r x))) _ (Out n 0)
            (λ _. take_ready-Out n r nothing_ready _ (over x)) (λ _. i.sound))
    where
      after : W
      after = (k.sys_poll (r.out).fd (r.err).fd r.in_write s.world).1

      over : (x : Errno) → In n 0 r (record s { world = after; errno = x })
      over x = record {
        sound = i.sound;
        out_shown = i.out_shown;
        err_shown = i.err_shown;
        mine = i.mine;
        due =
            Due-next k patience pid deadline n r.done (r.timed_out || r.cancelled) r.exited_at
              s.world after (live.poll_later (r.out).fd (r.err).fd r.in_write s.world)
              (omega (arith, live.poll_ticks (r.out).fd (r.err).fd r.in_write s.world)) i.due;
      }
