-- ===== src/Exec/Run/Whole.antt =====
-- native/posix.c, `jf_exec_call` once it is registered: its standard input, and the interrupt.
use std.Path.{transport}
use jev_fabric.Base.{
  ℕ, ◌+◌, ◌^◌, ◌-◌, sym, drop, zero, suc, ◌<◌, ◌≡◌, refl, ap, false, ◌||◌, List, [], none, some,
  arith, if◌then◌else◌, length, ◌==◌,
}
use jev_fabric.Os.{eintr, St, ◌>>=◌, Returns, Returns-if}
use jev_fabric.Pipe.{jf_pipe}
use jev_fabric.Exec.Defs.{Job, Handle, absent, negative, open_at}
use jev_fabric.Exec.Kernel.{Child, Kernel, IsLive, Holds-same, one}
use jev_fabric.Exec.Run.Defs.{Run, with_code, cleanup}
use jev_fabric.Exec.Run.Begin.{fresh_run, open_outputs, in_piped, take_stdin, unless_interrupted}
use jev_fabric.Exec.Run.Streams.{Shown}
use jev_fabric.Exec.Run.State.{SoundRun, owned}
use jev_fabric.Exec.Run.Cleanup.{Left, cleanup-Left}
use jev_fabric.Exec.Run.Start.{IsBegun, fail_errno-Left}
use jev_fabric.Exec.Run.Launch.{Unpiped, pipe-Left, open_outputs-Left}

drop-nil : (n : ℕ) → drop {A = ℕ} n [] ≡ []
drop-nil zero = refl
drop-nil (suc n) = refl

module _ {W : Type 0} (k : Kernel W) (patience : ℕ) (live : IsLive k patience) (b : ℕ → ℕ)
    (a : List Child) (g : List ℕ) where
  abbrev Ends : Run → St W → Type 0
  Ends = Left k patience live b a g

  module _ (job : Job) (out_buffer err_buffer : List ℕ) (slot : ℕ) (limit : job.limit < 2 ^ 32)
      (out_room : length out_buffer ≡ job.limit) (err_room : length err_buffer ≡ job.limit) where
    abbrev first : Run
    first = fresh_run job out_buffer err_buffer slot

    first-IsBegun : IsBegun first
    first-IsBegun = record {
      out_shown = (
        limit,
        (
          [],
          record {
            room = out_room;
            fits = omega arith;
            window = sym (drop-nil (0 - job.limit));
            told = ground arith;
          },
        ),
      );
      err_shown = (
        limit,
        (
          [],
          record {
            room = err_room;
            fits = omega arith;
            window = sym (drop-nil (0 - job.limit));
            told = ground arith;
          },
        ),
      );
      undone = refl;
      unflagged = refl;
    }

    -- With these ends of the input, and nothing else changed but the job's reader.
    unpiped :
        (r : Run) (s : St W)
        → SoundRun k patience b a g r s
        → (r.pid ≡ none) × (r.done ≡ false) × ((r.timed_out || r.cancelled) ≡ false)
        → (r.out ≡ first.out) × (r.err ≡ first.err) × (r.out_write ≡ none) × (r.err_write ≡ none)
        → Unpiped k patience live b a g r s
    unpiped r s v (p, d, f) (o, e, ow, ew) = record {
      fresh = record {
        sound = v;
        free = p;
        begun = record {
          out_shown = transport (ap Shown (sym o)) first-IsBegun.out_shown;
          err_shown = transport (ap Shown (sym e)) first-IsBegun.err_shown;
          undone = d;
          unflagged = f;
        };
      };
      no_out = rw o refl;
      no_out_write = ow;
      no_err = rw e refl;
      no_err_write = ew;
    }

    -- Without a reader from the caller: the process's own input, or a pipe.
    own_input :
        (s : St W)
        → SoundRun k patience b a g first s
        → Returns
            ((if job.inherit_stdin
                then open_outputs k patience first
                else (jf_pipe k.os >>= in_piped k patience first))
              s)
            Ends
    unfolding in_piped
    own_input s v =
        Returns-if job.inherit_stdin (open_outputs k patience first)
          (jf_pipe k.os >>= in_piped k patience first) s Ends
          (λ _.
            open_outputs-Left k patience live b a g first s
              (unpiped first s v (refl, refl, refl) (refl, refl, refl, refl)))
          (λ _.
            pipe-Left k patience live b a g (in_piped k patience)
              (λ ends. record first { in_read = some ends.0; in_write = some ends.1 }) first s v
              (λ ends x. omega arith) (λ t u. fail_errno-Left k patience live b a g first t u)
              (λ ends t u.
                open_outputs-Left k patience live b a g _ t
                  (unpiped _ t u (refl, refl, refl) (refl, refl, refl, refl))))

    take_stdin-Left :
        (handle : Handle) (s : St W)
        → job.stdin_fd ≡ handle
        → SoundRun k patience b a g first s
        → Returns (take_stdin k patience handle first s) Ends
    unfolding take_stdin in_piped
    take_stdin-Left (open_at fd) s e v = open_outputs-Left k patience live b a g _ s (
        unpiped _ s
          (record {
            ends =
                Holds-same s.log (λ x. owned first x + b x) _ v.ends
                  (λ x. rw (e, one) (omega arith));
            parent = v.parent;
            place = v.place;
          })
          (refl, refl, refl) (refl, refl, refl, refl))
    take_stdin-Left absent s e v = own_input s v
    take_stdin-Left negative s e v = own_input s v

    pub unless_interrupted-Left :
        (signal : ℕ) (s : St W)
        → SoundRun k patience b a g first s
        → Returns (unless_interrupted k patience first signal s) Ends
    unfolding unless_interrupted
    unless_interrupted-Left signal s v =
        Returns-if (signal == 0) (take_stdin k patience job.stdin_fd first)
          (cleanup k (with_code first eintr)) s Ends (λ _. take_stdin-Left job.stdin_fd s refl v)
          (λ _. cleanup-Left k patience live b a g (with_code first eintr) s v)
