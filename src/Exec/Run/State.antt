-- ===== src/Exec/Run/State.antt =====
-- native/posix.c: what holds of the locals of `jf_exec_call` between the pieces of its poll loop,
-- and how many rounds are left.
use jev_fabric.Base.{
  ℕ, ◌+◌, ◌≤◌, ◌≡◌, ap, ◌∙◌, Bool, true, false, ◌||◌, List, ◌∷◌, Option, none, some, arith,
}
use jev_fabric.Os.{Event, St, M, ◌>>=◌, Returns, Returns-bind}
use jev_fabric.Os.{ExitStatus}
use jev_fabric.Exec.Kernel.{
  alive, ended, Child, Kernel, Later, Holds, Holds-held, one, ledgers, children, taken_slots,
}
use jev_fabric.Exec.Run.Defs.{Run, Next, go, break_with, cleanup_with, and_then, drain_grace}
use jev_fabric.Exec.Run.Begin.{file_of}
use jev_fabric.Exec.Run.Streams.{Shown}

-- How often a run owns a descriptor.
abbrev pub owned : Run → ℕ → ℕ
owned r x =
    one r.in_read x
    + one r.in_write x
    + one ((r.out).fd) x
    + one r.out_write x
    + one ((r.err).fd) x
    + one r.err_write x
    + one (file_of (r.job).stdin_fd) x

-- The run's child, over the other children.
abbrev pub child : Option ℕ → Bool → ExitStatus → List Child → List Child
child none done status a = a
child (some pid) false status a = alive pid ∷ a
child (some pid) true status a = ended pid status ∷ a

-- The ledgers of a thread that owns these descriptors and children and this slot, over what else
-- it has.
pub record Sound (often : ℕ → ℕ) (family : List Child) (slots : List ℕ) (log : List Event)
    : Type 0 where
  pub ends : Holds log often
  pub parent : children log ≡ some family
  pub place : taken_slots log ≡ some slots

pub Sound-same :
    (often : ℕ → ℕ) (family : List Child) (slots : List ℕ) (log log' : List Event)
    → ledgers log' ≡ ledgers log
    → Sound often family slots log
    → Sound often family slots log'
Sound-same often family slots log log' e v = record {
  ends = Holds-held log log' often (ap (λ l. l.0) e) v.ends;
  parent = ap (λ l. l.1) e ∙ v.parent;
  place = ap (λ l. l.2) e ∙ v.place;
}

module _ {W : Type 0} (k : Kernel W) (patience : ℕ) where
  -- A run over `b` other descriptors, `a` other children and `g` other slots.
  abbrev pub SoundRun : (ℕ → ℕ) → List Child → List ℕ → Run → St W → Type 0
  SoundRun b a g r s =
      Sound (λ x. owned r x + b x) (child r.pid r.done r.status a) (r.slot ∷ g) s.log

  module _ (pid deadline : ℕ) where
    -- `n` bounds the rounds that are left: for a child that has ended by the drain grace; for one
    -- that was killed by the time at which it ends; and else by the deadline. The slacks `u`, `f`
    -- and `z` are what the pieces of the body have found out on the way.
    abbrev pub Due : ℕ → ℕ → ℕ → ℕ → Bool → Bool → ℕ → W → Type 0
    Due n u f z true flagged since w =
        (since ≤ k.clock w) × (since + drain_grace + 2 ≤ n + k.clock w) × (z + 1 ≤ n)
    Due n u f z false true since w =
        (d : ℕ) × (k.dies_by pid w ≡ some d)
        × (d + drain_grace + 3 ≤ n + k.clock w)
        × (drain_grace + 3 + f ≤ n)
    Due n u f z false false since w =
        (deadline + patience + drain_grace + 5 ≤ n + k.clock w)
        × (patience + drain_grace + 5 + u ≤ n)

    pub Due-Later :
        (n u f z : ℕ) (done flagged : Bool) (since : ℕ) (w w' : W)
        → Later k w w'
        → Due n u f z done flagged since w
        → Due n u f z done flagged since w'
    Due-Later n u f z true flagged since w w' l (x, y, e) =
        (omega (arith, l.ticks), omega (arith, l.ticks), e)
    Due-Later n u f z false true since w w' l (d, e, x, y) =
        (d, l.doomed pid d e, omega (arith, l.ticks), y)
    Due-Later n u f z false false since w w' l (x, y) = (omega (arith, l.ticks), y)

    -- The round is over, and the clock has moved on.
    pub Due-next :
        (n : ℕ) (done flagged : Bool) (since : ℕ) (w w' : W)
        → Later k w w'
        → k.clock w + 1 ≤ k.clock w'
        → Due (n + 1) 1 1 1 done flagged since w
        → Due n 0 0 0 done flagged since w'
    Due-next n true flagged since w w' l c (x, y, e) = (omega arith, omega arith, omega arith)
    Due-next n false true since w w' l c (d, e, x, y) =
        (d, l.doomed pid d e, omega arith, omega arith)
    Due-next n false false since w w' l c (x, y) = (omega arith, omega arith)

    -- Some round is left.
    pub Due-pos :
        (n : ℕ) (done flagged : Bool) (since : ℕ) (w : W) → Due n 0 0 0 done flagged since w → 1 ≤ n
    Due-pos n true flagged since w (x, y, e) = omega arith
    Due-pos n false true since w (d, e, x, y) = omega arith
    Due-pos n false false since w (x, y) = omega arith

    -- In the loop.
    pub record Looping (b : ℕ → ℕ) (a : List Child) (g : List ℕ) (n u f z : ℕ) (r : Run) (s : St W)
        : Type 0 where
      pub sound : SoundRun b a g r s
      pub out_shown : Shown r.out
      pub err_shown : Shown r.err
      pub mine : r.pid ≡ some pid
      pub due : Due n u f z r.done (r.timed_out || r.cancelled) r.exited_at s.world

  -- After a piece: the next piece's condition, or a run to clean up.
  abbrev pub After : (ℕ → ℕ) → List Child → List ℕ → (Run → St W → Type 0) → Next → St W → Type 0
  After b a g P (go r) s = P r s
  After b a g P (break_with r) s = SoundRun b a g r s
  After b a g P (cleanup_with r) s = SoundRun b a g r s

  pub and_then-After :
      (b : ℕ → ℕ) (a : List Child) (g : List ℕ) (P Q : Run → St W → Type 0) (f : Run → M W Next)
      (nx : Next) (s : St W)
      → After b a g P nx s
      → ((r : Run) → P r s → Returns (f r s) (After b a g Q))
      → Returns (and_then k f nx s) (After b a g Q)
  unfolding and_then
  and_then-After b a g P Q f (go r) s p m = m r p
  and_then-After b a g P Q f (break_with r) s p m = p
  and_then-After b a g P Q f (cleanup_with r) s p m = p

  -- One piece after another.
  pub piece-After :
      (b : ℕ → ℕ) (a : List Child) (g : List ℕ) (P Q : Run → St W → Type 0) (m : M W Next)
      (f : Run → M W Next) (s : St W)
      → Returns (m s) (After b a g P)
      → ((r : Run) (t : St W) → P r t → Returns (f r t) (After b a g Q))
      → Returns ((m >>= and_then k f) s) (After b a g Q)
  piece-After b a g P Q m f s o step =
      Returns-bind m (and_then k f) s (After b a g P) (After b a g Q) o
        (λ nx t q. and_then-After b a g P Q f nx t q (λ r p. step r t p))
