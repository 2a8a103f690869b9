-- ===== src/Exec/Run/Timing.antt =====
-- native/posix.c: how the pieces of the poll loop spend the rounds that are left.
use jev_fabric.Base.{ℕ, ◌+◌, ◌≤◌, ◌<◌, ◌≡◌, Bool, true, false, ◌||◌, some, ltb, arith}
use native.Mathlib.Decide.{dec_le}
use jev_fabric.Exec.Kernel.{Kernel, Later}
use jev_fabric.Exec.Run.Defs.{drain_grace, elapsed}
use jev_fabric.Exec.Run.State.{Due}

module _ {W : Type 0} (k : Kernel W) (patience pid deadline : ℕ) where
  -- The child was killed just now.
  pub Due-struck :
      (n u z : ℕ) (done flagged flagged' : Bool) (since d : ℕ) (w w' : W)
      → done ≡ false
      → flagged' ≡ true
      → Later k w w'
      → k.dies_by pid w' ≡ some d
      → d ≤ k.clock w' + patience
      → Due k patience pid deadline n 0 0 0 done flagged since w
      → Due k patience pid deadline n u 0 z done flagged' since w'
  Due-struck n u z true flagged flagged' since d w w' e f l m le h = cc
  Due-struck n u z false flagged false since d w w' e f l m le h = cc
  Due-struck n u z false true true since d w w' e f l m le (d0, e0, x, y) =
      (d0, l.doomed pid d0 e0, omega (arith, l.ticks), y)
  Due-struck n u z false false true since d w w' e f l m le (x, y) =
      (d, m, omega arith, omega arith)

  -- The clock was read as `now`, and the deadline has not passed or a kill was sent before.
  pub Due-early :
      (n : ℕ) (done flagged : Bool) (since now : ℕ) (w w' : W)
      → (ltb now deadline || flagged) ≡ true
      → k.clock w ≤ now
      → Later k w w'
      → Due k patience pid deadline n 0 0 0 done flagged since w
      → Due k patience pid deadline n 1 0 0 done flagged since w'
  Due-early n true flagged since now w w' e c l (x, y, z) =
      (omega (arith, l.ticks), omega (arith, l.ticks), z)
  Due-early n false true since now w w' e c l (d, m, x, y) =
      (d, l.doomed pid d m, omega (arith, l.ticks), y)
  Due-early n false false since now w w' e c l (x, y) =
      let early : now < deadline = ground arith in (omega (arith, l.ticks), omega arith)

  -- A child that is done needs no slack but the last.
  pub Due-done :
      (n u f u' f' z : ℕ) (done flagged : Bool) (since : ℕ) (w : W)
      → done ≡ true
      → Due k patience pid deadline n u f z done flagged since w
      → Due k patience pid deadline n u' f' z done flagged since w
  Due-done n u f u' f' z true flagged since w e h = h
  Due-done n u f u' f' z false flagged since w e h = cc

  -- One that is not needs all but the last.
  pub Due-undone :
      (n u f z z' : ℕ) (done flagged : Bool) (since : ℕ) (w : W)
      → done ≡ false
      → Due k patience pid deadline n u f z done flagged since w
      → Due k patience pid deadline n u f z' done flagged since w
  Due-undone n u f z z' true flagged since w e h = cc
  Due-undone n u f z z' false true since w e h = h
  Due-undone n u f z z' false false since w e h = h

  -- waitpid had nothing to say, so that a child that was killed has time left.
  pub Due-waiting :
      (n : ℕ) (done flagged : Bool) (since : ℕ) (w w' : W)
      → done ≡ false
      → ((d : ℕ) → k.dies_by pid w ≡ some d → d ≤ k.clock w → ⊥)
      → Later k w w'
      → Due k patience pid deadline n 1 0 0 done flagged since w
      → Due k patience pid deadline n 1 1 0 done flagged since w'
  Due-waiting n true flagged since w w' e alive l h = cc
  Due-waiting n false true since w w' e alive l (d, m, x, y) = elim (dec_le d (k.clock w)) [
    | yes p ↦ absurd (alive d m p)
    | no p ↦ (d, l.doomed pid d m, omega (arith, l.ticks), omega (arith, p))
  ]
  Due-waiting n false false since w w' e alive l (x, y) = (omega (arith, l.ticks), y)

  -- The child has ended, and the clock was read as `now` after that.
  pub Due-ended :
      (n : ℕ) (done flagged flagged' : Bool) (since now : ℕ) (w w' : W)
      → done ≡ false
      → now ≤ k.clock w'
      → Due k patience pid deadline n 1 0 0 done flagged since w
      → Due k patience pid deadline n 1 1 0 true flagged' now w'
  Due-ended n true flagged flagged' since now w w' e c h = cc
  Due-ended n false true flagged' since now w w' e c (d, m, x, y) = (c, omega arith, omega arith)
  Due-ended n false false flagged' since now w w' e c (x, y) = (c, omega arith, omega arith)

  -- The drain grace has not passed.
  pub Due-draining :
      (n : ℕ) (done flagged : Bool) (since now : ℕ) (w w' : W)
      → done ≡ true
      → ltb drain_grace (elapsed now since) ≡ false
      → k.clock w ≤ now
      → now ≤ k.clock w'
      → Later k w w'
      → Due k patience pid deadline n 1 1 0 done flagged since w
      → Due k patience pid deadline n 1 1 1 done flagged since w'
  Due-draining n false flagged since now w w' e g c c' l h = cc
  Due-draining n true flagged since now w w' e g c c' l (x, y, z) =
      let near : elapsed now since ≤ drain_grace = ground (arith, g) in
      let close : now ≤ since + drain_grace = ground (arith, near, x, c) in
      (omega (arith, l.ticks), omega (arith, l.ticks), omega arith)
