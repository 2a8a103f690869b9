-- ===== src/Exec/Run/Loop.antt =====
-- native/posix.c: the poll loop ends, and its label `cleanup` leaves nothing behind.
use native.Mathlib.Numerals.{add-one}
use jev_fabric.Base.{
  ℕ, zero, suc, ◌+◌, ◌<◌, ◌≡◌, ◌⊎◌, ◌∙◌, ap, refl, inl, inr, true, ◌||◌, List, [], ◌∷◌, ◌++◌,
  Option, none, some, arith,
}
use jev_fabric.Os.{
  Errno, is_eintr, eintr, ExitStatus, gone, reaped, ok, fail, Ret, Event, M, ◌>>=◌, St, pure,
  Returns, Returns-if,
}
use jev_fabric.Exec.Kernel.{
  Child, alive, ended, reaped_first, gone_first, Kernel, IsLive, note, block,
}
use jev_fabric.Exec.Run.Defs.{
  Run, Next, break_with, goes_on, check_interrupt, check_deadline, check_child, check_grace,
  end_input, poll_once, round_to_deadline, round_to_child, round_to_grace, round_to_input, round,
  rounds, wait_next, wait_rounds,
}
use jev_fabric.Exec.Run.State.{Sound, SoundRun, Looping, After, piece-After, Due-pos}
use jev_fabric.Exec.Run.Control.{check_interrupt-Out, check_deadline-Out}
use jev_fabric.Exec.Run.Reap.{check_child-Out, check_grace-Out}
use jev_fabric.Exec.Run.Transfer.{end_input-Out, poll_once-Out}

pub is_eintr-eq : (e : Errno) → is_eintr e ≡ true → e ≡ eintr
is_eintr-eq eintr h = refl
is_eintr-eq e h = cc

-- A call that may wait for ever, and what follows it.
pub Returns-block :
    {W A B : Type 0} (k : Kernel W) (call : W → Option (Ret A × W)) (did : A → List Event)
    (next : Option A → M W B) (s : St W) (Q : B → St W → Type 0)
    → (call s.world ≡ none → ⊥)
    → ((v : A) (w : W)
        → call s.world ≡ some (ok v, w)
        → Returns (next (some v) (record s { world = w; log = did v ++ s.log })) Q)
    → ((e : Errno) (w : W)
        → call s.world ≡ some (fail e, w)
        → Returns (next none (record s { world = w; errno = e })) Q)
    → Returns ((block k call did >>= next) s) Q
Returns-block {W} {A} k call did next s Q ends good bad = go (call s.world) refl
  where
    go : (r : Option (Ret A × W)) → call s.world ≡ r → Returns ((block k (λ _. r) did >>= next) s) Q
    go none e = absurd (ends e)
    go (some (ok v, w)) e = good v w e
    go (some (fail x, w)) e = bad x w e

module _ {W : Type 0} (k : Kernel W) (patience : ℕ) (live : IsLive k patience) (b : ℕ → ℕ)
    (a : List Child) (g : List ℕ) where
  module _ (pid deadline : ℕ) where
    abbrev In : ℕ → ℕ → ℕ → ℕ → Run → St W → Type 0
    In n u f z r s = Looping k patience pid deadline b a g n u f z r s

    abbrev Out : ℕ → ℕ → ℕ → ℕ → Next → St W → Type 0
    Out n u f z = After k patience b a g (In n u f z)

    round_to_deadline-Out :
        (n : ℕ) (r : Run) (s : St W)
        → In n 0 0 0 r s
        → Returns (round_to_deadline k deadline r s) (Out n 1 0 0)
    unfolding round_to_deadline
    round_to_deadline-Out n r s i =
        piece-After k patience b a g (In n 0 0 0) (In n 1 0 0) (check_interrupt k r)
          (check_deadline k deadline) s
          (check_interrupt-Out k patience live pid deadline b a g n r s i)
          (check_deadline-Out k patience live pid deadline b a g n)

    round_to_child-Out :
        (n : ℕ) (r : Run) (s : St W)
        → In n 0 0 0 r s
        → Returns (round_to_child k pid deadline r s) (Out n 1 1 0)
    unfolding round_to_child
    round_to_child-Out n r s i =
        piece-After k patience b a g (In n 1 0 0) (In n 1 1 0) (round_to_deadline k deadline r)
          (check_child k pid) s (round_to_deadline-Out n r s i)
          (check_child-Out k patience live pid deadline b a g n)

    round_to_grace-Out :
        (n : ℕ) (r : Run) (s : St W)
        → In n 0 0 0 r s
        → Returns (round_to_grace k pid deadline r s) (Out n 1 1 1)
    unfolding round_to_grace
    round_to_grace-Out n r s i =
        piece-After k patience b a g (In n 1 1 0) (In n 1 1 1) (round_to_child k pid deadline r)
          (check_grace k) s (round_to_child-Out n r s i)
          (check_grace-Out k patience live pid deadline b a g n)

    round_to_input-Out :
        (n : ℕ) (r : Run) (s : St W)
        → In n 0 0 0 r s
        → Returns (round_to_input k pid deadline r s) (Out n 1 1 1)
    unfolding round_to_input
    round_to_input-Out n r s i =
        piece-After k patience b a g (In n 1 1 1) (In n 1 1 1) (round_to_grace k pid deadline r)
          (end_input k) s (round_to_grace-Out n r s i)
          (end_input-Out k patience live pid deadline b a g n 1)

    -- A round takes one off what is left.
    round-Out :
        (n : ℕ) (r : Run) (s : St W)
        → In (n + 1) 0 0 0 r s
        → Returns (round k pid deadline r s) (Out n 0 0 0)
    unfolding round
    round-Out n r s i =
        piece-After k patience b a g (In (n + 1) 1 1 1) (In n 0 0 0)
          (round_to_input k pid deadline r) (poll_once k) s (round_to_input-Out (n + 1) r s i)
          (poll_once-Out k patience live pid deadline b a g n)

    -- With as much fuel as rounds are left, the loop ends.
    pub rounds-Sound :
        (n : ℕ) (r : Run) (s : St W)
        → In n 0 0 0 r s
        → Returns (rounds k n pid deadline r s) (After k patience b a g (SoundRun k patience b a g))
    unfolding rounds
    rounds-Sound zero r s i = absurd (
        omega (
          arith,
          Due-pos k patience pid deadline 0 r.done (r.timed_out || r.cancelled) r.exited_at s.world
              i.due,
        ))
    rounds-Sound (suc n) r s i =
        Returns-if (goes_on r) _ (pure (break_with r)) s
          (After k patience b a g (SoundRun k patience b a g))
          (λ _.
            piece-After k patience b a g (In n 0 0 0) (SoundRun k patience b a g)
              (round k pid deadline r) (rounds k n pid deadline) s (round-Out n r s (rw add-one i))
              (rounds-Sound n))
          (λ _. i.sound)

  -- What a blocking wait leaves: the child was reaped, with the status that it ended with, or
  -- waitpid knew none.
  abbrev pub Waited : ℕ → (ℕ → ℕ) → List ℕ → St W → Type 0
  Waited pid often slots t =
      (f : List Child) × ((f ≡ a) ⊎ ((status : ExitStatus) × (f ≡ ended pid status ∷ a)))
      × Sound often f slots t.log

  -- It ends, since the child is to end.
  pub wait_rounds-Waited :
      (fuel pid d : ℕ) (often : ℕ → ℕ) (slots : List ℕ) (s : St W)
      → k.os.interrupts s.world < fuel
      → k.dies_by pid s.world ≡ some d
      → Sound often (alive pid ∷ a) slots s.log
      → Returns (wait_rounds k fuel pid s) (λ _ t. Waited pid often slots t)
  unfolding wait_rounds wait_next
  wait_rounds-Waited zero pid d often slots s enough dies v = absurd (omega arith)
  wait_rounds-Waited (suc fuel) pid d often slots s enough dies v =
      Returns-block k (k.sys_wait pid) (λ status. reaped pid status ∷ [])
        (wait_next k (wait_rounds k fuel pid) pid) s (λ _ t. Waited pid often slots t)
        (live.wait_answers pid d s.world dies)
        (λ status w eq. (
          ended pid status ∷ a,
          inr (status, refl),
          record {
            ends = v.ends;
            parent = rw (v.parent) (reaped_first pid status a);
            place = v.place;
          },
        ))
        (λ x w eq.
          Returns-if (is_eintr x) (wait_rounds k fuel pid) (note k (gone pid)) _
            (λ _ t. Waited pid often slots t)
            (λ q.
              let same : x ≡ eintr = is_eintr-eq x q in
              let fewer = live.wait_eintr pid s.world w (eq ∙ ap (λ y. some (fail y, w)) same) in
              let l = live.wait_passes pid s.world w (fail x) eq in
              wait_rounds-Waited fuel pid d often slots _ (omega (arith, fewer, enough))
                (l.doomed pid d dies) v)
            (λ _. (
              a,
              inl refl,
              record { ends = v.ends; parent = rw (v.parent) (gone_first pid a); place = v.place },
            )))
