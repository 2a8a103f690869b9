-- ===== src/Exec/Run/Shutdown.antt =====
-- native/posix.c, `jf_cleanup`: the children of the table are killed, and then waited for.
use jev_fabric.Base.{
  ℕ, zero, suc, ◌+◌, ◌<◌, ◌≡◌, ◌⊎◌, ◌∙◌, refl, ap, sym, List, [], ◌∷◌, ◌++◌, Option, none, some,
  inl, inr, arith,
}
use jev_fabric.Os.{
  Event, killed, reaped, gone, St, M, ◌>>=◌, ◌>>◌, pure, fail, is_eintr, Returns, Returns-bind,
  Returns-call, Returns-if, Returns-weaken,
}
use jev_fabric.Gate.{Slot, free, reserved, live, InTable, jf_cleanup}
use jev_fabric.Exec.Kernel.{Kernel, IsLive, Later, Later-refl, Later-trans, under_gate, note}
use jev_fabric.Exec.Run.Defs.{kill_group, interrupts_left, wait_next, wait_rounds}
use jev_fabric.Exec.Run.Loop.{is_eintr-eq, Returns-block}

module _ {W : Type 0} (k : Kernel W) where
  -- if (owned[i] > 0) kill(-owned[i], SIGKILL);
  unfoldable pub kill_owned : List Slot → M W (Unit {0})
  kill_owned [] = pure tt
  kill_owned (free ∷ ps) = kill_owned ps
  kill_owned (reserved ∷ ps) = kill_owned ps
  kill_owned (live pid ∷ ps) = kill_group k (some pid) >> kill_owned ps

  -- while (waitpid(owned[i], NULL, 0) < 0 && errno == EINTR) {}
  unfoldable pub wait_owned : List Slot → M W (Unit {0})
  wait_owned [] = pure tt
  wait_owned (free ∷ ps) = wait_owned ps
  wait_owned (reserved ∷ ps) = wait_owned ps
  wait_owned (live pid ∷ ps) = interrupts_left k >>= λ n. wait_rounds k (n + 1) pid >> wait_owned ps

  -- The gate is shut, and the table copied. The lock is held until the children have been sent their
  -- signal.
  unfoldable pub shut_down : M W (Unit {0})
  shut_down = under_gate k (λ _. none) (λ g. ((jf_cleanup g).0, g.pids)) >>= λ owned.
      kill_owned owned >> wait_owned owned

-- The child that an event is the end of.
abbrev pub ended_by : Event → Option ℕ
ended_by (reaped pid _) = some pid
ended_by (gone pid) = some pid
ended_by _ = none

-- A log in which `pid` was reaped, or waitpid knew none.
abbrev pub Awaited : ℕ → List Event → Type 0
Awaited pid [] = ⊥
Awaited pid (e ∷ log) = (ended_by e ≡ some pid) ⊎ Awaited pid log

Awaited-older : (pid : ℕ) (new old : List Event) → Awaited pid old → Awaited pid (new ++ old)
Awaited-older pid [] old m = m
Awaited-older pid (e ∷ new) old m = inr (Awaited-older pid new old m)

Awaited-newer : (pid : ℕ) (new old : List Event) → Awaited pid new → Awaited pid (new ++ old)
Awaited-newer pid [] old m = absurd m
Awaited-newer pid (e ∷ new) old (inl m) = inl m
Awaited-newer pid (e ∷ new) old (inr m) = inr (Awaited-newer pid new old m)

-- What was done between two states, the newest first.
abbrev Did : {W : Type 0} → St W → List Event → St W → Type 0
Did s new t = t.log ≡ new ++ s.log

append_assoc : (a b c : List Event) → (a ++ b) ++ c ≡ a ++ (b ++ c)
append_assoc [] b c = refl
append_assoc (e ∷ a) b c = ap (λ l. e ∷ l) (append_assoc a b c)

module _ {W : Type 0} (k : Kernel W) (patience : ℕ) (lives : IsLive k patience) where
  -- The child is to end.
  abbrev Doomed : ℕ → W → Type 0
  Doomed pid w = (d : ℕ) × (k.dies_by pid w ≡ some d)

  AllDoomed : List Slot → W → Type 0
  AllDoomed ps w = (pid : ℕ) → InTable pid ps → Doomed pid w

  doomed-Later : (ps : List Slot) (w w' : W) → Later k w w' → AllDoomed ps w → AllDoomed ps w'
  unfolding AllDoomed
  doomed-Later ps w w' l all pid m = let (d, e) = all pid m in (d, l.doomed pid d e)

  -- What the first loop leaves: every child of the table is to end.
  abbrev Killed : List Slot → St W → St W → Type 0
  Killed ps s t =
      Later k s.world t.world × AllDoomed ps t.world × ((new : List Event) × Did s new t)

  kill_group-Killed :
      (pid : ℕ) (s : St W) → Returns (kill_group k (some pid) s) (λ _ t. Killed (live pid ∷ []) s t)
  unfolding kill_group AllDoomed
  kill_group-Killed pid s =
      let (d, e, x) = lives.kill_works pid s.world in
      let doomed : AllDoomed (live pid ∷ []) (k.sys_kill pid s.world).1 = λ p m. elim m [
        | inl same ↦ (d, ap (λ q. k.dies_by q (k.sys_kill pid s.world).1) same ∙ e)
        | inr none_more ↦ absurd none_more
      ] in
      Returns-call (k.sys_kill pid) (λ _. killed pid ∷ []) (λ _. pure tt) s
        (λ _ t. Killed (live pid ∷ []) s t)
        (λ _ _. (lives.kill_later pid s.world, doomed, (killed pid ∷ [], refl)))
        (λ _ _. (lives.kill_later pid s.world, doomed, ([], refl)))

  kill_owned-Killed :
      (ps : List Slot) (s : St W) → Returns (kill_owned k ps s) (λ _ t. Killed ps s t)
  unfolding kill_owned AllDoomed
  kill_owned-Killed [] s = (Later-refl k s.world, (λ pid m. absurd m), ([], refl))
  kill_owned-Killed (free ∷ ps) s = kill_owned-Killed ps s
  kill_owned-Killed (reserved ∷ ps) s = kill_owned-Killed ps s
  kill_owned-Killed (live pid ∷ ps) s =
      Returns-bind (kill_group k (some pid)) _ s (λ _ t. Killed (live pid ∷ []) s t) _
        (kill_group-Killed pid s)
        (λ _ t (l, one_doomed, (new, e)).
          Returns-weaken (kill_owned k ps t) (λ _ u. Killed ps t u) _ (kill_owned-Killed ps t)
            (λ _ u (l', doomed, (new', e')). (
              Later-trans k s.world t.world u.world l l',
              (λ p m. elim m [
                | inl same ↦ doomed-Later (live pid ∷ []) t.world u.world l' one_doomed p (inl same)
                | inr other ↦ doomed p other
              ]),
              (new' ++ new, e' ∙ ap (λ r. new' ++ r) e ∙ sym (append_assoc new' new s.log)),
            )))

  -- What the second loop leaves.
  abbrev Waits : List Slot → St W → St W → Type 0
  Waits ps s t =
      Later k s.world t.world
      × ((new : List Event) × Did s new t × ((pid : ℕ) → InTable pid ps → Awaited pid new))

  wait_rounds-Waits :
      (fuel pid d : ℕ) (s : St W)
      → k.os.interrupts s.world < fuel
      → k.dies_by pid s.world ≡ some d
      → Returns (wait_rounds k fuel pid s) (λ _ t. Waits (live pid ∷ []) s t)
  unfolding wait_rounds wait_next
  wait_rounds-Waits zero pid d s enough dies = absurd (omega arith)
  wait_rounds-Waits (suc fuel) pid d s enough dies =
      Returns-block k (k.sys_wait pid) (λ status. reaped pid status ∷ [])
        (wait_next k (wait_rounds k fuel pid) pid) s (λ _ t. Waits (live pid ∷ []) s t)
        (lives.wait_answers pid d s.world dies)
        (λ status w eq. (
          lives.wait_passes pid s.world w _ eq,
          (reaped pid status ∷ [], refl, the_one (reaped pid status) refl),
        ))
        (λ x w eq.
          let l = lives.wait_passes pid s.world w (fail x) eq in
          Returns-if (is_eintr x) (wait_rounds k fuel pid) (note k (gone pid)) _
            (λ _ t. Waits (live pid ∷ []) s t)
            (λ q.
              let fewer =
                lives.wait_eintr pid s.world w
                  (eq ∙ ap (λ y. some (fail y, w)) (is_eintr-eq x q)) in
              Returns-weaken (wait_rounds k fuel pid _)
                (λ _ t. Waits (live pid ∷ []) (record s { world = w; errno = x }) t) _
                (wait_rounds-Waits fuel pid d (record s { world = w; errno = x })
                  (omega (arith, fewer, enough)) (l.doomed pid d dies))
                (λ _ t v. (Later-trans k s.world w t.world l v.0, v.1)))
            (λ _. (l, (gone pid ∷ [], refl, the_one (gone pid) refl))))
    where
      the_one :
          (e : Event)
          → ended_by e ≡ some pid
          → (p : ℕ) → InTable p (live pid ∷ [])
          → Awaited p (e ∷ [])
      the_one e f p (inl same) = inl (f ∙ ap some (sym same))
      the_one e f p (inr no_more) = absurd no_more

  wait_owned-Waits :
      (ps : List Slot) (s : St W)
      → AllDoomed ps s.world
      → Returns (wait_owned k ps s) (λ _ t. Waits ps s t)
  unfolding wait_owned AllDoomed
  wait_owned-Waits [] s all = (Later-refl k s.world, ([], refl, λ pid m. absurd m))
  wait_owned-Waits (free ∷ ps) s all = wait_owned-Waits ps s all
  wait_owned-Waits (reserved ∷ ps) s all = wait_owned-Waits ps s all
  wait_owned-Waits (live pid ∷ ps) s all =
      let (d, dies) = all pid (inl refl) in
      Returns-bind (wait_rounds k (k.os.interrupts s.world + 1) pid) _ s
        (λ _ t. Waits (live pid ∷ []) s t) _
        (wait_rounds-Waits (k.os.interrupts s.world + 1) pid d s (omega arith) dies)
        (λ _ t (l, (new, e, one_gone)).
          Returns-weaken (wait_owned k ps t) (λ _ u. Waits ps t u) _
            (wait_owned-Waits ps t (doomed-Later ps s.world t.world l (λ p m. all p (inr m))))
            (λ _ u (l', (new', e', others)). (
              Later-trans k s.world t.world u.world l l',
              (
                new' ++ new,
                e' ∙ ap (λ r. new' ++ r) e ∙ sym (append_assoc new' new s.log),
                λ p m. elim m [
                  | inl same ↦ Awaited-older p new' new (one_gone p (inl same))
                  | inr other ↦ Awaited-newer p new' new (others p other)
                ],
              ),
            )))

  -- On a live kernel, where a waitpid without WNOHANG is known to end only for a child that was
  -- killed, `jf_cleanup` returns. Then every child that was live in the table has been reaped since
  -- it began, or waitpid knew none.
  pub shut_down-Awaited :
      (s : St W)
      → Returns (shut_down k s) (λ _ t.
        (new : List Event) × (t.log ≡ new ++ s.log)
        × ((pid : ℕ) → InTable pid (k.gate s.world).pids → Awaited pid new))
  unfolding shut_down
  shut_down-Awaited s =
      let owned = (k.gate s.world).pids in
      let shut : St W = record s { world = k.set_gate (jf_cleanup (k.gate s.world)).0 s.world } in
      Returns-bind (kill_owned k owned) (λ _. wait_owned k owned) shut (λ _ t. Killed owned shut t)
        _ (kill_owned-Killed owned shut)
        (λ _ t (l, doomed, (new, e)).
          Returns-weaken (wait_owned k owned t) (λ _ u. Waits owned t u) _
            (wait_owned-Waits owned t doomed)
            (λ _ u (l', (new', e', all)). (
              new' ++ new,
              e' ∙ ap (λ r. new' ++ r) e ∙ sym (append_assoc new' new s.log),
              λ p m. Awaited-newer p new' new (all p m),
            )))
