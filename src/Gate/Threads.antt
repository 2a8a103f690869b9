-- ===== src/Gate/Threads.antt =====
-- native/posix.c: helper threads that run `jf_exec_call` take turns at `jf_gate`.
use mathlib.Core.Logic.{ite}
use native.Mathlib.Decide.{ℕ_discrete}
use jev_fabric.Base.{
  ℕ, ◌+◌, ◌<◌, ◌≡◌, ◌≢◌, ◌%◌, ◌^◌, ◌⊎◌, refl, false, Option, none, some, inl, inr, arith, length,
  ◌∙◌, sym, subst, ap, ap₂, fun_ext, Bool-cases, Option-cases, not, ◌&&◌, ltb, length-set, get_or,
  set,
}
use jev_fabric.Os.{Ret, ok, fail}
use jev_fabric.Gate.Defs.{
  Slot, free, reserved, live, Gate, max_jobs, start, register, launch_child, retire, leave,
  jf_cleanup,
}
use jev_fabric.Gate.Table.{weight, busy, busy-set, busy-le, weight_taken, get_or-set, find_free_lem}

-- A thread is outside, or holds what `register` gave it: `some none` is the slot -1.
pub record System : Type 0 where
  pub gate : Gate
  pub slot_of : ℕ → Option (Option ℕ)

abbrev pub update : (ℕ → Option (Option ℕ)) → ℕ → Option (Option ℕ) → ℕ → Option (Option ℕ)
update f t v u = ite (ℕ_discrete t u) v (f u)

-- One critical section of one thread, in the order of `jf_exec_call`; the process may shut down
-- at any time.
pub data Step (s : System) : System → Type 0 where
  enter :
      (t : ℕ)
      → s.slot_of t ≡ none
      → Step s
          (record { gate = (register s.gate).0; slot_of = update s.slot_of t (register s.gate).1 })
  spawn :
      (t i : ℕ) (answer : Ret ℕ)
      → s.slot_of t ≡ some (some i)
      → Step s (record s { gate = (launch_child s.gate i answer).0 })
  reap : (t i : ℕ) → s.slot_of t ≡ some (some i) → Step s (record s { gate = retire s.gate i })
  exit :
      (t i : ℕ)
      → s.slot_of t ≡ some (some i)
      → Step s (record { gate = leave s.gate i; slot_of = update s.slot_of t none })
  shut : Step s (record s { gate = (jf_cleanup s.gate).0 })

pub data Reach : System → Type 0 where
  fresh : Reach (record { gate = start; slot_of = λ _. none })
  later : {s t : System} → Reach s → Step s t → Reach t

pub record Inv (s : System) : Type 0 where
  pub size : length s.gate.pids ≡ max_jobs
  pub counted : s.gate.jobs ≡ busy s.gate.pids
  pub found : (t : ℕ) → s.slot_of t ≢ some none
  pub placed :
      (t i : ℕ) → s.slot_of t ≡ some (some i) → (i < max_jobs) × (get_or s.gate.pids i free ≢ free)
  pub alone : (t u i : ℕ) → s.slot_of t ≡ some (some i) → s.slot_of u ≡ some (some i) → t ≡ u

update_inside :
    (f : ℕ → Option (Option ℕ)) (t u k : ℕ)
    → update f t none u ≡ some (some k)
    → (t ≢ u) × (f u ≡ some (some k))
update_inside f t u k q = ground arith

update_given :
    (f : ℕ → Option (Option ℕ)) (t i u k : ℕ)
    → update f t (some (some i)) u ≡ some (some k)
    → (i ≡ k) ⊎ (f u ≡ some (some k))
update_given f t i u k q = ground arith

launch_cases :
    (g : Gate) (i : ℕ) (answer : Ret ℕ)
    → ((launch_child g i answer).0 ≡ g)
      ⊎ ((pid : ℕ) × ((launch_child g i answer).0 ≡ record g { pids = set g.pids i (live pid) }))
unfolding launch_child
launch_cases g i answer = elim (Bool-cases g.shutdown) [
  | inl down ↦ inl (ground arith)
  | inr up ↦ by_answer answer up
]
  where
    by_answer :
        (answer : Ret ℕ)
        → g.shutdown ≡ false
        → ((launch_child g i answer).0 ≡ g)
          ⊎ ((pid : ℕ) × ((launch_child g i answer).0
                ≡ record g { pids = set g.pids i (live pid) }))
    by_answer (ok pid) up = inr (pid, ground arith)
    by_answer (fail x) up = inl (ground arith)

-- Writing a taken slot anew, not as free.
module _ {s : System} (inv : Inv s) (t i : ℕ) (e : s.slot_of t ≡ some (some i)) where
  open inv use {size, counted, found, placed, alone}

  overwrite-Inv :
      (p : Slot) (g : Gate)
      → p ≢ free
      → g.pids ≡ set s.gate.pids i p
      → g.jobs ≡ s.gate.jobs
      → Inv (record s { gate = g })
  overwrite-Inv p g n eq j = record {
    size = rw eq (length-set s.gate.pids i p ∙ size);
    counted = rw eq (
        omega (
          arith,
          j,
          counted,
          busy-set s.gate.pids i p inside,
          weight_taken p n,
          weight_taken (get_or s.gate.pids i free) (placed t i e).1,
        ));
    found = found;
    placed = λ u k q. rw eq ((placed u k q).0, still u k q);
    alone = alone;
  }
    where
      inside : i < length s.gate.pids
      inside = omega (arith, size, (placed t i e).0)

      still : (u k : ℕ) → s.slot_of u ≡ some (some k) → get_or (set s.gate.pids i p) k free ≢ free
      still u k q = elim (get_or-set s.gate.pids i k p inside) [
        | inl (_, w) ↦ λ z. n (sym w ∙ z)
        | inr (_, w) ↦ λ z. (placed u k q).1 (sym w ∙ z)
      ]

  retire-Inv : Inv (record s { gate = retire s.gate i })
  unfolding retire
  retire-Inv = overwrite-Inv reserved _ (λ z. cc) refl refl

  launch_child-Inv : (answer : Ret ℕ) → Inv (record s { gate = (launch_child s.gate i answer).0 })
  launch_child-Inv answer = elim (launch_cases s.gate i answer) [
    | inl same ↦ subst (λ g. Inv (record s { gate = g })) (sym same) inv
    | inr (pid, new) ↦
        overwrite-Inv (live pid) _ (λ z. cc) (ap (λ g. g.pids) new) (ap (λ g. g.jobs) new)
  ]

  leave-Inv : Inv (record { gate = leave s.gate i; slot_of = update s.slot_of t none })
  unfolding leave
  leave-Inv = record {
    size = length-set s.gate.pids i free ∙ size;
    counted = omega (
      arith,
      counted,
      busy-set s.gate.pids i free inside,
      weight_taken (get_or s.gate.pids i free) (placed t i e).1,
      busy-le s.gate.pids,
      size,
    );
    found = λ u. ground (arith, found u);
    placed = λ u k q. still u k (update_inside s.slot_of t u k q);
    alone = λ u v k q r. ground (arith, alone u v k);
  }
    where
      inside : i < length s.gate.pids
      inside = omega (arith, size, (placed t i e).0)

      still :
          (u k : ℕ)
          → (t ≢ u) × (s.slot_of u ≡ some (some k))
          → (k < max_jobs) × (get_or (set s.gate.pids i free) k free ≢ free)
      still u k (n, q) = elim (get_or-set s.gate.pids i k free inside) [
        | inl (w, _) ↦ absurd (n (alone t u k (rw (← w) e) q))
        | inr (_, w) ↦ ((placed u k q).0, λ z. (placed u k q).1 (sym w ∙ z))
      ]

-- The registration of a thread that is outside.
module _ {s : System} (inv : Inv s) (t : ℕ) (e : s.slot_of t ≡ none) where
  open inv use {size, counted, found, placed, alone}

  register-none : (g : Gate) → (register g).1 ≡ none → (register g).0 ≡ g
  unfolding register
  register-none g h = ground arith

  -- A registered thread always gets a slot of the table, a free one.
  register-some :
      (register s.gate).1 ≢ none
      → (i : ℕ) × (register s.gate ≡ (
        record s.gate { jobs = (s.gate.jobs + 1) % 2 ^ 32; pids = set s.gate.pids i reserved },
        some (some i),
      ))
        × (i < length s.gate.pids)
        × (get_or s.gate.pids i free ≡ free)
  unfolding register
  register-some h = elim (Bool-cases (not s.gate.shutdown && ltb s.gate.jobs max_jobs)) [
    | inr full ↦ absurd (h (ground (arith, full)))
    | inl open_gate ↦
        let few : s.gate.jobs < max_jobs = ground (arith, open_gate) in
        let (i, eq, l, f) = find_free_lem s.gate.pids (omega (arith, few, counted, size)) in
        (i, ground (arith, open_gate, eq), l, f)
  ]

  enter-Inv :
      Inv (record { gate = (register s.gate).0; slot_of = update s.slot_of t (register s.gate).1 })
  enter-Inv = elim (Option-cases (register s.gate).1) [
    | inl refused ↦ subst Inv (sym (unchanged refused)) inv
    | inr (o, given) ↦
        let (i, eq, l, f) = register-some (λ z. cc (z, given)) in
        subst
          (λ (r : Gate × Option (Option ℕ)).
            Inv (record { gate = r.0; slot_of = update s.slot_of t r.1 }))
          (sym eq) (admitted i l f)
  ]
    where
      unchanged :
          (register s.gate).1 ≡ none
          → record { gate = (register s.gate).0; slot_of = update s.slot_of t (register s.gate).1 }
            ≡ s
      unchanged z =
          ap₂ (λ (g : Gate) (f : ℕ → Option (Option ℕ)). record { gate = g; slot_of = f })
            (register-none s.gate z) (fun_ext λ u. rw z (ground (arith, e)))

      taken_at :
          (i k : ℕ)
          → i < length s.gate.pids
          → ((u : ℕ) × (s.slot_of u ≡ some (some k))) ⊎ (i ≡ k)
          → (k < max_jobs) × (get_or (set s.gate.pids i reserved) k free ≢ free)
      taken_at i k l c = elim (get_or-set s.gate.pids i k reserved l) [
        | inl (w, r) ↦ (omega (arith, size, w, l), λ z. cc (z, r))
        | inr (n, r) ↦ elim c [
          | inr w ↦ absurd (n w)
          | inl (u, q) ↦ ((placed u k q).0, λ z. (placed u k q).1 (sym r ∙ z))
        ]
      ]

      admitted :
          (i : ℕ)
          → i < length s.gate.pids
          → get_or s.gate.pids i free ≡ free
          → Inv (record {
            gate = record s.gate {
              jobs = (s.gate.jobs + 1) % 2 ^ 32;
              pids = set s.gate.pids i reserved;
            };
            slot_of = update s.slot_of t (some (some i));
          })
      admitted i l f = record {
        size = length-set s.gate.pids i reserved ∙ size;
        counted = omega (
          arith,
          counted,
          busy-set s.gate.pids i reserved l,
          ap weight f,
          busy-le s.gate.pids,
          size,
        );
        found = λ u. ground (arith, found u);
        placed = λ u k q.
            taken_at i k l
              (elim (update_given s.slot_of t i u k q) [ inl w ↦ inr w | inr r ↦ inl (u, r) ]);
        alone = λ u v k q r. ground (arith, alone u v k, placed u k, placed v k, f);
      }

start-Inv : Inv (record { gate = start; slot_of = λ _. none })
start-Inv = record {
  size = refl;
  counted = refl;
  found = λ t q. cc;
  placed = λ t i q. cc;
  alone = λ t u i q r. cc;
}

Step-Inv : {s u : System} → Step s u → Inv s → Inv u
unfolding jf_cleanup
Step-Inv (enter t e) inv = enter-Inv inv t e
Step-Inv (spawn t i answer e) inv = launch_child-Inv inv t i e answer
Step-Inv (reap t i e) inv = retire-Inv inv t i e
Step-Inv (exit t i e) inv = leave-Inv inv t i e
Step-Inv shut inv = record {
  size = inv.size;
  counted = inv.counted;
  found = inv.found;
  placed = inv.placed;
  alone = inv.alone;
}

-- In every reachable state the table has eight slots, `jf_jobs` counts those taken, and each job
-- in flight has one of its own, none the slot -1.
pub Reach-Inv : {s : System} → Reach s → Inv s
Reach-Inv fresh = start-Inv
Reach-Inv (later r st) = Step-Inv st (Reach-Inv r)
