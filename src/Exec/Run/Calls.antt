-- ===== src/Exec/Run/Calls.antt =====
-- native/posix.c: the small calls of `jf_exec_call` and its loop, as they act on the ledgers.
use jev_fabric.Base.{ℕ, ◌+◌, ◌≤◌, ◌≡◌, refl, List, [], ◌∷◌, Option, none, some, arith}
use jev_fabric.Os.{St, pure, killed, Returns, Returns-call, close}
use jev_fabric.Exec.Kernel.{
  Child, Kernel, IsLive, Later, Later-trans, Holds-closed, Holds-same, one,
}
use jev_fabric.Exec.Run.Defs.{close_end, kill_group}
use jev_fabric.Exec.Run.Streams.{Quiet}
use jev_fabric.Exec.Run.State.{Sound}

module _ {W : Type 0} (k : Kernel W) (patience : ℕ) (live : IsLive k patience) where
  -- The run is sound, and some time has gone on.
  abbrev pub Sounds : (ℕ → ℕ) → List Child → List ℕ → W → St W → Type 0
  Sounds often family slots w t = Sound often family slots t.log × Later k w t.world

  -- A closed end is owned no more.
  pub close_end-Sounds :
      (end : Option ℕ) (often rest : ℕ → ℕ) (family : List Child) (slots : List ℕ) (w : W)
      (s : St W)
      → ((x : ℕ) → often x ≡ one end x + rest x)
      → Sounds often family slots w s
      → Returns (close_end k end s) (λ _ t. Sounds rest family slots w t)
  unfolding close_end close
  close_end-Sounds none often rest family slots w s split (v, l) = (
    record {
      ends = Holds-same s.log often rest v.ends (λ x. omega (arith, split x));
      parent = v.parent;
      place = v.place;
    },
    l,
  )
  close_end-Sounds (some fd) often rest family slots w s split (v, l) = (
    record {
      ends = Holds-closed s.log fd often rest v.ends split;
      parent = v.parent;
      place = v.place;
    },
    Later-trans k w s.world _ l (live.close_later fd s.world),
  )

  -- After a kill: the ledgers are as they were, and the child is to end.
  abbrev pub Struck : ℕ → St W → Unit {0} → St W → Type 0
  Struck pid s _ t =
      Quiet k patience live s t
      × ((d : ℕ) × (k.dies_by pid t.world ≡ some d) × (d ≤ k.clock t.world + patience))

  pub kill_group-Struck :
      (target : Option ℕ) (pid : ℕ) (s : St W)
      → target ≡ some pid
      → Returns (kill_group k target s) (Struck pid s)
  unfolding kill_group
  kill_group-Struck none pid s e = cc
  kill_group-Struck (some p) pid s e =
      let same : p ≡ pid = cc in
      Returns-call (k.sys_kill p) (λ _. killed p ∷ []) (λ _. pure tt) s (Struck pid s)
        (λ _ _. ((refl, live.kill_later p s.world), rw (← same) (live.kill_works p s.world)))
        (λ _ _. ((refl, live.kill_later p s.world), rw (← same) (live.kill_works p s.world)))
