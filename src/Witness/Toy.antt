-- ===== src/Witness/Toy.antt =====
-- An operating system in which every call succeeds, but for the reads and writes that a signal
-- interrupts.
use jev_fabric.Base.{
  ℕ, zero, suc, ◌+◌, ◌≤◌, ◌<◌, ◌≡◌, true, List, [], some, arith, length, take, drop, length-take,
}
use jev_fabric.Os.{eintr, clear, Ret, ok, fail, Stat, Os, IsLawful, St}
use jev_fabric.Host.Names.{codes}

-- The next descriptor, what is left to read, and the signals to come.
pub record Toy : Type 0 where
  pub next : ℕ
  pub input : List ℕ
  pub signals : ℕ

abbrev toy_stat : Stat
toy_stat = record { is_dir = true; is_reg = true; nlink = 1; uid = 0; group_other = 0; size = 2 }

abbrev fresh_fd : Toy → Ret ℕ × Toy
fresh_fd w = (ok w.next, record w { next = w.next + 1 })

abbrev fine : Toy → Ret (Unit {0}) × Toy
fine w = (ok tt, w)

abbrev toy_read : ℕ → Toy → ℕ → Ret (List ℕ) × Toy
toy_read n w zero = (ok (take n w.input), record w { input = drop n w.input; signals = 0 })
toy_read n w (suc k) = (fail eintr, record w { signals = k })

abbrev toy_write : List ℕ → Toy → ℕ → Ret ℕ × Toy
toy_write bytes w zero = (ok (length bytes), record w { signals = 0 })
toy_write bytes w (suc k) = (fail eintr, record w { signals = k })

abbrev pub toy : Os Toy
toy = record {
  sys_pipe = λ w. (ok (w.next, w.next + 1), record w { next = w.next + 2 });
  sys_cloexec = λ _. fine;
  sys_dup = λ _ _. fresh_fd;
  sys_close = λ _. fine;
  sys_read = λ _ n w. toy_read n w w.signals;
  sys_write = λ _ bytes w. toy_write bytes w w.signals;
  sys_open = λ _ _. fresh_fd;
  sys_openat = λ _ _ _. fresh_fd;
  sys_mkdirat = λ _ _. fine;
  sys_fstat = λ _ w. (ok toy_stat, w);
  sys_fstatat = λ _ _ w. (ok toy_stat, w);
  sys_fsync = λ _. fine;
  sys_renameat = λ _ _ _. fine;
  sys_unlinkat = λ _ _. fine;
  sys_flock = λ _ _. fine;
  sys_setsid = fine;
  sys_malloc = λ _. fine;
  sys_list = λ _ w. (ok [], w);
  sys_readlink = λ _ w. (ok (codes "/bin/jev"), w);
  sys_realpath = λ p w. (ok p, w);
  sys_actions = fine;
  sys_addopen = λ _ _. fine;
  sys_spawn = λ _. fresh_fd;
  sys_thread = fine;
  home = λ _. some (codes "/home/u");
  euid = λ _. 0;
  path_max = 4096;
  interrupts = λ w. w.signals;
}

toy_read-eintr :
    (n : ℕ) (w : Toy) (k : ℕ) → (toy_read n w k).0 ≡ fail eintr → (toy_read n w k).1.signals < k
toy_read-eintr n w zero e = cc
toy_read-eintr n w (suc k) e = omega arith

toy_read-ok :
    (n : ℕ) (w : Toy) (bytes : List ℕ) (k : ℕ)
    → (toy_read n w k).0 ≡ ok bytes
    → (length bytes ≤ n) × ((toy_read n w k).1.signals ≤ k)
toy_read-ok n w bytes zero e = ground (arith, length-take n w.input)
toy_read-ok n w bytes (suc k) e = cc

toy_write-eintr :
    (bytes : List ℕ) (w : Toy) (k : ℕ)
    → (toy_write bytes w k).0 ≡ fail eintr
    → (toy_write bytes w k).1.signals < k
toy_write-eintr bytes w zero e = cc
toy_write-eintr bytes w (suc k) e = omega arith

toy_write-ok :
    (bytes : List ℕ) (w : Toy) (put k : ℕ)
    → (toy_write bytes w k).0 ≡ ok put
    → (put ≤ length bytes) × ((toy_write bytes w k).1.signals ≤ k)
toy_write-ok bytes w put zero e = ground arith
toy_write-ok bytes w put (suc k) e = cc

toy_write-errno : (bytes : List ℕ) (w : Toy) (k : ℕ) → (toy_write bytes w k).0 ≡ fail clear → ⊥
toy_write-errno bytes w zero e = cc
toy_write-errno bytes w (suc k) e = cc

pub toy-IsLawful : IsLawful toy
toy-IsLawful = record {
  read_eintr = λ fd n w. toy_read-eintr n w w.signals;
  read_ok = λ fd n w bytes. toy_read-ok n w bytes w.signals;
  write_eintr = λ fd bytes w. toy_write-eintr bytes w w.signals;
  write_ok = λ fd put bytes w. toy_write-ok bytes w put w.signals;
  write_errno = λ fd bytes w. toy_write-errno bytes w w.signals;
}

-- Twenty bytes to read, and one signal.
abbrev pub booted : St Toy
booted = record {
  world = record { next = 3; input = codes "twenty bytes of text"; signals = 1 };
  errno = clear;
  log = [];
}
