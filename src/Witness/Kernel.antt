-- ===== src/Witness/Kernel.antt =====
-- A machine for `jf_exec_call`: the one of Toy with a clock, the gate, and children that run until
-- they are killed. The theorems on the call and on the shutdown are applied to it.
use jev_fabric.Base.{
  ℕ, ◌+◌, ◌≡◌, refl, ◌∙◌, sym, ap, Bool, true, false, List, [], ◌∷◌, ◌++◌, Option, none, some,
  arith, inl,
}
use jev_fabric.Os.{Event, clear, eintr, Ret, ok, fail, Os, St, Returns}
use jev_fabric.Gate.{Gate, start, free, live, InTable}
use jev_fabric.Exec.{Job, absent}
use jev_fabric.Exec.Kernel.{Kernel, IsLive, Later}
use jev_fabric.Os.{ExitStatus, signaled}
use jev_fabric.Exec.Run.{
  jf_exec_call, Finished, jf_exec_call-Left, SetsErrno, IsReported, jf_exec_call-Reported,
  shut_down, Awaited, shut_down-Awaited,
}
use jev_fabric.Witness.Toy.{Toy, toy, toy-IsLawful, booted}

pub record Machine : Type 0 where
  pub base : Toy
  pub time : ℕ
  pub table : Gate
  pub struck : Bool

abbrev on_base : {A : Type 0} → (Toy → A × Toy) → Machine → A × Machine
on_base call m = ((call m.base).0, record m { base = (call m.base).1 })

abbrev machine_os : Os Machine
machine_os = record {
  sys_pipe = on_base toy.sys_pipe;
  sys_cloexec = λ fd. on_base (toy.sys_cloexec fd);
  sys_dup = λ fd low. on_base (toy.sys_dup fd low);
  sys_close = λ fd. on_base (toy.sys_close fd);
  sys_read = λ fd n. on_base (toy.sys_read fd n);
  sys_write = λ fd bytes. on_base (toy.sys_write fd bytes);
  sys_open = λ p mode. on_base (toy.sys_open p mode);
  sys_openat = λ fd p mode. on_base (toy.sys_openat fd p mode);
  sys_mkdirat = λ fd p. on_base (toy.sys_mkdirat fd p);
  sys_fstat = λ fd. on_base (toy.sys_fstat fd);
  sys_fstatat = λ fd p. on_base (toy.sys_fstatat fd p);
  sys_fsync = λ fd. on_base (toy.sys_fsync fd);
  sys_renameat = λ fd p q. on_base (toy.sys_renameat fd p q);
  sys_unlinkat = λ fd p. on_base (toy.sys_unlinkat fd p);
  sys_flock = λ fd b. on_base (toy.sys_flock fd b);
  sys_setsid = on_base toy.sys_setsid;
  sys_malloc = λ n. on_base (toy.sys_malloc n);
  sys_list = λ fd. on_base (toy.sys_list fd);
  sys_readlink = λ p. on_base (toy.sys_readlink p);
  sys_realpath = λ p. on_base (toy.sys_realpath p);
  sys_actions = on_base toy.sys_actions;
  sys_addopen = λ fd b. on_base (toy.sys_addopen fd b);
  sys_spawn = λ argv. on_base (toy.sys_spawn argv);
  sys_thread = on_base toy.sys_thread;
  home = λ m. toy.home m.base;
  euid = λ m. toy.euid m.base;
  path_max = toy.path_max;
  interrupts = λ m. toy.interrupts m.base;
}

abbrev good : Machine → Ret (Unit {0}) × Machine
good m = (ok tt, m)

-- A child that was killed has ended.
abbrev wait_answer : Bool → Ret (Option ExitStatus)
wait_answer false = ok none
wait_answer true = ok (some (signaled 9))

-- A blocking wait for one that was not waits for ever.
abbrev last_answer : Bool → Machine → Option (Ret ExitStatus × Machine)
last_answer false m = none
last_answer true m = some (ok (signaled 9), m)

abbrev end_of : Bool → Option ℕ
end_of true = some 0
end_of false = none

-- Each poll takes two milliseconds, and then everything is ready.
abbrev pub machine : Kernel Machine
machine = record {
  os = machine_os;
  sys_setup = λ _. good;
  sys_spawnp = λ _ m. (ok 42, m);
  sys_nonblock = λ _. good;
  sys_tick = λ m. (m.time, m);
  sys_interrupt = λ m. (0, m);
  sys_kill = λ _ m. (ok tt, record m { struck = true });
  sys_waitpid = λ _ m. (wait_answer m.struck, m);
  sys_wait = λ _ m. last_answer m.struck m;
  sys_poll = λ _ _ _ m. (
    ok (record { out_ready = true; err_ready = true; in_ready = true }),
    record m { time = m.time + 2000000 },
  );
  gate = λ m. m.table;
  set_gate = λ t m. record m { table = t };
  clock = λ m. m.time;
  dies_by = λ _ m. end_of m.struck;
}

-- Neither the time nor the children change.
still : (m m' : Machine) → m.time ≡ m'.time → m.struck ≡ m'.struck → Later machine m m'
still m m' e f = record { ticks = omega arith; doomed = λ pid d p. ap end_of (sym f) ∙ p }

struck_end : (b : Bool) (d : ℕ) → end_of b ≡ some d → b ≡ true
struck_end true d e = refl
struck_end false d e = cc

kept_waiting : (b : Bool) (m : Machine) → b ≡ true → last_answer b m ≡ none → ⊥
kept_waiting true m e f = cc
kept_waiting false m e f = cc

abbrev is_answered : Option (Ret ExitStatus × Machine) → Bool
is_answered (some (ok _, _)) = true
is_answered _ = false

abbrev time_of : Option (Ret ExitStatus × Machine) → Machine → ℕ
time_of none m = m.time
time_of (some (_, m)) _ = m.time

abbrev struck_of : Option (Ret ExitStatus × Machine) → Machine → Bool
struck_of none m = m.struck
struck_of (some (_, m)) _ = m.struck

ended_after :
    (b : Bool) (m m' : Machine) (answer : Ret ExitStatus)
    → last_answer b m ≡ some (answer, m')
    → Later machine m m'
ended_after true m m' answer e = still m m' (ap (λ r. time_of r m) e) (ap (λ r. struck_of r m) e)
ended_after false m m' answer e = cc

not_eintr : (b : Bool) (m m' : Machine) → last_answer b m ≡ some (fail eintr, m') → ⊥
not_eintr true m m' e = let clash : true ≡ false = ap is_answered e in cc
not_eintr false m m' e = cc

machine-IsLive : IsLive machine 0
machine-IsLive = record {
  lawful = record {
    read_eintr = λ fd n w. toy-IsLawful.read_eintr fd n w.base;
    read_ok = λ fd n w. toy-IsLawful.read_ok fd n w.base;
    write_eintr = λ fd bytes w. toy-IsLawful.write_eintr fd bytes w.base;
    write_ok = λ fd put bytes w. toy-IsLawful.write_ok fd put bytes w.base;
    write_errno = λ fd bytes w. toy-IsLawful.write_errno fd bytes w.base;
  };
  read_later = λ fd n w. still w _ refl refl;
  write_later = λ fd bytes w. still w _ refl refl;
  close_later = λ fd w. still w _ refl refl;
  tick_later = λ w. still w w refl refl;
  tick_between = λ w. (omega arith, omega arith);
  interrupt_later = λ w. still w w refl refl;
  gate_later = λ t w. still w _ refl refl;
  kill_later = λ pid w. record {
    ticks = omega arith;
    doomed = λ pid d e. ap end_of (sym (struck_end w.struck d e)) ∙ e;
  };
  kill_works = λ pid w. (0, refl, omega arith);
  wait_later = λ pid w. still w w refl refl;
  wait_ended = λ pid d w e c. inl (signaled 9, ap wait_answer (struck_end w.struck d e));
  wait_answers = λ pid d w e. kept_waiting w.struck w (struck_end w.struck d e);
  wait_passes = λ pid w w' answer e. ended_after w.struck w w' answer e;
  wait_eintr = λ pid w w' e. absurd (not_eintr w.struck w w' e);
  poll_later = λ a b c w. record { ticks = omega arith; doomed = λ pid d e. e };
  poll_ticks = λ a b c w. omega arith;
}

-- A job of one millisecond, with room for three bytes.
abbrev sleeper : Job
sleeper = record {
  argv = (115 ∷ []) ∷ [];
  input = 7 ∷ [];
  timeout = 1;
  inherit_stdin = false;
  stdin_fd = absent;
  limit = 3;
  bytes = true;
  log_out = absent;
  log_err = absent;
}

abbrev powered : St Machine
powered = record {
  world = record { base = booted.world; time = 9; table = start; struck = false };
  errno = clear;
  log = [];
}

jf_exec_call-Left_example :
    Returns
      (jf_exec_call machine 0 sleeper (0 ∷ 0 ∷ 0 ∷ []) (0 ∷ 0 ∷ 0 ∷ []) powered)
      (Finished machine 0 machine-IsLive (λ _. 0) [] [])
jf_exec_call-Left_example =
    jf_exec_call-Left machine 0 machine-IsLive (λ _. 0) [] [] sleeper (0 ∷ 0 ∷ 0 ∷ [])
      (0 ∷ 0 ∷ 0 ∷ []) (omega arith) refl refl powered (refl, refl)
      (record { ends = ([], refl, λ x. refl); parent = refl; place = refl })

not_clear : (b : Bool) → wait_answer b ≡ fail clear → ⊥
not_clear true e = cc
not_clear false e = cc

machine-SetsErrno : SetsErrno machine
machine-SetsErrno = record {
  pipe_errno = λ w e. cc;
  cloexec_errno = λ fd w e. cc;
  setup_errno = λ step w e. cc;
  spawn_errno = λ argv w e. cc;
  nonblock_errno = λ fd w e. cc;
  wait_errno = λ pid w e. absurd (not_clear w.struck e);
  poll_errno = λ a b c w e. cc;
}

jf_exec_call-Reported_example :
    Returns
      (jf_exec_call machine 0 sleeper (0 ∷ 0 ∷ 0 ∷ []) (0 ∷ 0 ∷ 0 ∷ []) powered)
      (λ c t. IsReported [] c t × Finished machine 0 machine-IsLive (λ _. 0) [] [] c t)
jf_exec_call-Reported_example =
    jf_exec_call-Reported machine 0 machine-SetsErrno machine-IsLive (λ _. 0) [] [] sleeper
      (0 ∷ 0 ∷ 0 ∷ []) (0 ∷ 0 ∷ 0 ∷ []) (omega arith) refl refl powered (refl, refl)
      (record { ends = ([], refl, λ x. refl); parent = refl; place = refl })

-- One child runs.
abbrev occupied : St Machine
occupied = record powered {
  world = record (powered.world) {
    table = record { jobs = 1; shutdown = false; pids = free ∷ live 42 ∷ [] };
  };
}

shut_down-Awaited_example : Returns (shut_down machine occupied) (λ _ t.
    (new : List Event) × (t.log ≡ new ++ [])
    × ((pid : ℕ) → InTable pid (free ∷ live 42 ∷ []) → Awaited pid new))
shut_down-Awaited_example = shut_down-Awaited machine 0 machine-IsLive occupied
