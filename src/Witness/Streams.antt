-- ===== src/Witness/Streams.antt =====
-- The theorems on native/posix.c and on the response body of native/http.c, applied.
use native.Mathlib.Decide.{ℕ_discrete}
use jev_fabric.Base.{
  ℕ, ◌≡◌, ◌≤◌, ◌<◌, ◌⊎◌, refl, false, List, [], ◌∷◌, none, some, true, arith, length, replicate,
  length-replicate,
}
use jev_fabric.Os.{ok, clear, Returns}
use jev_fabric.Tail.{Capture, Shows, jf_tail, jf_tail-Shows}
use jev_fabric.Capture.{Stream, chunk_size, Followed, received, jf_read, jf_read-Followed}
use jev_fabric.Gate.{
  launch_child, retire, jf_cleanup, find_free, reap, Steps, stay, and_then, InTable, Among,
  jf_cleanup-Within, Inv, Reach, fresh, later, enter, update, Reach-Inv, System, start, register,
}
use jev_fabric.Http.{Post, Received, body_limit, jh_write, jh_write-Received}
use jev_fabric.Witness.Toy.{toy, toy-IsLawful, booted}

abbrev empty_capture : Capture
empty_capture = record { dest = 0 ∷ 0 ∷ 0 ∷ []; used = 0; cut = false }

empty_capture-Shows : Shows 3 [] empty_capture
empty_capture-Shows = record { room = refl; fits = omega arith; window = refl; told = refl }

jf_tail-Shows_example :
    (c' : Capture) × (jf_tail empty_capture (1 ∷ 2 ∷ 3 ∷ 4 ∷ 5 ∷ []) 4 3 ≡ some c')
    × Shows 3 (1 ∷ 2 ∷ 3 ∷ 4 ∷ []) c'
jf_tail-Shows_example =
    jf_tail-Shows 3 4 [] (1 ∷ 2 ∷ 3 ∷ 4 ∷ 5 ∷ []) empty_capture (omega arith) (omega arith)
      (omega arith) empty_capture-Shows

abbrev empty_stream : Stream
empty_stream = record {
  fd = some 5;
  capture = empty_capture;
  spool = record { file = some 4; logged = 0; log_error = clear };
  limit = 3;
}

jf_read-Followed_example :
    Returns
      (jf_read toy empty_stream 5 booted)
      (Followed 4 [] empty_stream (received (toy.sys_read 5 chunk_size booted.world).0))
jf_read-Followed_example =
    jf_read-Followed toy toy-IsLawful 4 [] 5 empty_stream booted (omega arith)
      (empty_capture-Shows, (refl, refl, refl, refl))

abbrev idle : System
idle = record { gate = start; slot_of = λ _. none }

-- Thread 7 has registered.
abbrev one_in : System
one_in = record { gate = (register start).0; slot_of = update (λ _. none) 7 (register start).1 }

entered : Reach one_in
entered = later fresh (enter 7 refl)

Reach-Inv_example : Inv one_in
Reach-Inv_example = Reach-Inv entered

-- It has started child 42.
abbrev one_child : System
one_child = record one_in { gate = (launch_child one_in.gate 0 (ok 42)).0 }

-- After the shutdown, its child has ended.
abbrev one_gone : System
one_gone = record one_in { gate = retire (jf_cleanup one_child.gate).0 0 }

shut_then_reaped : Steps (record one_child { gate = (jf_cleanup one_child.gate).0 }) one_gone
unfolding register find_free ℕ_discrete
shut_then_reaped = and_then stay (reap 7 0 refl)

jf_cleanup-Within_example :
    (one_gone.gate.shutdown ≡ true)
    × ((pid : ℕ) → InTable pid one_gone.gate.pids → Among pid (jf_cleanup one_child.gate).1)
jf_cleanup-Within_example = jf_cleanup-Within one_child shut_then_reaped

-- A fresh buffer of `n` bytes.
buffer : (n : ℕ) → (out : List ℕ) × (length out ≡ n)
buffer n = (replicate n 0, length-replicate n 0)

abbrev empty_post : Post
empty_post = record {
  url = [];
  key = [];
  body = [];
  timeout = 1;
  out = (buffer body_limit).0;
  out_len = 0;
}

empty_post-Received : Received body_limit [] empty_post
empty_post-Received = record {
  room = (buffer body_limit).1;
  whole = refl;
  fits = omega arith;
  shown = refl;
}

jh_write-Received_example :
    ((body_limit < 2) × (jh_write (1 ∷ 2 ∷ []) empty_post ≡ some (0, empty_post)))
    ⊎ ((2 ≤ body_limit)
        × ((p' : Post) × (jh_write (1 ∷ 2 ∷ []) empty_post ≡ some (2, p'))
            × Received body_limit (1 ∷ 2 ∷ []) p'))
jh_write-Received_example =
    jh_write-Received [] (1 ∷ 2 ∷ []) empty_post empty_post-Received (omega arith)
