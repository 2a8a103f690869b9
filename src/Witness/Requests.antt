-- ===== src/Witness/Requests.antt =====
-- The theorems on the requests of native/host.c and native/http.c, applied.
use jev_fabric.Base.{
  ◌==◌, ◌+◌, some, true, ℕ, ◌≡◌, ◌≤◌, ◌↔◌, refl, Bool, false, List, [], ◌∷◌, none, some, arith,
  length,
}
use jev_fabric.Os.{St, opened, held, clear, Returns, einval, ◌>>=◌}
use jev_fabric.Marshal.{AllFit, marshal, marshal_refuses, marshal_bounds}
use jev_fabric.Host.Names.{codes}
use jev_fabric.Host.Call.{jfh_call}
use jev_fabric.Host.Request.{
  Fits, meant, failed, jfh_pack, jfh_os_run, jfh_os_run_served, jfh_os_run_refused,
}
use jev_fabric.Http.{
  Curl, Thread, Balanced, jh_post_call, jh_post_call-Balanced, IsSecured, apply_settings, Post,
  Setting, post_refuses, IsServed, post_refuses_iff, Accepted, settings, jh_configure,
  jh_configure-Accepted,
}
use jev_fabric.Exec.{
  Job, open_at, no_outcome, pack_report, jf_exec_start, jf_exec_pack, Accounted,
  jf_exec_start-Accounted, jf_exec_pack-held,
}
use jev_fabric.Witness.Toy.{Toy, toy, booted}

-- No text holds a NUL.
abbrev clean : List ℕ → Bool
clean _ = false

abbrev two_args : List (List ℕ)
two_args = codes "ls" ∷ codes "-l" ∷ []

marshal_refuses_example :
    ((marshal clean 64 two_args).refused ≡ false)
    ↔ ((length two_args ≤ 64) × AllFit clean 64 two_args)
marshal_refuses_example = marshal_refuses clean 64 two_args

marshal_bounds_example :
    (length (marshal clean 1 two_args).argv ≤ 1) × AllFit clean 1 (marshal clean 1 two_args).argv
marshal_bounds_example = marshal_bounds clean 1 two_args

served-Fits : Fits clean (meant toy clean none 1 [] [] [] [] 16)
served-Fits = record {
  op_known = omega arith;
  id_short = omega arith;
  name_short = omega arith;
  text_short = omega arith;
  limit_small = omega arith;
  id_text = refl;
  name_text = refl;
  args_few = omega arith;
  args_fit = tt;
}

jfh_os_run_served_example :
    jfh_os_run toy clean none 1 [] [] [] [] 16 booted
    ≡ (jfh_call toy none (meant toy clean none 1 [] [] [] [] 16)
          >>= jfh_pack (meant toy clean none 1 [] [] [] [] 16))
        booted
jfh_os_run_served_example = jfh_os_run_served toy clean none 1 [] [] [] [] 16 booted served-Fits

jfh_os_run_refused_example :
    jfh_os_run toy clean none 9 [] [] [] [] 16 booted
    ≡ some (record { answered = failed einval; lease_now = none }, booted)
jfh_os_run_refused_example =
    jfh_os_run_refused toy clean none 9 [] [] [] [] 16 booted (λ f. omega (arith, f.op_known))

abbrev small_post : Post
small_post = record {
  url = codes "https://a.example/";
  key = codes "k";
  body = codes "{}";
  timeout = 500;
  out = [];
  out_len = 0;
}

post_refuses_iff_example : (post_refuses clean small_post ≡ false) ↔ IsServed clean small_post
post_refuses_iff_example = post_refuses_iff clean small_post

-- A handle that counts its options, and takes all of them.
abbrev count_option : Setting → ℕ → Bool × ℕ
count_option _ n = (false, n)

jh_configure-Accepted_example :
    (given : List Setting) × Accepted count_option given 0
      (jh_configure count_option small_post none 0).1
    × IsSecured small_post given
unfolding jh_configure settings apply_settings
jh_configure-Accepted_example = jh_configure-Accepted count_option small_post none 0 refl

-- A command with a log for both of its streams.
abbrev logged_job : Job
logged_job = record {
  argv = two_args;
  input = [];
  timeout = 500;
  inherit_stdin = false;
  stdin_fd = open_at 4;
  limit = 32768;
  bytes = false;
  log_out = open_at 5;
  log_err = open_at 5;
}

abbrev with_handles : St Toy
with_handles = record booted { log = opened 5 ∷ opened 4 ∷ [] }

jf_exec_start-Accounted_example :
    Returns (jf_exec_start toy clean logged_job with_handles) (Accounted clean logged_job [])
jf_exec_start-Accounted_example = jf_exec_start-Accounted toy clean logged_job [] with_handles refl

jf_exec_pack-held_example :
    Returns
      (jf_exec_pack toy logged_job no_outcome clear with_handles)
      (λ r t. (held t.log ≡ some []) × (r ≡ pack_report logged_job no_outcome clear))
jf_exec_pack-held_example = jf_exec_pack-held toy logged_job no_outcome clear [] with_handles refl

-- A libcurl that refuses the second header.
abbrev toy_curl : Curl ℕ
toy_curl = record {
  alloc_auth = λ n. (true, n);
  alloc_out = λ n. (true, n);
  easy_init = λ n. (true, n);
  slist_append = λ header n. (n == 0, n + 1);
  easy_setopt = count_option;
  easy_perform = λ n. (true, n);
  getinfo_status = λ n. (some 200, n);
}

abbrev idle_thread : Thread ℕ
idle_thread = record { curl_state = 0; easies = 0; lists = 0; keys = 0 }

jh_post_call-Balanced_example :
    Balanced toy_curl idle_thread (jh_post_call toy_curl true false small_post none idle_thread).1
jh_post_call-Balanced_example =
    jh_post_call-Balanced toy_curl true false small_post none idle_thread
