-- ===== src/Witness/Posts.antt =====
-- The theorems on the answers of native/http.c and on `jh_load`, applied.
use jev_fabric.Base.{
  ℕ, ◌+◌, ◌≡◌, ◌↔◌, ◌%◌, ◌^◌, refl, Bool, true, false, List, [], ◌∷◌, none, some, arith, take,
  replicate,
}
use jev_fabric.Os.{clear}
use jev_fabric.Host.Names.{codes}
use jev_fabric.Http.{
  Post, Curl, Thread, ended_with, IsServed, Sent, LoadCall, Usable, jh_load, jh_load-Usable,
  PostReport, fetched, working_on, c_string, reply_of, jh_post_pack, jh_post_pack_wiped,
  jh_post_pack-Sent, native_http_post_run, post_refuses, jh_https, jh_post_call, post_transfer,
  headers_made, with_headers, transfer, release_all, jh_configure, settings, apply_settings,
}

-- A request with two bytes of a response, in a buffer of three.
abbrev answered_post : Post
answered_post = record {
  url = codes "https://a.example/";
  key = codes "k";
  body = codes "{}";
  timeout = 500;
  out = 79 ∷ 75 ∷ 0 ∷ [];
  out_len = 2;
}

jh_post_pack_wiped_example :
    jh_post_pack (ended_with clear 200) answered_post
    ≡ some (record {
      reply = reply_of (ended_with clear 200) (take 2 (79 ∷ 75 ∷ 0 ∷ []));
      freed = c_string (codes "https://a.example/") ∷ replicate 2 0 ∷ replicate 3 0 ∷ [];
    })
jh_post_pack_wiped_example = jh_post_pack_wiped (ended_with clear 200) answered_post (omega arith)

-- A libcurl that does everything.
abbrev able_curl : Curl ℕ
able_curl = record {
  alloc_auth = λ n. (true, n);
  alloc_out = λ n. (true, n);
  easy_init = λ n. (true, n);
  slist_append = λ header n. (true, n + 1);
  easy_setopt = λ option n. (false, n + 1);
  easy_perform = λ n. (true, n);
  getinfo_status = λ n. (some 200, n);
}

abbrev no_nul : List ℕ → Bool
no_nul text = false

abbrev fresh_thread : Thread ℕ
fresh_thread = record { curl_state = 0; easies = 0; lists = 0; keys = 0 }

abbrev fetched_ok : PostReport
fetched_ok = record {
  reply = fetched 200 (79 ∷ 75 ∷ []);
  freed = c_string (codes "https://a.example/") ∷ replicate 2 0 ∷ replicate 3 0 ∷ [];
}

answered_post-run : native_http_post_run no_nul answered_post ≡ some (working_on answered_post)
unfolding native_http_post_run post_refuses jh_https
answered_post-run = refl

able_curl-call :
    (jh_post_call able_curl true false answered_post none fresh_thread).0 ≡ ended_with clear 200
unfolding jh_post_call post_transfer headers_made with_headers transfer release_all jh_configure
    settings apply_settings
able_curl-call = refl

answered_post-packed :
    jh_post_pack (jh_post_call able_curl true false answered_post none fresh_thread).0 answered_post
    ≡ some fetched_ok
answered_post-packed =
    rw able_curl-call (jh_post_pack_wiped (ended_with clear 200) answered_post (omega arith))

jh_post_pack-Sent_example :
    IsServed no_nul answered_post
    × ((n : ℕ) × Sent able_curl answered_post none n × (200 ≡ n % 2 ^ 32))
jh_post_pack-Sent_example =
    jh_post_pack-Sent able_curl no_nul true false answered_post answered_post answered_post none
      fresh_thread fetched_ok 200 (79 ∷ 75 ∷ []) answered_post-run answered_post-packed refl

-- A machine with libcurl, which counts the calls.
abbrev linked : LoadCall → ℕ → Bool × ℕ
linked c n = (true, n + 1)

jh_load-Usable_example : ((jh_load linked 0).0 ≡ true) ↔ Usable linked 0
jh_load-Usable_example = jh_load-Usable linked 0
