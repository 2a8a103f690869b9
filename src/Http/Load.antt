-- ===== src/Http/Load.antt =====
-- native/http.c: `jh_symbol` and `jh_load`, which find libcurl at run time. The dynamic loader and
-- libcurl are a parameter.
use jev_fabric.Base.{ℕ, zero, suc, Bool, true, false, not, List, [], ◌∷◌, if◌then◌else◌}
use jev_fabric.Host.Names.{codes}

-- What is asked for: a library, a symbol of it, curl_global_init, a mutex, curl_share_init, and
-- curl_share_setopt for the lock functions and for what is shared.
pub data LoadCall : Type 0 where
  open_library look_up : List ℕ → LoadCall
  init_curl init_share share_lock share_unlock share_dns share_sessions share_connections : LoadCall
  init_lock : ℕ → LoadCall

-- JH_LOCKS
abbrev pub lock_count : ℕ
lock_count = 8

abbrev pub libraries : List (List ℕ)
libraries = codes "libcurl.4.dylib" ∷ codes "libcurl.so.4" ∷ codes "libcurl.so" ∷ []

abbrev pub symbols : List (List ℕ)
symbols =
    codes "curl_global_init"
    ∷ codes "curl_easy_init"
    ∷ codes "curl_easy_setopt"
    ∷ codes "curl_easy_perform"
    ∷ codes "curl_easy_getinfo"
    ∷ codes "curl_easy_cleanup"
    ∷ codes "curl_slist_append"
    ∷ codes "curl_slist_free_all"
    ∷ codes "curl_share_init"
    ∷ codes "curl_share_setopt"
    ∷ []

abbrev pub share_settings : List LoadCall
share_settings = share_lock ∷ share_unlock ∷ share_dns ∷ share_sessions ∷ share_connections ∷ []

-- `true` is success: a library, a symbol or a share that is not NULL, or the code 0.
module _ {H : Type 0} (call : LoadCall → H → Bool × H) where
  -- The first library that opens.
  unfoldable pub open_first : List (List ℕ) → H → Bool × H
  open_first [] h = (false, h)
  open_first (name ∷ names) h =
      let rest = open_first names (call (open_library name) h).1 in
      if (call (open_library name) h).0 then (true, (call (open_library name) h).1) else rest

  -- Every symbol is looked up, also where one before it is missing; `missing` as the source has it.
  -- The pointers in which they are kept are the parameters of the other functions.
  unfoldable pub look_up_all : List (List ℕ) → Bool → H → Bool × H
  look_up_all [] missing h = (missing, h)
  look_up_all (name ∷ names) missing h =
      let found = call (look_up name) h in
      look_up_all names (if found.0 then missing else true) found.1

  -- pthread_mutex_init, whose answer is ignored, from lock `i` on.
  unfoldable pub init_locks : ℕ → ℕ → H → H
  init_locks zero i h = h
  init_locks (suc n) i h = init_locks n (suc i) (call (init_lock i) h).1

  -- `||` over the calls: the first that fails ends it.
  unfoldable pub all_set : List LoadCall → H → Bool × H
  all_set [] h = (true, h)
  all_set (c ∷ cs) h =
      let rest = all_set cs (call c h).1 in if (call c h).0 then rest else (false, (call c h).1)

  unfoldable pub load_share : H → Bool × H
  load_share h = all_set (init_share ∷ share_settings) (init_locks lock_count 0 h)

  unfoldable pub load_symbols : Bool × H → Bool × H
  load_symbols looked =
      let inited = call init_curl looked.1 in
      if looked.0
      then (false, looked.1)
      else if not inited.0
      then (false, inited.1)
      else load_share inited.1

  -- `jh_ready` afterwards.
  unfoldable pub jh_load : H → Bool × H
  jh_load h =
      let opened = open_first libraries h in
      if not opened.0 then (false, opened.1) else load_symbols (look_up_all symbols false opened.1)
