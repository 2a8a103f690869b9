-- ===== src/Http/Transfer.antt =====
-- native/http.c: `jh_post_call`. libcurl and the allocator are parameters.
use jev_fabric.Base.{
  ℕ, ◌+◌, ◌-◌, Bool, true, false, ◌||◌, not, List, ◌++◌, Option, none, some, if◌then◌else◌,
}
use jev_fabric.Os.{Errno, clear, eintr, enomem, einval, eio}
use jev_fabric.Host.Names.{codes}
use jev_fabric.Http.Defs.{Post, Setting, jh_configure}

-- The calls: `true` is success, but for `easy_setopt`, where it is a nonzero code.
pub record Curl (H : Type 0) : Type 0 where
  pub alloc_auth : H → Bool × H
  pub alloc_out : H → Bool × H
  pub easy_init : H → Bool × H
  pub slist_append : List ℕ → H → Bool × H
  pub easy_setopt : Setting → H → Bool × H
  pub easy_perform : H → Bool × H
  pub getinfo_status : H → Option ℕ × H

-- The helper thread: libcurl's state, and how many easy handles, header lists and copies of the
-- key it owns.
pub record Thread (H : Type 0) : Type 0 where
  pub curl_state : H
  pub easies : ℕ
  pub lists : ℕ
  pub keys : ℕ

-- `post->unavailable`, or `w->code` with `post->status`.
pub data Ending : Type 0 where
  unavailable : Ending
  ended_with : Errno → ℕ → Ending

abbrev count : Bool → ℕ
count b = if b then 1 else 0

module _ {H : Type 0} (curl : Curl H) where
  -- The first header makes the list; where a later one fails, the list is freed.
  unfoldable pub headers_made : List ℕ → Thread H → Bool × Thread H
  headers_made auth t =
      let first = curl.slist_append (codes "Content-Type: application/json") t.curl_state in
      let second = curl.slist_append (codes "Expect:") first.1 in
      let third = curl.slist_append auth second.1 in
      if not first.0
      then (false, record t { curl_state = first.1 })
      else if not second.0
      then (false, record t { curl_state = second.1; lists = t.lists + 1 - 1 })
      else if not third.0
      then (false, record t { curl_state = third.1; lists = t.lists + 1 - 1 })
      else (true, record t { curl_state = third.1; lists = t.lists + 1 })

  -- With the headers: configure, perform, ask for the status.
  unfoldable pub transfer : Post → Option (List ℕ) → Thread H → Ending × Thread H
  transfer post ca t =
      let set = jh_configure curl.easy_setopt post ca t.curl_state in
      let sent = curl.easy_perform set.1 in
      let asked = curl.getinfo_status sent.1 in
      if set.0
      then (ended_with einval 0, record t { curl_state = set.1 })
      else if not sent.0
      then (ended_with eio 0, record t { curl_state = sent.1 })
      else (
        elim asked.0 [ none ↦ ended_with eio 0 | some status ↦ ended_with clear status ],
        record t { curl_state = asked.1 },
      )

  -- easy_cleanup, slist_free_all and jh_scrub at the end, each for what there is.
  unfoldable pub release_all : Bool → Bool → Bool → Ending × Thread H → Ending × Thread H
  release_all auth easy headers r = (
    r.0,
    record r.1 {
      easies = (r.1).easies - count easy;
      lists = (r.1).lists - count headers;
      keys = (r.1).keys - count auth;
    },
  )

  unfoldable pub with_headers : Post → Option (List ℕ) → Bool × Thread H → Ending × Thread H
  with_headers post ca made =
      if made.0
      then release_all true true true (transfer post ca made.1)
      else release_all true true false (ended_with enomem 0, made.1)

  -- What is owned after the allocations.
  abbrev pub owned_by : Bool → Bool → H → Thread H → Thread H
  owned_by auth easy h t = record t {
    curl_state = h;
    easies = t.easies + count easy;
    keys = t.keys + count auth;
  }

  -- Once libcurl is there and nothing interrupted.
  unfoldable pub post_transfer : Post → Option (List ℕ) → Thread H → Ending × Thread H
  post_transfer post ca t =
      let auth = curl.alloc_auth t.curl_state in
      let out = curl.alloc_out auth.1 in
      let easy = curl.easy_init out.1 in
      let owned = owned_by auth.0 easy.0 easy.1 t in
      if not auth.0 || not out.0 || not easy.0
      then release_all auth.0 easy.0 false (ended_with enomem 0, owned)
      else with_headers post ca (headers_made (codes "Authorization: Bearer " ++ post.key) owned)

  unfoldable pub jh_post_call : Bool → Bool → Post → Option (List ℕ) → Thread H → Ending × Thread H
  jh_post_call ready interrupted post ca t =
      if not ready
      then (unavailable, t)
      else if interrupted
      then (ended_with eintr 0, t)
      else post_transfer post ca t
