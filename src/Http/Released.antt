-- ===== src/Http/Released.antt =====
-- native/http.c, `jh_post_call`: what it owned is released on every path.
use jev_fabric.Base.{
  ℕ, ◌+◌, ◌-◌, ◌≡◌, Bool, List, ◌++◌, Option, if◌then◌else◌, arith, inl, inr, Bool-cases,
}
use jev_fabric.Host.Names.{codes}
use jev_fabric.Http.Defs.{Post}
use jev_fabric.Http.Transfer.{
  Curl, Thread, jh_post_call, post_transfer, with_headers, headers_made, transfer, release_all,
  owned_by,
}

module _ {H : Type 0} (curl : Curl H) where
  abbrev pub Balanced : Thread H → Thread H → Type 0
  Balanced t u = (u.easies ≡ t.easies) × (u.lists ≡ t.lists) × (u.keys ≡ t.keys)

  transfer-Balanced :
      (post : Post) (ca : Option (List ℕ)) (t : Thread H) → Balanced t (transfer curl post ca t).1
  unfolding transfer
  transfer-Balanced post ca t = ground arith

  headers_made_cases :
      (auth : List ℕ) (t : Thread H)
      → ((headers_made curl auth t).1.easies ≡ t.easies)
        × ((headers_made curl auth t).1.keys ≡ t.keys)
        × ((headers_made curl auth t).1.lists
            ≡ t.lists + (if (headers_made curl auth t).0 then 1 else 0))
  unfolding headers_made
  headers_made_cases auth t = ground arith

  with_headers-Balanced :
      (post : Post) (ca : Option (List ℕ)) (auth : List ℕ) (t : Thread H)
      → Balanced
          (record t { easies = t.easies - 1; keys = t.keys - 1 })
          (with_headers curl post ca (headers_made curl auth t)).1
  unfolding with_headers release_all
  with_headers-Balanced post ca auth t = elim (Bool-cases (headers_made curl auth t).0) [
    | inl made ↦
        ground
          (arith, headers_made_cases auth t, transfer-Balanced post ca (headers_made curl auth t).1)
    | inr not_made ↦ ground (arith, headers_made_cases auth t)
  ]

  post_transfer-Balanced :
      (post : Post) (ca : Option (List ℕ)) (t : Thread H)
      → Balanced t (post_transfer curl post ca t).1
  unfolding post_transfer release_all
  post_transfer-Balanced post ca t =
      let auth = curl.alloc_auth t.curl_state in
      let out = curl.alloc_out auth.1 in
      let easy = curl.easy_init out.1 in
      ground (
        arith,
        with_headers-Balanced post ca (codes "Authorization: Bearer " ++ post.key)
            (owned_by curl auth.0 easy.0 easy.1 t),
      )

  -- On every path of `jh_post_call`, errors included, the thread owns as many easy handles, header
  -- lists and copies of the key at its end as it did at its beginning.
  pub jh_post_call-Balanced :
      (ready interrupted : Bool) (post : Post) (ca : Option (List ℕ)) (t : Thread H)
      → Balanced t (jh_post_call curl ready interrupted post ca t).1
  unfolding jh_post_call
  jh_post_call-Balanced ready interrupted post ca t =
      ground (arith, post_transfer-Balanced post ca t)
