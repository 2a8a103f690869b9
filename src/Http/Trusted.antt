-- ===== src/Http/Trusted.antt =====
-- native/http.c: what stands behind a response.
use jev_fabric.Base.{
  ℕ, ◌%◌, ◌^◌, ◌≡◌, refl, ◌∙◌, ap, subst, Bool, true, List, [], ◌∷◌, ◌++◌, Option, none, some,
  arith, inl, inr, Bool-cases, length,
}
use jev_fabric.Os.{Errno, clear, einval, eio}
use jev_fabric.Host.Names.{codes}
use jev_fabric.Http.Defs.{Post, settings, post_refuses, jh_configure}
use jev_fabric.Http.Policy.{Accepted, IsServed, post_refuses_iff, settings-Accepted}
use jev_fabric.Http.Transfer.{
  Ending, unavailable, ended_with, Curl, Thread, jh_post_call, post_transfer, with_headers,
  headers_made, transfer, release_all, owned_by,
}
use jev_fabric.Http.Pack.{
  PostReply, fetched, PostReport, answered_now, working_on, c_string, no_error, scrub, jh_bytes,
  pack_reply, jh_post_pack, native_http_post_run, ◌>>=◌,
}

no_error-clear : (e : Errno) → no_error e ≡ true → e ≡ clear
no_error-clear clear h = refl
no_error-clear _ h = cc

status_told :
    (bytes : Option (List ℕ)) (n status : ℕ) (body : List ℕ)
    → (elim bytes [ none ↦ none | some b ↦ some (fetched n b) ]) ≡ some (fetched status body)
    → status ≡ n
status_told none n status body h = cc
status_told (some b) n status body h = cc

reply-fetched :
    (ending : Ending) (q : Post) (status : ℕ) (body : List ℕ)
    → pack_reply ending q ≡ some (fetched status body)
    → (n : ℕ) × (ending ≡ ended_with clear n) × (status ≡ n % 2 ^ 32)
unfolding pack_reply
reply-fetched unavailable q status body h = cc
reply-fetched (ended_with e n) q status body h = elim (Bool-cases (no_error e)) [
  | inr bad ↦ ground (arith, h, bad)
  | inl good ↦ (
    n,
    ap (λ x. ended_with x n) (no_error-clear e good),
    status_told (jh_bytes q.out q.out_len []) _ status body (ground (arith, h, good)),
  )
]

pack-reply :
    (ending : Ending) (q : Post) (r : PostReport)
    → jh_post_pack ending q ≡ some r
    → pack_reply ending q ≡ some r.reply
unfolding jh_post_pack
pack-reply ending q r h =
    told (pack_reply ending q) (scrub (length q.key) (c_string q.key))
      (scrub (length q.body) (c_string q.body)) h
  where
    told :
        (reply : Option PostReply) (key body : Option (List ℕ))
        → (do
          x ← reply
          k ← key
          b ← body
          some (record { reply = x; freed = c_string q.url ∷ k ∷ b ∷ [] }))
          ≡ some r
        → reply ≡ some r.reply
    told none key body e = cc
    told (some x) none body e = cc
    told (some x) (some k) none e = cc
    told (some x) (some k) (some b) e = ap (λ o. elim o [ none ↦ none | some y ↦ some y.reply ]) e

not_working :
    (r : Option PostReport) (q : Post)
    → (elim r [ none ↦ none | some x ↦ some (answered_now x) ]) ≡ some (working_on q)
    → ⊥
not_working none q h = cc
not_working (some x) q h = cc

run-IsServed :
    (io_nul : List ℕ → Bool) (p q : Post)
    → native_http_post_run io_nul p ≡ some (working_on q)
    → (q ≡ p) × IsServed io_nul p
unfolding native_http_post_run
run-IsServed io_nul p q h = elim (Bool-cases (post_refuses io_nul p)) [
  | inl refused ↦
      absurd (not_working (jh_post_pack (ended_with einval 0) p) q (ground (arith, h, refused)))
  | inr served ↦ (ground (arith, h, served), (post_refuses_iff io_nul p).0 served)
]

module _ {H : Type 0} (curl : Curl H) where
  -- curl took every setting on one handle, performed the request and gave its status.
  pub record Sent (p : Post) (ca : Option (List ℕ)) (status : ℕ) : Type 0 where
    pub easy : H
    pub last : H
    pub configured : Accepted curl.easy_setopt (settings p ca) easy last
    pub performed : (curl.easy_perform last).0 ≡ true
    pub answered : (curl.getinfo_status (curl.easy_perform last).1).0 ≡ some status

  status_known :
      (asked : Option ℕ) (status : ℕ)
      → (elim asked [ none ↦ ended_with eio 0 | some n ↦ ended_with clear n ])
        ≡ ended_with clear status
      → asked ≡ some status
  status_known none status e = cc
  status_known (some n) status e = cc

  transfer-Sent :
      (p : Post) (ca : Option (List ℕ)) (t : Thread H) (status : ℕ)
      → (transfer curl p ca t).0 ≡ ended_with clear status
      → Sent p ca status
  unfolding transfer
  transfer-Sent p ca t status e =
      let set = jh_configure curl.easy_setopt p ca t.curl_state in
      elim (Bool-cases set.0) [
        | inl bad ↦ ground (arith, e, bad)
        | inr good ↦ elim (Bool-cases (curl.easy_perform set.1).0) [
          | inr unsent ↦ ground (arith, e, good, unsent)
          | inl sent ↦ record {
            easy = t.curl_state;
            last = set.1;
            configured = settings-Accepted curl.easy_setopt p ca t.curl_state good;
            performed = sent;
            answered = status_known _ status (ground (arith, e, good, sent));
          }
        ]
      ]

  post_call-Sent :
      (ready interrupted : Bool) (p : Post) (ca : Option (List ℕ)) (t : Thread H) (status : ℕ)
      → (jh_post_call curl ready interrupted p ca t).0 ≡ ended_with clear status
      → Sent p ca status
  unfolding jh_post_call post_transfer with_headers release_all
  post_call-Sent ready interrupted p ca t status e =
      let auth = curl.alloc_auth t.curl_state in
      let out = curl.alloc_out auth.1 in
      let easy = curl.easy_init out.1 in
      let made =
        headers_made curl (codes "Authorization: Bearer " ++ p.key)
          (owned_by curl auth.0 easy.0 easy.1 t) in
      transfer-Sent p ca made.1 status (ground (arith, e))

  -- Where the Bend program gets a response, its request passed the tests of `native_http_post_run`,
  -- curl accepted every setting of the request on one handle and performed it, and the status is
  -- the one that curl gave, as a `u32`. `q` is the request as it was left to `jh_post_call`, and
  -- `q'` as `jh_post_pack` finds it.
  pub jh_post_pack-Sent :
      (io_nul : List ℕ → Bool) (ready interrupted : Bool) (p q q' : Post) (ca : Option (List ℕ))
      (t : Thread H) (r : PostReport) (status : ℕ) (body : List ℕ)
      → native_http_post_run io_nul p ≡ some (working_on q)
      → jh_post_pack (jh_post_call curl ready interrupted q ca t).0 q' ≡ some r
      → r.reply ≡ fetched status body
      → IsServed io_nul p × ((n : ℕ) × Sent p ca n × (status ≡ n % 2 ^ 32))
  jh_post_pack-Sent io_nul ready interrupted p q q' ca t r status body run packed told =
      let (same, served) = run-IsServed io_nul p q run in
      let ending = (jh_post_call curl ready interrupted q ca t).0 in
      let (n, e, f) =
        reply-fetched ending q' status body (pack-reply ending q' r packed ∙ ap some told) in
      (served, (n, subst (λ x. Sent x ca n) same (post_call-Sent ready interrupted q ca t n e), f))
