-- ===== src/Http/Body.antt =====
-- native/http.c, `jh_write`: the response body is taken whole or not at all.
use jev_fabric.Base.{
  ℕ, ◌+◌, ◌-◌, ◌^◌, ◌≤◌, ◌<◌, ◌≡◌, ◌⊎◌, ◌∙◌, sym, ap, List, ◌++◌, some, ltb, arith, inl, inr,
  Bool-cases, length, take, drop, length-append, length-take, length-drop, store_bytes,
  store_bytes_lem, take-append_exact, append_assoc,
}
use jev_fabric.Http.Defs.{Post, body_limit, size, jh_write}

-- The buffer has its size, and its first `out_len` bytes are `body`.
pub record Received (limit : ℕ) (body : List ℕ) (p : Post) : Type 0 where
  pub room : length p.out ≡ limit
  pub whole : length body ≡ p.out_len
  pub fits : p.out_len ≤ limit
  pub shown : take p.out_len p.out ≡ body

abbrev appended : Post → List ℕ → List ℕ
appended p chunk = take p.out_len p.out ++ (chunk ++ drop (p.out_len + length chunk) p.out)

module _ (limit : ℕ) (body chunk : List ℕ) (p : Post) (r : Received limit body p)
    (room : p.out_len + length chunk ≤ limit) where
  store-chunk : store_bytes p.out p.out_len chunk ≡ some (appended p chunk)
  store-chunk = store_bytes_lem p.out p.out_len chunk (omega (arith, r.room))

  appended-Received :
      Received limit
        (body ++ chunk)
        (record p { out = appended p chunk; out_len = p.out_len + length chunk })
  appended-Received = record {
    room = omega (
      arith,
      length-append (take p.out_len p.out) (chunk ++ drop (p.out_len + length chunk) p.out),
      length-append chunk (drop (p.out_len + length chunk) p.out),
      length-take p.out_len p.out,
      length-drop (p.out_len + length chunk) p.out,
      r.room,
    );
    whole = omega (arith, length-append body chunk, r.whole);
    fits = room;
    shown =
        ap (take (p.out_len + length chunk)) (sym (append_assoc (take p.out_len p.out) chunk _))
        ∙ take-append_exact (p.out_len + length chunk) (take p.out_len p.out ++ chunk) _ (
            omega (
              arith,
              length-append (take p.out_len p.out) chunk,
              length-take p.out_len p.out,
              r.room,
              r.fits,
            ))
        ∙ ap (λ t. t ++ chunk) r.shown;
  }

-- Where the buffer has its size and holds the body so far, a chunk that fits goes behind the body,
-- inside the buffer; one that does not stops the transfer (curl is told 0) and changes nothing. The
-- chunk is shorter than 2 ^ 63.
pub jh_write-Received :
    (body chunk : List ℕ) (p : Post)
    → Received body_limit body p
    → length chunk < 2 ^ 63
    → ((body_limit < length body + length chunk) × (jh_write chunk p ≡ some (0, p)))
      ⊎ ((length body + length chunk ≤ body_limit)
          × ((p' : Post) × (jh_write chunk p ≡ some (length chunk, p'))
              × Received body_limit (body ++ chunk) p'))
unfolding jh_write
jh_write-Received body chunk p r small =
    elim (Bool-cases (ltb (size (body_limit + 2 ^ 64 - p.out_len)) (length chunk))) [
      | inl long ↦ inl (ground (arith, r.whole, r.fits, long), ground (arith, long))
      | inr short ↦
          let fits : p.out_len + length chunk ≤ body_limit = ground (arith, r.fits, short) in
          let e : size (p.out_len + length chunk) ≡ p.out_len + length chunk = omega arith in
          inr (
            omega (arith, r.whole),
            (
              record p { out = appended p chunk; out_len = p.out_len + length chunk },
              rw short (rw (store-chunk body_limit body chunk p r fits) (rw e)),
              appended-Received body_limit body chunk p r fits,
            ),
          )
    ]
