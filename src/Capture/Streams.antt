-- ===== src/Capture/Streams.antt =====
-- native/posix.c, `jf_read`: the capture keeps the end of a stream, the spool file its beginning.
use jev_fabric.Base.{
  ℕ, zero, suc, ◌+◌, ◌-◌, ◌^◌, ◌≤◌, ◌<◌, ◌≡◌, ◌≢◌, ◌⊎◌, inl, inr, refl, sym, subst, ap, ◌∙◌, false,
  List, [], ◌∷◌, ◌++◌, Option, none, some, ltb, leb, arith, length, take, drop, length-append,
  length-take, length-drop, take-append-drop, append_assoc, append-nil, take_all, take-append_of_le,
  take-append_of_ge, leb→le, leb-lt,
}
use jev_fabric.Os.{
  Ret, ok, fail, clear, is_eintr, wrote, fetched, closed, Event, Os, IsLawful, St, pure, Returns,
  Returns-bind, Returns-call, Returns-if, Returns-weaken, content, content-wrote, close,
}
use jev_fabric.Tail.{Shows, jf_tail-Shows}
use jev_fabric.Capture.Defs.{
  spool_limit, chunk_size, Spool, Stream, spool_next, spool_rounds, spool_to, jf_spool, keep_chunk,
  end_stream, read_chunk, jf_read, is_fatal,
}

-- The spool file `fd` holds the first `spool_limit` bytes of the stream, and `logged` counts them.
abbrev pub Spooled : ℕ → List ℕ → Spool → List Event → Type 0
Spooled fd stream p log =
    (p.file ≡ some fd)
    × (p.log_error ≡ clear)
    × (content fd log ≡ take spool_limit stream)
    × (p.logged ≡ length (content fd log))

-- The first `cap` bytes of a stream that goes on: nothing is missing once they are there, and
-- before that the next ones follow.
module _ (cap : ℕ) (stream chunk kept : List ℕ) (e : kept ≡ take cap stream) where
  full_prefix : cap ≤ length kept → kept ≡ take cap (stream ++ chunk)
  full_prefix h =
      e
      ∙ sym
          (take-append_of_le cap stream chunk (omega (arith, ap length e, length-take cap stream)))

  open_prefix :
      length kept < cap → kept ++ take (cap - length kept) chunk ≡ take cap (stream ++ chunk)
  open_prefix h =
      let short : length stream < cap = omega (arith, ap length e, length-take cap stream) in
      let whole : kept ≡ stream = e ∙ take_all cap stream (omega arith) in
      rw whole (sym (take-append_of_ge cap stream chunk (omega arith)))

-- What a spool holds of a stream, or that it gave up.
abbrev pub Kept : {W : Type 0} → ℕ → List ℕ → Spool → St W → Type 0
Kept fd stream p s = Spooled fd stream p s.log ⊎ (p.log_error ≢ clear)

-- The stream's capture and its spool file both follow `stream`.
abbrev pub Follows : {W : Type 0} → ℕ → List ℕ → Stream → St W → Type 0
Follows fd stream t s = Shows t.limit stream t.capture × Spooled fd stream t.spool s.log

-- They do after `got` more, unless the spool file gave up; and the stream's descriptor is open
-- still, or was given up at the stream's end.
abbrev pub Followed : {W : Type 0} → ℕ → List ℕ → Stream → List ℕ → Stream → St W → Type 0
Followed fd stream t got t' s' =
    Shows t.limit (stream ++ got) t'.capture
    × Kept fd (stream ++ got) t'.spool s'
    × ((t'.fd ≡ t.fd) ⊎ ((t'.fd ≡ none) × (got ≡ [])))

-- What a read answered, with nothing for -1.
abbrev pub received : Ret (List ℕ) → List ℕ
received (ok bytes) = bytes
received (fail _) = []

module _ {W : Type 0} (os : Os W) (law : IsLawful os) (fd : ℕ) where
  module _ (total : List ℕ) where
    -- All of `total` but `pending` is in the file.
    abbrev Writing : List ℕ → Spool → List Event → Type 0
    Writing pending p log =
        (p.file ≡ some fd)
        × (p.log_error ≡ clear)
        × (content fd log ++ pending ≡ total)
        × (p.logged ≡ length (content fd log))

    -- The loop wrote all of it, or gave up and recorded why.
    abbrev Ended : Spool → St W → Type 0
    Ended p s = Writing [] p s.log ⊎ (p.log_error ≢ clear)

    Writing-next :
        (pending : List ℕ) (put : ℕ) (p : Spool) (log : List Event)
        → put ≤ length pending
        → Writing pending p log
        → Writing
            (drop put pending)
            (record p { logged = p.logged + put })
            (wrote fd (take put pending) ∷ log)
    Writing-next pending put p log le (f, c, w, n) = (
      f,
      c,
      rw (content-wrote fd (take put pending) log) (
          append_assoc (content fd log) (take put pending) (drop put pending)
          ∙ ap (λ t. content fd log ++ t) (take-append-drop put pending)
          ∙ w),
      rw (content-wrote fd (take put pending) log) (
          omega
            (arith, length-append (content fd log) (take put pending), length-take put pending, n)),
    )

    spool_rounds-Ended :
        (fuel : ℕ) (p : Spool) (pending : List ℕ) (s : St W)
        → length pending + os.interrupts s.world < fuel
        → Writing pending p s.log
        → Returns (spool_rounds os fuel fd p pending s) Ended
    unfolding spool_rounds spool_next
    spool_rounds-Ended zero p pending s enough k = absurd (omega arith)
    spool_rounds-Ended (suc fuel) p [] s enough k = inl k
    spool_rounds-Ended (suc fuel) p (c ∷ cs) s enough k =
        Returns-if (ltb 0 (length (c ∷ cs))) _ _ s Ended
          (λ _.
            Returns-call (os.sys_write fd (c ∷ cs)) (λ n. wrote fd (take n (c ∷ cs)) ∷ [])
              (spool_next os (spool_rounds os fuel fd) p (c ∷ cs)) s Ended
              (elim [
                | zero ↦ λ eq. inr (λ q. cc)
                | suc n ↦ λ eq.
                    spool_rounds-Ended fuel (record p { logged = p.logged + suc n }) (drop n cs) _
                      (ground (arith, law.write_ok fd (suc n) (c ∷ cs) s.world, length-drop n cs))
                      (Writing-next (c ∷ cs) (suc n) p s.log
                        (law.write_ok fd (suc n) (c ∷ cs) s.world eq).0 k)
              ])
              (λ x eq.
                Returns-if (is_eintr x) (spool_rounds os fuel fd p (c ∷ cs))
                  (pure (record p { log_error = x })) _ Ended
                  (λ t.
                    spool_rounds-Ended fuel p (c ∷ cs) _
                      (ground (arith, law.write_eintr fd (c ∷ cs) s.world)) k)
                  (λ t. inr (λ q. law.write_errno fd (c ∷ cs) s.world (eq ∙ ap fail q)))))
          (λ f. absurd (ground arith))

  spool_to-Kept :
      (stream chunk : List ℕ) (p : Spool) (s : St W)
      → Spooled fd stream p s.log
      → Returns (spool_to os (some fd) p chunk s) (Kept fd (stream ++ chunk))
  unfolding spool_to
  spool_to-Kept stream chunk p s k =
      Returns-if (leb spool_limit p.logged) _ _ s (Kept fd (stream ++ chunk))
        (λ t. inl (
          k.0,
          k.1,
          full_prefix spool_limit stream chunk (content fd s.log) k.2
              (rw (← k.3) (leb→le spool_limit p.logged t)),
          k.3,
        ))
        (λ t.
          Returns-weaken
            (spool_rounds os (length chunk + os.interrupts s.world + 1) fd p
              (take (spool_limit - p.logged) chunk) s)
            (Ended total) (Kept fd (stream ++ chunk))
            (spool_rounds-Ended total _ p (take (spool_limit - p.logged) chunk) s
              (omega (arith, length-take (spool_limit - p.logged) chunk)) (k.0, k.1, refl, k.3))
            (λ q s'. elim [
              | inl w ↦ inl (w.0, w.1, sym (append-nil _) ∙ w.2 ∙ room t, w.3)
              | inr x ↦ inr x
            ]))
    where
      total : List ℕ
      total = content fd s.log ++ take (spool_limit - p.logged) chunk

      room : leb spool_limit p.logged ≡ false → total ≡ take spool_limit (stream ++ chunk)
      room t = rw k.3 (
          open_prefix spool_limit stream chunk (content fd s.log) k.2
            (rw (← k.3) (leb-lt spool_limit p.logged t)))

  jf_spool-Kept :
      (stream chunk : List ℕ) (p : Spool) (s : St W)
      → Spooled fd stream p s.log
      → Returns (jf_spool os p chunk s) (Kept fd (stream ++ chunk))
  unfolding jf_spool
  jf_spool-Kept stream chunk p s k =
      subst (λ (o : Option ℕ). Returns (spool_to os o p chunk s) (Kept fd (stream ++ chunk)))
        (sym k.0) (spool_to-Kept stream chunk p s k)

  keep_chunk-Followed :
      (stream chunk : List ℕ) (from : ℕ) (t : Stream) (s : St W)
      → t.limit < 2 ^ 32
      → length chunk < 2 ^ 32
      → Follows fd stream t s
      → Returns (keep_chunk os t chunk s) (Followed fd stream t chunk)
  unfolding keep_chunk
  keep_chunk-Followed stream chunk from t s l c k =
      Returns-bind (jf_spool os t.spool chunk) _ s (Kept fd (stream ++ chunk))
        (Followed fd stream t chunk) (jf_spool-Kept stream chunk t.spool s k.1)
        (λ p s' q.
          let (c', e, shows) =
            jf_tail-Shows t.limit (length chunk) stream chunk t.capture l c (omega arith) k.0 in
          rw e ((rw (take_all (length chunk) chunk (omega arith)) at shows), q, inl refl))

  same :
      (stream : List ℕ) (from : ℕ) (t : Stream) (s : St W)
      → Follows fd stream t s
      → Followed fd stream t [] t s
  same stream from t s k = (rw append-nil k.0, inl (rw append-nil k.1), inl refl)

  ended :
      (stream : List ℕ) (from : ℕ) (t : Stream) (s s' : St W)
      → Follows fd stream t s
      → content fd s'.log ≡ content fd s.log
      → Followed fd stream t [] (record t { fd = none }) s'
  ended stream from t s s' k e = (
    rw append-nil k.0,
    inl (k.1.0, k.1.1, e ∙ rw append-nil k.1.2, k.1.3 ∙ ap length (sym e)),
    inr (refl, refl),
  )

-- One read of a child's stream, with lawful calls and a limit below 2 ^ 32. Its bytes go behind
-- what the capture shows and what the spool file holds; the file either gets all that it has room
-- for, or the job is marked to fail. The descriptor is given up only if the read brought nothing.
pub jf_read-Followed :
    {W : Type 0} (os : Os W) (law : IsLawful os) (fd : ℕ) (stream : List ℕ) (from : ℕ) (t : Stream)
    (s : St W)
    → t.limit < 2 ^ 32
    → Follows fd stream t s
    → Returns
        (jf_read os t from s)
        (Followed fd stream t (received (os.sys_read from chunk_size s.world).0))
unfolding jf_read read_chunk end_stream close
jf_read-Followed os law fd stream from t s l k =
    Returns-call (os.sys_read from chunk_size) (λ bytes. fetched from bytes ∷ [])
      (read_chunk os t from) s _
      (elim [
        | [] ↦ λ eq. rw eq (
            ended os law fd stream from t s
              (record s { log = closed from ∷ fetched from [] ∷ s.log }) k refl)
        | b ∷ bs ↦ λ eq. rw eq (
            keep_chunk-Followed os law fd stream (b ∷ bs) from t _ l
              (omega (arith, (law.read_ok from chunk_size s.world (b ∷ bs) eq).0)) k)
      ])
      (λ x eq. rw eq (
        Returns-if (is_fatal x) (end_stream os t from) (pure t) _ (Followed fd stream t [])
          (λ _. ended os law fd stream from t s (record s { log = closed from ∷ s.log }) k refl)
          (λ _. same os law fd stream from t s k)))
