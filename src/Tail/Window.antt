-- ===== src/Tail/Window.antt =====
-- native/posix.c, `jf_tail`: the buffer is a window on the end of the stream.
use jev_fabric.Base.{
  ℕ, ◌+◌, ◌-◌, ◌^◌, ◌≤◌, ◌<◌, ◌≡◌, sym, ap, ◌∙◌, Bool, List, ◌++◌, some, inl, inr, arith, ◌||◌, ltb,
  leb, min, length, take, drop, load_bytes_lem, store_bytes_lem, length-take, length-drop,
  length-append, take-append_exact, Bool-cases, store_bytes, drop-append_of_ge, drop-append_of_le,
  drop-take, drop-drop, append_assoc,
}
use jev_fabric.Tail.Defs.{Capture, jf_tail, discard, replace_all, slide, size}

-- The newest `n` entries of a list.
abbrev pub newest {ℓ} : {A : Type ℓ} → ℕ → List A → List A
newest n xs = drop (length xs - n) xs

-- The capture shows the end of `stream`: its buffer has `limit` bytes, of which the first `used`
-- are the newest `limit` bytes of the stream, and the flag tells whether older ones are gone.
pub record Shows (limit : ℕ) (stream : List ℕ) (c : Capture) : Type 0 where
  pub room : length c.dest ≡ limit
  pub fits : c.used ≤ limit
  pub window : take c.used c.dest ≡ newest limit stream
  pub told : c.cut ≡ ltb limit (length stream)

pub used_lem :
    {limit : ℕ} {stream : List ℕ} {c : Capture}
    → Shows limit stream c
    → c.used ≡ min limit (length stream)
used_lem {limit} {stream} {c} s = omega (
  arith,
  ap length s.window,
  length-take c.used c.dest,
  length-drop (length stream - limit) stream,
  s.room,
  s.fits,
)

module _ (limit count : ℕ) (stream source : List ℕ) (c : Capture) (hs : count ≤ length source) where
  abbrev chunk : List ℕ
  chunk = take count source

  length-chunk : length chunk ≡ count
  length-chunk = omega (arith, length-take count source)

  length-stream : length (stream ++ chunk) ≡ length stream + count
  length-stream = omega (arith, length-append stream chunk, length-chunk)

  -- A chunk of `limit` bytes or more: its own end is the end of the stream.
  abbrev newer : List ℕ
  newer = take limit (drop (count - limit) source)

  newest-newer : limit ≤ count → newer ≡ newest limit (stream ++ chunk)
  newest-newer h =
      let e : count - (count - limit) ≡ limit = omega arith in
      let k : length (stream ++ chunk) - limit - length stream ≡ count - limit =
        omega (arith, length-stream) in
      sym (
        drop-append_of_ge (length (stream ++ chunk) - limit) stream chunk
          (omega (arith, length-stream))
        ∙ rw k (rw (drop-take (count - limit) count source) (rw e)))

  length-newer : limit ≤ count → length newer ≡ limit
  length-newer h =
      omega
        (arith, length-take limit (drop (count - limit) source), length-drop (count - limit) source)

  replace_all_lem :
      (b : Bool)
      → limit ≤ count
      → length c.dest ≡ limit
      → replace_all (record c { cut = b }) source count limit
        ≡ some (record { dest = newer ++ drop limit c.dest; used = limit; cut = b })
  unfolding replace_all
  replace_all_lem b h r = rw (load_bytes_lem source (count - limit) limit (omega arith)) (
      rw (store_bytes_lem c.dest 0 newer (omega (arith, length-newer h)))
        (let e : 0 + length newer ≡ limit = omega (arith, length-newer h) in rw e))

  -- A shorter chunk: what is kept of the window goes before it.
  module _ (short : count < limit) (small : limit < 2 ^ 32) (s : Shows limit stream c) where
    abbrev gone : ℕ
    gone = c.used + count - limit

    abbrev kept : List ℕ
    kept = take (c.used - gone) (drop gone c.dest)

    discard_lem : discard c.used count limit ≡ gone
    unfolding discard
    discard_lem = ground (arith, s.fits)

    length-kept : length kept ≡ c.used - gone
    length-kept = omega (
      arith,
      length-take (c.used - gone) (drop gone c.dest),
      length-drop gone c.dest,
      s.fits,
      s.room,
    )

    kept-chunk : kept ++ chunk ≡ newest limit (stream ++ chunk)
    kept-chunk =
        let from = length (stream ++ chunk) - limit in
        let e : length stream - limit + gone ≡ from = omega (arith, used_lem s, length-stream) in
        let all : drop from (stream ++ chunk) ≡ drop from stream ++ chunk =
          drop-append_of_le from stream chunk (omega (arith, length-stream)) in
        let k : kept ≡ drop from stream =
          sym (drop-take gone c.used c.dest)
          ∙ ap (drop gone) s.window
          ∙ drop-drop (length stream - limit) gone stream
          ∙ ap (λ n. drop n stream) e in
        ap (λ t. t ++ chunk) k ∙ sym all

    abbrev moved : List ℕ
    moved = kept ++ drop (c.used - gone) c.dest

    length-moved : length moved ≡ limit
    length-moved = omega (
      arith,
      length-append kept (drop (c.used - gone) c.dest),
      length-kept,
      length-drop (c.used - gone) c.dest,
      s.room,
      s.fits,
    )

    abbrev slid : List ℕ
    slid = kept ++ (chunk ++ drop (c.used - gone + count) moved)

    store-kept : store_bytes c.dest 0 kept ≡ some moved
    store-kept =
        rw (store_bytes_lem c.dest 0 kept (omega (arith, length-kept, s.fits, s.room)))
          (let e : 0 + length kept ≡ c.used - gone = omega (arith, length-kept) in rw e)

    store-chunk : store_bytes moved (c.used - gone) chunk ≡ some slid
    store-chunk =
        rw
          (store_bytes_lem moved (c.used - gone) chunk
            (omega (arith, length-moved, length-chunk, s.fits)))
          (rw length-chunk
            (rw (take-append_exact (c.used - gone) kept (drop (c.used - gone) c.dest) length-kept)))

    slide_lem :
        (b : Bool)
        → slide (record c { cut = b }) source count limit
          ≡ some (record { dest = slid; used = c.used - gone + count; cut = b })
    unfolding slide
    slide_lem b = rw discard_lem (
        rw (load_bytes_lem c.dest gone (c.used - gone) (omega (arith, s.fits, s.room)))
          (rw store-kept (rw (load_bytes_lem source 0 count (omega arith)) (rw store-chunk))))

    length-slid : length slid ≡ limit
    length-slid = omega (
      arith,
      length-append kept (chunk ++ drop (c.used - gone + count) moved),
      length-append chunk (drop (c.used - gone + count) moved),
      length-kept,
      length-chunk,
      length-drop (c.used - gone + count) moved,
      length-moved,
      s.fits,
    )

    take-slid : take (c.used - gone + count) slid ≡ newest limit (stream ++ chunk)
    take-slid = rw (← append_assoc) (
        take-append_exact (c.used - gone + count) (kept ++ chunk) _
          (omega (arith, length-append kept chunk, length-kept, length-chunk))
        ∙ kept-chunk)

  told_lem :
      limit < 2 ^ 32
      → count < 2 ^ 32
      → Shows limit stream c
      → (c.cut || ltb limit (size (c.used + count))) ≡ ltb limit (length (stream ++ chunk))
  told_lem hl hc s = rw s.told (rw length-stream (ground (arith, used_lem s)))

-- Appending a chunk to a capture stays inside both buffers; a capture that showed the newest bytes
-- of a stream shows those of the longer stream. The chunk and the limit are below 2 ^ 32, and the
-- chunk lies within its source.
pub jf_tail-Shows :
    (limit count : ℕ) (stream source : List ℕ) (c : Capture)
    → limit < 2 ^ 32
    → count < 2 ^ 32
    → count ≤ length source
    → Shows limit stream c
    → (c' : Capture) × (jf_tail c source count limit ≡ some c')
      × Shows limit (stream ++ take count source) c'
unfolding jf_tail
jf_tail-Shows limit count stream source c hl hc hs s = elim (Bool-cases (leb limit count)) [
  | inl long ↦
      let h : limit ≤ count = ground arith in
      (
        record {
          dest = newer limit count stream source c hs ++ drop limit c.dest;
          used = limit;
          cut = c.cut || ltb limit (size (c.used + count));
        },
        rw long (replace_all_lem limit count stream source c hs _ h s.room),
        record {
          room = omega (
            arith,
            length-append (newer limit count stream source c hs) (drop limit c.dest),
            length-newer limit count stream source c hs h,
            length-drop limit c.dest,
            s.room,
          );
          fits = omega arith;
          window =
              take-append_exact limit (newer limit count stream source c hs) (drop limit c.dest)
                (length-newer limit count stream source c hs h)
              ∙ newest-newer limit count stream source c hs h;
          told = told_lem limit count stream source c hs hl hc s;
        },
      )
  | inr short ↦
      let h : count < limit = ground arith in
      (
        record {
          dest = slid limit count stream source c hs h hl s;
          used = c.used - (c.used + count - limit) + count;
          cut = c.cut || ltb limit (size (c.used + count));
        },
        rw short (slide_lem limit count stream source c hs h hl s _),
        record {
          room = length-slid limit count stream source c hs h hl s;
          fits = omega (arith, s.fits);
          window = take-slid limit count stream source c hs h hl s;
          told = told_lem limit count stream source c hs hl hc s;
        },
      )
]
