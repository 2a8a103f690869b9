-- ===== src/Exec/Run/Streams.antt =====
-- native/posix.c: what one read of a stream in the poll loop leaves alone.
use jev_fabric.Base.{
  ℕ, zero, suc, ◌+◌, ◌-◌, ◌^◌, ◌<◌, ◌≡◌, refl, ap, List, [], ◌∷◌, Option, none, some, ltb, leb,
  arith, length, take, drop, length-drop, length-take,
}
use jev_fabric.Os.{
  is_eintr, wrote, fetched, St, pure, Returns, Returns-bind, Returns-call, Returns-if,
  Returns-weaken, close,
}
use jev_fabric.Tail.{Shows, jf_tail-Shows}
use jev_fabric.Capture.{
  spool_limit, chunk_size, Spool, Stream, spool_next, spool_rounds, spool_to, jf_spool, keep_chunk,
  end_stream, read_chunk, jf_read, is_fatal,
}
use jev_fabric.Exec.Kernel.{
  Kernel, IsLive, Later, Later-refl, Later-trans, Holds, Holds-held, Holds-closed, one, ledgers,
  children, taken_slots,
}

-- The capture shows the end of some stream, and its limit is a `u32`.
abbrev pub Shown : Stream → Type 0
Shown t = (t.limit < 2 ^ 32) × ((stream : List ℕ) × Shows t.limit stream t.capture)

module _ {W : Type 0} (k : Kernel W) (patience : ℕ) (live : IsLive k patience) where
  -- The ledgers are as they were, and time has gone on.
  abbrev pub Quiet : St W → St W → Type 0
  Quiet s t = (ledgers t.log ≡ ledgers s.log) × Later k s.world t.world

  spool_rounds-Quiet :
      (start : St W) (fuel fd : ℕ) (p : Spool) (pending : List ℕ) (s : St W)
      → length pending + k.os.interrupts s.world < fuel
      → Quiet start s
      → Returns (spool_rounds k.os fuel fd p pending s) (λ _ t. Quiet start t)
  unfolding spool_rounds spool_next
  spool_rounds-Quiet start zero fd p pending s enough q = absurd (omega arith)
  spool_rounds-Quiet start (suc fuel) fd p [] s enough q = q
  spool_rounds-Quiet start (suc fuel) fd p (c ∷ cs) s enough q =
      Returns-if (ltb 0 (length (c ∷ cs))) _ _ s (λ _ t. Quiet start t)
        (λ _.
          Returns-call (k.os.sys_write fd (c ∷ cs)) (λ n. wrote fd (take n (c ∷ cs)) ∷ [])
            (spool_next k.os (spool_rounds k.os fuel fd) p (c ∷ cs)) s (λ _ t. Quiet start t)
            (elim [
              | zero ↦ λ eq. (q.0, after_write)
              | suc n ↦ λ eq.
                  spool_rounds-Quiet start fuel fd (record p { logged = p.logged + suc n })
                    (drop n cs) _
                    (ground
                      (arith, live.lawful.write_ok fd (suc n) (c ∷ cs) s.world, length-drop n cs))
                    (q.0, after_write)
            ])
            (λ x eq.
              Returns-if (is_eintr x) (spool_rounds k.os fuel fd p (c ∷ cs))
                (pure (record p { log_error = x })) _ (λ _ t. Quiet start t)
                (λ t.
                  spool_rounds-Quiet start fuel fd p (c ∷ cs) _
                    (ground (arith, live.lawful.write_eintr fd (c ∷ cs) s.world))
                    (q.0, after_write))
                (λ _. (q.0, after_write))))
        (λ f. q)
    where
      after_write : Later k start.world (k.os.sys_write fd (c ∷ cs) s.world).1
      after_write = Later-trans k start.world s.world _ q.1 (live.write_later fd (c ∷ cs) s.world)

  spool_to-Quiet :
      (file : Option ℕ) (p : Spool) (chunk : List ℕ) (s : St W)
      → Returns (spool_to k.os file p chunk s) (λ _ t. Quiet s t)
  unfolding spool_to
  spool_to-Quiet none p chunk s = (refl, Later-refl k s.world)
  spool_to-Quiet (some fd) p chunk s =
      Returns-if (leb spool_limit p.logged) _ _ s (λ _ t. Quiet s t)
        (λ _. (refl, Later-refl k s.world))
        (λ _.
          spool_rounds-Quiet s (length chunk + k.os.interrupts s.world + 1) fd p
            (take (spool_limit - p.logged) chunk) s
            (omega (arith, length-take (spool_limit - p.logged) chunk))
            (refl, Later-refl k s.world))

  -- What a read of the stream on `fd` leaves: the other two ledgers, and the descriptor in the one
  -- or given up.
  pub record Served (s : St W) (rest : ℕ → ℕ) (t' : Stream) (u : St W) : Type 0 where
    pub ends : Holds u.log (λ x. one (t'.fd) x + rest x)
    pub family : children u.log ≡ children s.log
    pub place : taken_slots u.log ≡ taken_slots s.log
    pub later : Later k s.world u.world
    pub shown : Shown t'

  module _ (fd : ℕ) (t : Stream) (rest : ℕ → ℕ) (mine : t.fd ≡ some fd) (fine : Shown t) where
    keep_chunk-Served :
        (chunk : List ℕ) (s : St W)
        → length chunk < 2 ^ 32
        → Holds s.log (λ x. one (some fd) x + rest x)
        → Returns (keep_chunk k.os t chunk s) (Served s rest)
    unfolding keep_chunk jf_spool
    keep_chunk-Served chunk s short h =
        Returns-bind (jf_spool k.os t.spool chunk) _ s (λ _ u. Quiet s u) (Served s rest)
          (spool_to-Quiet (t.spool).file t.spool chunk s)
          (λ p u q.
            let (stream, shows) = fine.1 in
            let (c', e, shows') =
              jf_tail-Shows t.limit (length chunk) stream chunk t.capture fine.0 short (omega arith)
                shows in
            rw e (record {
              ends =
                  rw mine
                    (Holds-held s.log u.log (λ x. one (some fd) x + rest x) (ap (λ l. l.0) q.0) h);
              family = ap (λ l. l.1) q.0;
              place = ap (λ l. l.2) q.0;
              later = q.1;
              shown = (fine.0, (_, shows'));
            }))

    end_stream-Served :
        (s u : St W)
        → Holds u.log (λ x. one (some fd) x + rest x)
        → children u.log ≡ children s.log
        → taken_slots u.log ≡ taken_slots s.log
        → Later k s.world u.world
        → Returns (end_stream k.os t fd u) (Served s rest)
    unfolding end_stream close
    end_stream-Served s u h f p l = record {
      ends =
          Holds-closed u.log fd (λ x. one (some fd) x + rest x) (λ x. one none x + rest x) h
            (λ x. omega arith);
      family = f;
      place = p;
      later = Later-trans k s.world u.world _ l (live.close_later fd u.world);
      shown = fine;
    }

    unread :
        (s u : St W)
        → Holds u.log (λ x. one (some fd) x + rest x)
        → ledgers u.log ≡ ledgers s.log
        → Later k s.world u.world
        → Served s rest t u
    unread s u h q l = record {
      ends = rw mine h;
      family = ap (λ l. l.1) q;
      place = ap (λ l. l.2) q;
      later = l;
      shown = fine;
    }

    pub jf_read-Served :
        (s : St W)
        → Holds s.log (λ x. one (some fd) x + rest x)
        → Returns (jf_read k.os t fd s) (Served s rest)
    unfolding jf_read read_chunk
    jf_read-Served s h =
        Returns-call (k.os.sys_read fd chunk_size) (λ bytes. fetched fd bytes ∷ [])
          (read_chunk k.os t fd) s _
          (elim [
            | [] ↦ λ eq. end_stream-Served s _ h refl refl (live.read_later fd chunk_size s.world)
            | b ∷ bs ↦ λ eq.
                Returns-weaken (keep_chunk k.os t (b ∷ bs) _) (Served _ rest) _
                  (keep_chunk-Served (b ∷ bs) _
                    (omega (arith, (live.lawful.read_ok fd chunk_size s.world (b ∷ bs) eq).0)) h)
                  (λ t' u v. record {
                    ends = v.ends;
                    family = v.family;
                    place = v.place;
                    later =
                        Later-trans k s.world _ u.world (live.read_later fd chunk_size s.world)
                          v.later;
                    shown = v.shown;
                  })
          ])
          (λ x eq.
            Returns-if (is_fatal x) (end_stream k.os t fd) (pure t) _ (Served s rest)
              (λ _. end_stream-Served s _ h refl refl (live.read_later fd chunk_size s.world))
              (λ _. unread s _ h refl (live.read_later fd chunk_size s.world)))
