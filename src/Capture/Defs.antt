-- ===== src/Capture/Defs.antt =====
-- native/posix.c, `jf_spool` and `jf_read`, for one of the two streams of a job.
use jev_fabric.Base.{
  ℕ, zero, suc, ◌+◌, ◌-◌, Bool, List, [], ◌∷◌, Option, none, some, ltb, leb, if◌then◌else◌, length,
  take, drop,
}
use jev_fabric.Os.{
  Errno, is_eintr, eintr, eagain, ewouldblock, eio, wrote, fetched, Os, M, ◌>>=◌, ◌>>◌, pure,
  perform, get_errno, exhausted, close,
}
use jev_fabric.Tail.{Capture, jf_tail}

abbrev pub spool_limit : ℕ
spool_limit = 1048576

-- char buffer[8192]
abbrev pub chunk_size : ℕ
chunk_size = 8192

-- `logs[stream]` with -1 as `none`, `logged[stream]`, and the job's `log_error`, `clear` as 0.
pub record Spool : Type 0 where
  pub file : Option ℕ
  pub logged : ℕ
  pub log_error : Errno

-- One stream of a job: its descriptor, its capture, its spool, and the job's `limit`.
pub record Stream : Type 0 where
  pub fd : Option ℕ
  pub capture : Capture
  pub spool : Spool
  pub limit : ℕ

-- errno != EINTR && errno != EAGAIN && errno != EWOULDBLOCK
unfoldable pub is_fatal : Errno → Bool
is_fatal eintr = Bool.false
is_fatal eagain = Bool.false
is_fatal ewouldblock = Bool.false
is_fatal _ = Bool.true

module _ {W : Type 0} (os : Os W) where
  -- What the loop of `jf_spool` does with the answer to a write.
  unfoldable pub spool_next : (Spool → List ℕ → M W Spool) → Spool → List ℕ → Option ℕ → M W Spool
  spool_next again p pending none = do
    e ← get_errno
    if is_eintr e then again p pending else pure (record p { log_error = e })
  spool_next again p pending (some zero) = pure (record p { log_error = eio })
  spool_next again p pending (some (suc n)) =
      again (record p { logged = p.logged + suc n }) (drop (suc n) pending)

  -- `pending` is what is left to write, to the file `fd`.
  unfoldable pub spool_rounds : ℕ → ℕ → Spool → List ℕ → M W Spool
  spool_rounds zero fd p pending = exhausted
  spool_rounds (suc fuel) fd p pending =
      if ltb 0 (length pending)
      then perform (os.sys_write fd pending) (λ n. wrote fd (take n pending) ∷ [])
        >>= spool_next (spool_rounds fuel fd) p pending
      else pure p

  abbrev pub interrupts_left : M W ℕ
  interrupts_left s = some (os.interrupts s.world, s)

  unfoldable pub spool_to : Option ℕ → Spool → List ℕ → M W Spool
  spool_to none p chunk = pure p
  spool_to (some fd) p chunk = if leb spool_limit p.logged then pure p else do
    k ← interrupts_left
    spool_rounds (length chunk + k + 1) fd p (take (spool_limit - p.logged) chunk)

  -- Append to the stream's spool file until it holds `spool_limit` bytes.
  unfoldable pub jf_spool : Spool → List ℕ → M W Spool
  jf_spool p chunk = spool_to p.file p chunk

  -- The buffer after a read, handed to the spool file and to the capture; `exhausted` stands also
  -- for an access outside the buffers, which never happens.
  unfoldable pub keep_chunk : Stream → List ℕ → M W Stream
  keep_chunk t chunk = do
    spooled ← jf_spool t.spool chunk
    elim (jf_tail t.capture chunk (length chunk) t.limit) [
      | none ↦ exhausted
      | some c ↦ pure (record t { capture = c; spool = spooled })
    ]

  unfoldable pub end_stream : Stream → ℕ → M W Stream
  end_stream t fd = close os fd >> pure (record t { fd = none })

  unfoldable pub read_chunk : Stream → ℕ → Option (List ℕ) → M W Stream
  read_chunk t fd none = do e ← get_errno; if is_fatal e then end_stream t fd else pure t
  read_chunk t fd (some []) = end_stream t fd
  read_chunk t fd (some (b ∷ bs)) = keep_chunk t (b ∷ bs)

  unfoldable pub jf_read : Stream → ℕ → M W Stream
  jf_read t fd =
      perform (os.sys_read fd chunk_size) (λ bytes. fetched fd bytes ∷ []) >>= read_chunk t fd
