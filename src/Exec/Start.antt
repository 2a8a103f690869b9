-- ===== src/Exec/Start.antt =====
-- native/posix.c: which jobs are started, and what becomes of the descriptors of one that is not.
use jev_fabric.Base.{
  ℕ, ◌%◌, ◌^◌, ◌≤◌, ◌<◌, ◌≡◌, ◌≢◌, ◌∙◌, refl, ap, Bool, false, inl, inr, Bool-cases, ◌==◌,
  if◌then◌else◌, ◌&&◌, List, [], ◌∷◌, some, arith, length, get_or,
}
use jev_fabric.Os.{
  Errno, einval, enomem, Os, St, pure, close, held, close_first, Returns, Returns-bind, Returns-if,
}
use jev_fabric.Marshal.{AllFit, marshal, marshal_bounds, marshal_whole}
use jev_fabric.Pipe.{failed}
use jev_fabric.Exec.Defs.{
  Handle, absent, negative, open_at, Job, Outcome, Started, working, answered, exec_args, limit_max,
  timeout_max, input_max, is_open, exec_refuses, second_log, no_outcome, jf_close, jf_exec_pack,
  log_is_file, give_up, allocate, start_allocated, start_checked, jf_exec_start, pack_report,
}

abbrev pub with_handle : Handle → List ℕ → List ℕ
with_handle (open_at fd) h = fd ∷ h
with_handle _ h = h

-- The logs that are open, over `h`; one log for both streams counts once.
abbrev pub with_logs : Handle → Handle → List ℕ → List ℕ
with_logs (open_at a) (open_at b) h = if a == b then a ∷ h else a ∷ b ∷ h
with_logs (open_at a) absent h = a ∷ h
with_logs (open_at a) negative h = a ∷ h
with_logs absent (open_at b) h = b ∷ h
with_logs negative (open_at b) h = b ∷ h
with_logs _ _ h = h

-- The descriptors that the caller hands over with a job.
abbrev pub handed_over : Job → List ℕ → List ℕ
handed_over job h = with_logs job.log_out job.log_err (with_handle job.stdin_fd h)

-- What `jf_exec_pack` closes are the logs that are open.
logs_closed :
    (first second : Handle) (h : List ℕ)
    → with_logs first second h ≡ with_handle first (with_handle (second_log first second) h)
logs_closed (open_at a) (open_at b) h = elim (Bool-cases (a == b)) [
  | inl same ↦ rw same refl
  | inr other ↦ rw other refl
]
logs_closed (open_at a) absent h = refl
logs_closed (open_at a) negative h = refl
logs_closed absent absent h = refl
logs_closed absent negative h = refl
logs_closed absent (open_at b) h = refl
logs_closed negative absent h = refl
logs_closed negative negative h = refl
logs_closed negative (open_at b) h = refl

-- A job that may run: all of the arguments that were given, and everything within its limit.
pub record IsAdmitted (io_nul : List ℕ → Bool) (given job : Job) : Type 0 where
  pub whole : job ≡ record given { timeout = given.timeout % 2 ^ 32 }
  pub args_few : length job.argv ≤ exec_args
  pub args_fit : AllFit io_nul exec_args job.argv
  pub program : get_or (get_or job.argv 0 []) 0 0 ≢ 0
  pub input_short : length job.input ≤ input_max job.bytes
  pub timed : 0 < job.timeout
  pub timed_short : job.timeout ≤ timeout_max
  pub captures : 0 < job.limit
  pub captures_short : job.limit ≤ limit_max
  pub one_stdin : (is_open job.stdin_fd && job.inherit_stdin) ≡ false

-- What becomes of the descriptors that were handed over, with `h` the others.
abbrev pub Accounted : {W : Type 0} → (List ℕ → Bool) → Job → List ℕ → Started → St W → Type 0
Accounted io_nul given h (working job) s =
    (held s.log ≡ some (handed_over given h)) × IsAdmitted io_nul given job
Accounted io_nul given h (answered r) s = (held s.log ≡ some h) × ((e : Errno) × (r ≡ failed e))

module _ {W : Type 0} (os : Os W) where
  jf_close-held :
      (x : Handle) (h : List ℕ) (s : St W)
      → held s.log ≡ some (with_handle x h)
      → Returns (jf_close os x s) (λ _ t. held t.log ≡ some h)
  unfolding jf_close close
  jf_close-held absent h s e = e
  jf_close-held negative h s e = e
  jf_close-held (open_at fd) h s e = close_first s.log fd e

  -- Where the descriptors of a job are open, packing it closes each just once, also a log that
  -- serves both streams, and answers the report or the error code.
  pub jf_exec_pack-held :
      (job : Job) (outcome : Outcome) (code : Errno) (h : List ℕ) (s : St W)
      → held s.log ≡ some (handed_over job h)
      → Returns
          (jf_exec_pack os job outcome code s)
          (λ r t. (held t.log ≡ some h) × (r ≡ pack_report job outcome code))
  unfolding jf_exec_pack
  jf_exec_pack-held job outcome code h s e =
      Returns-bind (jf_close os job.log_out) _ s (λ _ t. held t.log ≡ some rest) _
        (jf_close-held job.log_out rest s (e ∙ ap some (logs_closed job.log_out job.log_err last)))
        (λ _ s1 e1.
          Returns-bind (jf_close os second) _ s1 (λ _ t. held t.log ≡ some last) _
            (jf_close-held second last s1 e1)
            (λ _ s2 e2.
              Returns-bind (jf_close os job.stdin_fd) _ s2 (λ _ t. held t.log ≡ some h) _
                (jf_close-held job.stdin_fd h s2 e2) (λ _ s3 e3. (e3, refl))))
    where
      second : Handle
      second = second_log job.log_out job.log_err

      last : List ℕ
      last = with_handle job.stdin_fd h

      rest : List ℕ
      rest = with_handle second last

  log_is_file-held :
      (x : Handle) (h : List ℕ) (s : St W)
      → held s.log ≡ some h
      → Returns (log_is_file os x s) (λ _ t. held t.log ≡ some h)
  unfolding log_is_file
  log_is_file-held absent h s e = e
  log_is_file-held negative h s e = e
  log_is_file-held (open_at fd) h s e = grind arith

  allocate-held :
      (limit : ℕ) (h : List ℕ) (s : St W)
      → held s.log ≡ some h
      → Returns (allocate os limit s) (λ _ t. held t.log ≡ some h)
  unfolding allocate
  allocate-held limit h s e = grind arith

  module _ (io_nul : List ℕ → Bool) (given : Job) (h : List ℕ) where
    -- The job of a request, with the arguments that were taken.
    abbrev taken : List (List ℕ) → Job
    taken argv = record given { argv = argv; timeout = given.timeout % 2 ^ 32 }

    give_up-Accounted :
        (argv : List (List ℕ)) (code : Errno) (s : St W)
        → held s.log ≡ some (handed_over given h)
        → ((job : Job) → pack_report job no_outcome code ≡ failed code)
        → Returns (give_up os (taken argv) code s) (Accounted io_nul given h)
    unfolding give_up
    give_up-Accounted argv code s e nonzero =
        Returns-bind (jf_exec_pack os (taken argv) no_outcome code) _ s
          (λ r t. (held t.log ≡ some h) × (r ≡ pack_report (taken argv) no_outcome code)) _
          (jf_exec_pack-held (taken argv) no_outcome code h s e)
          (λ r t k. (k.0, (code, k.1 ∙ nonzero (taken argv))))

    start_checked-Accounted :
        (argv : List (List ℕ)) (refused : Bool) (s : St W)
        → held s.log ≡ some (handed_over given h)
        → (refused ≡ false → IsAdmitted io_nul given (taken argv))
        → Returns (start_checked os (taken argv) refused s) (Accounted io_nul given h)
    unfolding start_checked start_allocated pack_report
    start_checked-Accounted argv refused s e admitted =
        Returns-if refused (give_up os (taken argv) einval) _ s (Accounted io_nul given h)
          (λ _. give_up-Accounted argv einval s e (λ job. refl))
          (λ good.
            Returns-bind (allocate os given.limit) (start_allocated os (taken argv)) s
              (λ _ t. held t.log ≡ some (handed_over given h)) (Accounted io_nul given h)
              (allocate-held given.limit (handed_over given h) s e)
              (λ room t k.
                Returns-if room (pure (working (taken argv))) (give_up os (taken argv) enomem) t
                  (Accounted io_nul given h) (λ _. (k, admitted good))
                  (λ _. give_up-Accounted argv enomem t k (λ job. refl))))

    admitted_lem :
        (marshal io_nul exec_args given.argv).refused ≡ false
        → exec_refuses (taken (marshal io_nul exec_args given.argv).argv) ≡ false
        → IsAdmitted io_nul given (taken (marshal io_nul exec_args given.argv).argv)
    unfolding exec_refuses
    admitted_lem all fine = record {
      whole = ap taken (marshal_whole io_nul exec_args given.argv all);
      args_few = (marshal_bounds io_nul exec_args given.argv).0;
      args_fit = (marshal_bounds io_nul exec_args given.argv).1;
      program = ground arith;
      input_short = ground arith;
      timed = ground arith;
      timed_short = ground arith;
      captures = ground arith;
      captures_short = ground arith;
      one_stdin = ground arith;
    }

-- Where the descriptors handed over are open, a subprocess request either becomes a job with all of
-- its arguments and everything within its limit, which holds the descriptors handed over; or it is
-- answered by an error, and each descriptor handed over has been closed, just once.
pub jf_exec_start-Accounted :
    {W : Type 0} (os : Os W) (io_nul : List ℕ → Bool) (given : Job) (h : List ℕ) (s : St W)
    → held s.log ≡ some (handed_over given h)
    → Returns (jf_exec_start os io_nul given s) (Accounted io_nul given h)
unfolding jf_exec_start
jf_exec_start-Accounted os io_nul given h s e =
    Returns-bind (log_is_file os given.log_out) _ s (λ _ t. held t.log ≡ some (handed_over given h))
      _ (log_is_file-held os given.log_out (handed_over given h) s e)
      (λ out_fine s1 e1.
        Returns-bind (log_is_file os given.log_err) _ s1
          (λ _ t. held t.log ≡ some (handed_over given h)) _
          (log_is_file-held os given.log_err (handed_over given h) s1 e1)
          (λ err_fine s2 e2.
            start_checked-Accounted os io_nul given h (marshal io_nul exec_args given.argv).argv _
              s2 e2
              (λ good.
                admitted_lem os io_nul given h (ground (arith, good)) (ground (arith, good)))))
