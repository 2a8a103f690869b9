-- ===== src/Host/Call/Descriptors.antt =====
-- native/host.c, `jfh_call`: which descriptors a call leaves open.
use jev_fabric.Base.{
  ℕ, ◌≡◌, false, List, [], ◌∷◌, Option, none, some, arith, leb, ltb, ◌==◌, ◌||◌, if◌then◌else◌, ap,
}
use jev_fabric.Os.{
  Errno, Event, clear, Os, IsLawful, St, ◌>>◌, pure, nothing, locked, opened, closed, after, close,
  held, close_first, close_second, Returns, Returns-bind, Returns-call, Returns-if, FileName,
}
use jev_fabric.Host.Directory.{holding, jfh_root, jfh_root-held, jfh_dir, jfh_dir-held}
use jev_fabric.Host.Files.{jfh_random, jfh_random-held}
use jev_fabric.Host.Call.Defs.{
  Request, Attempt, op_self, op_create, op_spawn, jobs_max, count_entries, add_opens, launch,
  jfh_spawn_process, create_named, create_counted, create_copied, create_locked, create_in,
  call_create, call_job, spawn_done, call_body, close_if, call_end, jfh_call, or_eio,
}
use jev_fabric.Host.Call.Owned.{
  kept, Owned, plain, call_self-Owned, create_named-Owned, call_job-Owned,
}

module _ {W : Type 0} (os : Os W) (law : IsLawful os) (old : Option ℕ) (h : List ℕ) where
  create_counted-Owned :
      (limit dir copy : ℕ) (entries : Option (List FileName)) (s : St W)
      → held s.log ≡ some (copy ∷ dir ∷ h)
      → Returns (create_counted os old limit dir copy entries s) (Owned old h)
  unfolding create_counted close
  create_counted-Owned limit dir copy none s e =
      plain os law old h none (some dir) (closed copy ∷ s.log) (close_first s.log copy e)
  create_counted-Owned limit dir copy (some entries) s e =
      Returns-if (leb limit (count_entries limit 0 entries)) _ _ _ (Owned old h)
        (λ _. plain os law old h none (some dir) (closed copy ∷ s.log) (close_first s.log copy e))
        (λ _.
          Returns-bind (jfh_random os) (create_named os old dir) _
            (λ _ t. held t.log ≡ some (dir ∷ h)) (Owned old h)
            (jfh_random-held os law (dir ∷ h) _ (close_first s.log copy e))
            (λ id t. create_named-Owned os law old h dir id t))

  create_copied-Owned :
      (limit dir : ℕ) (copy : Option ℕ) (s : St W)
      → held s.log ≡ some (holding copy (dir ∷ h))
      → Returns (create_copied os old limit dir copy s) (Owned old h)
  unfolding create_copied
  create_copied-Owned limit dir none s e = plain os law old h none (some dir) s.log e
  create_copied-Owned limit dir (some copy) s e =
      Returns-call (os.sys_list copy) nothing (create_counted os old limit dir copy) s (Owned old h)
        (λ entries _. create_counted-Owned limit dir copy (some entries) _ e)
        (λ x _. create_counted-Owned limit dir copy none _ e)

  create_in-Owned :
      (limit : ℕ) (dir : Option ℕ) (s : St W)
      → held s.log ≡ some (holding dir h)
      → Returns (create_in os old limit dir s) (Owned old h)
  unfolding create_in create_locked
  create_in-Owned limit none s e = plain os law old h none none s.log e
  create_in-Owned limit (some dir) s e =
      Returns-call (os.sys_flock dir false) (λ _. locked dir ∷ []) (create_locked os old limit dir)
        s (Owned old h)
        (λ _ _.
          Returns-call (os.sys_dup dir 3) (λ fd. opened fd ∷ []) (create_copied os old limit dir) _
            (Owned old h)
            (λ copy _. create_copied-Owned limit dir (some copy) _ (ap (after (opened copy)) e))
            (λ x _. create_copied-Owned limit dir none _ e))
        (λ x _. plain os law old h none (some dir) s.log e)

  jfh_spawn_process-held :
      (req : Request) (s : St W)
      → held s.log ≡ some h
      → Returns (jfh_spawn_process os req s) (λ _ t. held t.log ≡ some h)
  unfolding jfh_spawn_process launch add_opens
  jfh_spawn_process-held req s e = grind arith

  call_body-Owned :
      (req : Request) (s : St W)
      → held s.log ≡ some h
      → Returns (call_body os old req s) (Owned old h)
  unfolding call_body call_create
  call_body-Owned req s e =
      Returns-if (req.op == op_self) _ _ s (Owned old h) (λ _. call_self-Owned os law old h s e)
        (λ _.
          Returns-if (req.op == op_create) _ _ s (Owned old h)
            (λ _.
              Returns-if (req.limit == 0 || ltb jobs_max req.limit) _ _ s (Owned old h)
                (λ _. plain os law old h none none s.log e)
                (λ _.
                  Returns-bind (jfh_root os) (create_in os old req.limit) s
                    (λ r t. held t.log ≡ some (holding r h)) (Owned old h) (jfh_root-held os s e)
                    (λ r t. create_in-Owned req.limit r t)))
            (λ _.
              Returns-if (req.op == op_spawn) _ _ s (Owned old h)
                (λ _.
                  Returns-bind (jfh_spawn_process os req) (spawn_done os old) s
                    (λ _ t. held t.log ≡ some h) (Owned old h) (jfh_spawn_process-held req s e)
                    (elim [
                      | none ↦ λ t q. plain os law old h none none t.log q
                      | some _ ↦ λ t q. plain os law old h none none t.log q
                    ]))
                (λ _.
                  Returns-bind (jfh_dir os req.id) (call_job os old req) s
                    (λ r t. held t.log ≡ some (holding r h)) (Owned old h)
                    (jfh_dir-held os req.id s e) (λ r t. call_job-Owned os law old h req r t))))

  close_kept :
      (k : Option ℕ) (dir : ℕ) (log : List Event)
      → held log ≡ some (holding k (dir ∷ h))
      → held (closed dir ∷ log) ≡ some (holding k h)
  close_kept none dir log e = close_first log dir e
  close_kept (some fd) dir log e = close_second log dir fd e

  abbrev Left : Errno × Attempt → St W → Type 0
  Left r t = held t.log ≡ some (holding (kept old r.1) h)

  call_end-held : (a : Attempt) (s : St W) → Owned old h a s → Returns (call_end os a s) Left
  unfolding call_end close
  call_end-held a s e = by_fd a.fd a.dir e
    where
      by_fd :
          (fd dir : Option ℕ)
          → held s.log ≡ some (holding fd (holding (kept old a) (holding dir h)))
          → Returns
              ((close_if os fd
                  >> (close_if os dir >> pure (if a.rc then clear else or_eio s.errno, a)))
                s)
              Left
      by_fd none none e = e
      by_fd none (some dir) e = close_kept (kept old a) dir s.log e
      by_fd (some fd) none e = close_first s.log fd e
      by_fd (some fd) (some dir) e =
          close_kept (kept old a) dir (closed fd ∷ s.log) (close_first s.log fd e)

-- On an operating system whose reads and writes are lawful, whatever else it answers and for every
-- operation, `jfh_call` returns, closes no descriptor that is not open, and leaves open just what
-- was open before, with the spool file that it answers or the lease that it took.
pub jfh_call-held :
    {W : Type 0} (os : Os W) (law : IsLawful os) (old : Option ℕ) (req : Request) (s : St W)
    (h : List ℕ)
    → held s.log ≡ some h
    → Returns (jfh_call os old req s) (λ r t. held t.log ≡ some (holding (kept old r.1) h))
unfolding jfh_call
jfh_call-held os law old req s h e =
    Returns-bind (call_body os old req) (call_end os) s (Owned old h) _
      (call_body-Owned os law old h req s e) (λ a t. call_end-held os law old h a t)
