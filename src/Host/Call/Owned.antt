-- ===== src/Host/Call/Owned.antt =====
-- native/host.c, `jfh_call`: which descriptors each operation leaves open.
use jev_fabric.Base.{
  ℕ, ◌≡◌, refl, false, List, [], ◌∷◌, Option, none, some, arith, ◌==◌, ◌||◌, not, if◌then◌else◌, ap,
}
use jev_fabric.Os.{
  Event, Os, IsLawful, St, opened, after, held, Returns, Returns-bind, Returns-call, Returns-if,
  FileName, read_only_nonblock, create_writer, lease,
}
use jev_fabric.Host.Names.{codes, jfh_leaf}
use jev_fabric.Host.Directory.{holding, jfh_private, jfh_private_lem}
use jev_fabric.Host.Files.{
  fetches, Loaded, jfh_read_file, jfh_read_file-Loaded, jfh_atomic, jfh_atomic-Replaced, Replaced,
  changes,
}
use jev_fabric.Host.Call.Defs.{
  Request, Attempt, op_read, op_write, op_claim, op_alive, op_spool, answer, call_self,
  create_named, spool_checked, spool_opened, call_spool, file_read, file_written, claim_session,
  call_claim, call_alive, lease_checked, lease_opened, call_lease, call_file, call_job,
}

-- The lease that a call took.
abbrev pub claimed : Option ℕ → Option ℕ → Option ℕ
claimed none new = new
claimed (some _) new = none

-- The descriptor that outlives the call: the spool file that it answers, or the lease.
abbrev pub kept : Option ℕ → Attempt → Option ℕ
kept old a = elim (a.handle) [ some fd ↦ some fd | none ↦ claimed old (a.lease_fd) ]

-- What is open at the label `end`, over what was open before.
abbrev pub Owned : {W : Type 0} → Option ℕ → List ℕ → Attempt → St W → Type 0
Owned old h a s = held s.log ≡ some (holding a.fd (holding (kept old a) (holding a.dir h)))

claimed_same : (old : Option ℕ) → claimed old old ≡ none
claimed_same none = refl
claimed_same (some _) = refl

module _ {W : Type 0} (os : Os W) (law : IsLawful os) (old : Option ℕ) (h : List ℕ) where
  -- A call that stops, or ends with no descriptor for the caller.
  pub plain :
      (fd dir : Option ℕ) (log : List Event)
      → held log ≡ some (holding fd (holding dir h))
      → held log ≡ some (holding fd (holding (claimed old old) (holding dir h)))
  plain fd dir log e = rw (claimed_same old) e

  answer-Owned :
      (fd dir : Option ℕ) (text : List ℕ) (s : St W)
      → held s.log ≡ some (holding fd (holding dir h))
      → Returns (answer os old fd dir text s) (Owned old h)
  unfolding answer
  answer-Owned fd dir text s e = grind (arith, claimed_same)

  pub call_self-Owned :
      (s : St W) → held s.log ≡ some h → Returns (call_self os old s) (Owned old h)
  unfolding call_self answer
  call_self-Owned s e = grind (arith, claimed_same)

  pub create_named-Owned :
      (dir : ℕ) (id : Option FileName) (s : St W)
      → held s.log ≡ some (dir ∷ h)
      → Returns (create_named os old dir id s) (Owned old h)
  unfolding create_named answer
  create_named-Owned dir none s e = plain none (some dir) s.log e
  create_named-Owned dir (some id) s e = grind (arith, claimed_same)

  call_alive-Owned :
      (dir fd : ℕ) (s : St W)
      → held s.log ≡ some (fd ∷ dir ∷ h)
      → Returns (call_alive os old dir fd s) (Owned old h)
  unfolding call_alive answer
  call_alive-Owned dir fd s e = grind (arith, claimed_same)

  call_claim-Owned :
      (dir fd : ℕ) (s : St W)
      → held s.log ≡ some (fd ∷ dir ∷ h)
      → Returns (call_claim os old dir fd s) (Owned old h)
  unfolding call_claim claim_session
  call_claim-Owned dir fd s e = grind (arith, claimed_same)

  spool_opened-Owned :
      (dir : ℕ) (fd : Option ℕ) (s : St W)
      → held s.log ≡ some (holding fd (dir ∷ h))
      → Returns (spool_opened os old dir fd s) (Owned old h)
  unfolding spool_opened spool_checked jfh_private
  spool_opened-Owned dir none s e = plain none (some dir) s.log e
  spool_opened-Owned dir (some fd) s e = grind (arith, claimed_same)

  call_lease-Owned :
      (op dir : ℕ) (s : St W)
      → held s.log ≡ some (dir ∷ h)
      → Returns (call_lease os old op dir s) (Owned old h)
  unfolding call_lease lease_opened lease_checked
  call_lease-Owned op dir s e =
      Returns-call (os.sys_openat dir (codes ".lease") lease) (λ fd. opened fd ∷ [])
        (lease_opened os old op dir) s (Owned old h)
        (λ fd _.
          Returns-bind (jfh_private os fd false) (lease_checked os old op dir fd) _
            (λ _ t. held t.log ≡ some (fd ∷ dir ∷ h)) (Owned old h)
            (jfh_private_lem os fd false _ (ap (after (opened fd)) e))
            (elim [
              | none ↦ λ t q. plain (some fd) (some dir) t.log q
              | some _ ↦ λ t q.
                  Returns-if (op == op_claim) (call_claim os old dir fd) (call_alive os old dir fd)
                    t (Owned old h) (λ _. call_claim-Owned dir fd t q)
                    (λ _. call_alive-Owned dir fd t q)
            ]))
        (λ x _. plain none (some dir) s.log e)

  file_read-Owned :
      (dir limit : ℕ) (before : List ℕ) (r : Option (Option (List ℕ))) (s : St W)
      → Loaded limit before (dir ∷ h) r s
      → Returns (file_read os old dir r s) (Owned old h)
  file_read-Owned dir limit before none s l = plain none (some dir) s.log l
  file_read-Owned dir limit before (some none) s l = plain none (some dir) s.log l
  file_read-Owned dir limit before (some (some text)) s l = plain none (some dir) s.log l.0

  file_written-Owned :
      (dir : ℕ) (n : List Event) (name text : List ℕ) (r : Option (Unit {0})) (s : St W)
      → Replaced dir name text (dir ∷ h) n r s
      → Returns (file_written os old dir r s) (Owned old h)
  file_written-Owned dir n name text none s l = plain none (some dir) s.log l.0
  file_written-Owned dir n name text (some _) s l = plain none (some dir) s.log l.0

  call_file-Owned :
      (dir : ℕ) (req : Request) (s : St W)
      → held s.log ≡ some (dir ∷ h)
      → Returns (call_file os old dir req s) (Owned old h)
  unfolding call_file call_spool
  call_file-Owned dir req s e =
      Returns-if (not (jfh_leaf req.name)) _ _ s (Owned old h) (λ _. plain none (some dir) s.log e)
        (λ _.
          Returns-if (req.op == op_spool) _ _ s (Owned old h)
            (λ _.
              Returns-call
                (os.sys_openat dir req.name
                  (if req.limit == 0 then read_only_nonblock else create_writer))
                (λ fd. opened fd ∷ []) (spool_opened os old dir) s (Owned old h)
                (λ fd _. spool_opened-Owned dir (some fd) _ (ap (after (opened fd)) e))
                (λ x _. spool_opened-Owned dir none _ e))
            (λ _.
              Returns-if (req.op == op_read) _ _ s (Owned old h)
                (λ _.
                  Returns-bind (jfh_read_file os dir req.name req.limit) (file_read os old dir) s
                    (Loaded req.limit (fetches s.log) (dir ∷ h)) (Owned old h)
                    (jfh_read_file-Loaded os law dir req.name req.limit s (dir ∷ h) e)
                    (λ r t. file_read-Owned dir req.limit (fetches s.log) r t))
                (λ _.
                  Returns-bind (jfh_atomic os dir req.name req.text) (file_written os old dir) s
                    (Replaced dir req.name req.text (dir ∷ h) (changes s.log)) (Owned old h)
                    (jfh_atomic-Replaced os law dir req.name req.text s (dir ∷ h) e)
                    (λ r t. file_written-Owned dir (changes s.log) req.name req.text r t))))

  pub call_job-Owned :
      (req : Request) (dir : Option ℕ) (s : St W)
      → held s.log ≡ some (holding dir h)
      → Returns (call_job os old req dir s) (Owned old h)
  unfolding call_job
  call_job-Owned req none s e = plain none none s.log e
  call_job-Owned req (some dir) s e =
      Returns-if (req.op == op_spool || (req.op == op_read || req.op == op_write)) _ _ s
        (Owned old h) (λ _. call_file-Owned dir req s e)
        (λ _.
          Returns-if (req.op == op_claim || req.op == op_alive) _ _ s (Owned old h)
            (λ _. call_lease-Owned req.op dir s e) (λ _. plain none (some dir) s.log e))
