-- ===== src/Host/Request/Limits.antt =====
-- native/host.c, `jfh_os_run`: which requests are served.
use jev_fabric.Base.{
  ℕ, ◌%◌, ◌^◌, ◌≤◌, ◌≡◌, Bool, true, false, ap, List, Option, some, arith, inl, inr, Bool-cases,
  length,
}
use jev_fabric.Os.{einval, Os, St, ◌>>=◌}
use jev_fabric.Marshal.{AllFit, marshal, marshal_refuses, marshal_whole}
use jev_fabric.Host.Names.{id_len, leaf_max}
use jev_fabric.Host.Call.{Request, op_spawn, jfh_call}
use jev_fabric.Host.Request.Defs.{
  failed, text_max, host_args, jfh_pack, os_refuses, jfh_os_run, serve,
}

-- The limits that native/host.c states for a request.
pub record Fits (io_nul : List ℕ → Bool) (req : Request) : Type 0 where
  pub op_known : req.op ≤ op_spawn
  pub id_short : length req.id ≤ id_len
  pub name_short : length req.name ≤ leaf_max
  pub text_short : length req.text ≤ text_max
  pub limit_small : req.limit ≤ text_max
  pub id_text : io_nul req.id ≡ false
  pub name_text : io_nul req.name ≡ false
  pub args_few : length req.argv ≤ host_args
  pub args_fit : AllFit io_nul host_args req.argv

Within : (io_nul : List ℕ → Bool) → Request → Type 0
Within io_nul req = os_refuses io_nul req ≡ false

Fits-Within : (io_nul : List ℕ → Bool) (req : Request) → Fits io_nul req → Within io_nul req
unfolding Within os_refuses
Fits-Within io_nul req f = ground arith

Within-Fits :
    (io_nul : List ℕ → Bool) (req : Request)
    → Within io_nul req
    → (length req.argv ≤ host_args) × AllFit io_nul host_args req.argv
    → Fits io_nul req
unfolding Within os_refuses
Within-Fits io_nul req w a = record {
  op_known = ground arith;
  id_short = ground arith;
  name_short = ground arith;
  text_short = ground arith;
  limit_small = ground arith;
  id_text = ground arith;
  name_text = ground arith;
  args_few = a.0;
  args_fit = a.1;
}

serve_refused :
    {W : Type 0} (os : Os W) (old : Option ℕ) (b : Bool) (req : Request) (s : St W)
    → b ≡ true
    → serve os old b req s ≡ some (record { answered = failed einval; lease_now = old }, s)
unfolding serve
serve_refused os old b req s h = rw h

serve_taken :
    {W : Type 0} (os : Os W) (old : Option ℕ) (b : Bool) (req : Request) (s : St W)
    → b ≡ false
    → serve os old b req s ≡ (jfh_call os old req >>= jfh_pack req) s
unfolding serve
serve_taken os old b req s h = rw h

module _ {W : Type 0} (os : Os W) (io_nul : List ℕ → Bool) (old : Option ℕ) where
  -- The request as the Bend program means it.
  abbrev pub meant : ℕ → List ℕ → List ℕ → List ℕ → List (List ℕ) → ℕ → Request
  meant op id name text args limit = record {
    op = op % 2 ^ 32;
    limit = limit % 2 ^ 32;
    id = id;
    name = name;
    text = text;
    argv = args;
  }

  module _ (op : ℕ) (id name text : List ℕ) (args : List (List ℕ)) (limit : ℕ) (s : St W) where
    abbrev req : Request
    req = meant op id name text args limit

    args_kept :
        (marshal io_nul host_args args).refused ≡ false
        → record req { argv = (marshal io_nul host_args args).argv } ≡ req
    args_kept r = ap (λ a. record req { argv = a }) (marshal_whole io_nul host_args args r)

    -- A request within the limits is served just as it was meant, with none of its arguments lost.
    pub jfh_os_run_served :
        Fits io_nul req
        → jfh_os_run os io_nul old op id name text args limit s
          ≡ (jfh_call os old req >>= jfh_pack req) s
    unfolding jfh_os_run Within
    jfh_os_run_served f =
        let r = (marshal_refuses io_nul host_args args).1 (f.args_few, f.args_fit) in
        let w : os_refuses io_nul req ≡ false = Fits-Within io_nul req f in
        rw (args_kept r) (serve_taken os old _ req s (ground (arith, r, w)))

    -- A request outside the limits is answered by EINVAL, with nothing done.
    pub jfh_os_run_refused :
        ¬ Fits io_nul req
        → jfh_os_run os io_nul old op id name text args limit s
          ≡ some (record { answered = failed einval; lease_now = old }, s)
    unfolding jfh_os_run Within
    jfh_os_run_refused n =
        serve_refused os old _ _ s (elim (Bool-cases (marshal io_nul host_args args).refused) [
          | inl t ↦ ground (arith, t)
          | inr r ↦ elim (Bool-cases (os_refuses io_nul req)) [
            | inl t ↦ rw (args_kept r) (rw t)
            | inr w ↦
                absurd (n (Within-Fits io_nul req w ((marshal_refuses io_nul host_args args).0 r)))
          ]
        ])
