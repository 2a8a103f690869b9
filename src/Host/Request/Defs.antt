-- ===== src/Host/Request/Defs.antt =====
-- native/host.c: `jfh_os_run`, `jfh_spool_run` and `jfh_pack`. The runtime's test for a NUL among
-- a text's bytes, `io_nul`, is a parameter; a text comes as its bytes, which `io_cstr` makes of it.
use jev_fabric.Base.{
  ℕ, ◌%◌, ◌^◌, Bool, ◌||◌, List, [], Option, none, some, ltb, ◌==◌, if◌then◌else◌, length,
}
use jev_fabric.Os.{Errno, clear, einval, Os, M, ◌>>=◌, pure}
use jev_fabric.Marshal.{marshal}
use jev_fabric.Host.Names.{id_len, leaf_max}
use jev_fabric.Host.Call.{Request, Attempt, op_spawn, op_spool, jfh_call}

abbrev pub text_max : ℕ
text_max = 1048576

-- JFH_ARGS
abbrev pub host_args : ℕ
host_args = 69

-- What the Bend program gets: an error code, a File handle, or a String.
pub data Answer : Type 0 where
  failed : Errno → Answer
  handle_of : Option ℕ → Answer
  text_of : List ℕ → Answer

-- With the lease, which is the process's and not the request's.
pub record Replied : Type 0 where
  pub answered : Answer
  pub lease_now : Option ℕ

abbrev text_or_empty : Option (List ℕ) → List ℕ
text_or_empty none = []
text_or_empty (some t) = t

-- The answer of a call that ended with `code`.
unfoldable pub pack_code : Request → Errno → Option (List ℕ) → Option ℕ → Answer
pack_code req clear result handle =
    if req.op == op_spool then handle_of handle else text_of (text_or_empty result)
pack_code req e result handle = failed e

module _ (io_nul : List ℕ → Bool) where
  -- The bounds on the numbers and texts of a request.
  unfoldable pub os_refuses : Request → Bool
  os_refuses req =
      ltb op_spawn req.op
      || ltb id_len (length req.id)
      || ltb leaf_max (length req.name)
      || ltb text_max (length req.text)
      || ltb text_max req.limit
      || io_nul req.id
      || io_nul req.name

  unfoldable pub spool_refuses : List ℕ → List ℕ → Bool
  spool_refuses id name =
      ltb id_len (length id) || ltb leaf_max (length name) || io_nul id || io_nul name

unfoldable pub jfh_pack : {W : Type 0} → Request → Errno × Attempt → M W Replied
jfh_pack req r =
    pure (record {
      answered = pack_code req r.0 (r.1).result (r.1).handle;
      lease_now = (r.1).lease_fd;
    })

module _ {W : Type 0} (os : Os W) (held_lease : Option ℕ) where
  -- `return w->code ? jfh_pack(e, w) : io_work(w, jfh_call, jfh_pack);`
  unfoldable pub serve : Bool → Request → M W Replied
  serve refused req =
      if refused
      then pure (record { answered = failed einval; lease_now = held_lease })
      else (jfh_call os held_lease req >>= jfh_pack req)

module _ {W : Type 0} (os : Os W) (io_nul : List ℕ → Bool) (held_lease : Option ℕ) where
  unfoldable pub jfh_os_run : ℕ → List ℕ → List ℕ → List ℕ → List (List ℕ) → ℕ → M W Replied
  jfh_os_run op id name text args limit =
      let a = marshal io_nul host_args args in
      let req : Request = record {
        op = op % 2 ^ 32;
        limit = limit % 2 ^ 32;
        id = id;
        name = name;
        text = text;
        argv = a.argv;
      } in
      serve os held_lease (os_refuses io_nul req || a.refused) req

  unfoldable pub jfh_spool_run : List ℕ → List ℕ → Bool → M W Replied
  jfh_spool_run id name writer =
      let req : Request = record {
        op = op_spool;
        limit = if writer then 1 else 0;
        id = id;
        name = name;
        text = [];
        argv = [];
      } in
      serve os held_lease (spool_refuses io_nul id name) req
