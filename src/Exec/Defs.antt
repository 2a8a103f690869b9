-- ===== src/Exec/Defs.antt =====
-- native/posix.c: `jf_exec_start` and `jf_exec_pack`. The runtime's `io_nul` is a parameter.
use jev_fabric.Base.{
  ℕ, ◌%◌, ◌^◌, Bool, true, false, ◌&&◌, ◌||◌, not, List, [], ◌∷◌, Option, none, some, ltb, ◌==◌,
  if◌then◌else◌, length, get_or,
}
use jev_fabric.Os.{
  Errno, clear, einval, enomem, examined, Os, M, ◌>>=◌, ◌>>◌, pure, perform, nothing, close,
}
use jev_fabric.Marshal.{marshal}
use jev_fabric.Pipe.{Reply, done, failed}

abbrev pub exec_args : ℕ
exec_args = 64

abbrev pub limit_max : ℕ
limit_max = 1048580

abbrev pub text_input_max : ℕ
text_input_max = 131072

abbrev pub bytes_input_max : ℕ
bytes_input_max = 4194304

abbrev pub timeout_max : ℕ
timeout_max = 3600000

-- An `int` that is a descriptor: -1, a smaller number, or an open one.
pub data Handle : Type 0 where
  absent negative : Handle
  open_at : ℕ → Handle

-- What `jf_exec_start` puts into `JfExec`.
pub record Job : Type 0 where
  pub argv : List (List ℕ)
  pub input : List ℕ
  pub timeout : ℕ
  pub inherit_stdin : Bool
  pub stdin_fd : Handle
  pub limit : ℕ
  pub bytes : Bool
  pub log_out : Handle
  pub log_err : Handle

-- What `jf_exec_call` puts there.
pub record Outcome : Type 0 where
  pub code : ℕ
  pub flags : ℕ
  pub out : List ℕ
  pub err : List ℕ

-- A packed stream: a List<U32> or a String.
pub data Packed : Type 0 where
  byte_list text : List ℕ → Packed

-- (code, (flags, (stdout, stderr)))
pub record Report : Type 0 where
  pub exit_code : ℕ
  pub report_flags : ℕ
  pub stdout : Packed
  pub stderr : Packed

abbrev pub input_max : Bool → ℕ
input_max bytes = if bytes then bytes_input_max else text_input_max

abbrev pub is_negative : Handle → Bool
is_negative negative = true
is_negative _ = false

abbrev pub is_open : Handle → Bool
is_open (open_at _) = true
is_open _ = false

-- The tests of `jf_exec_start` on the job: `true` is EINVAL.
unfoldable pub exec_refuses : Job → Bool
exec_refuses job =
    length job.argv == 0
    || get_or (get_or job.argv 0 []) 0 0 == 0
    || ltb (input_max job.bytes) (length job.input)
    || job.timeout == 0
    || ltb timeout_max job.timeout
    || job.limit == 0
    || ltb limit_max job.limit
    || is_negative job.stdin_fd
    || is_open job.stdin_fd && job.inherit_stdin

abbrev pub same_handle : Handle → Handle → Bool
same_handle absent absent = true
same_handle negative negative = true
same_handle (open_at a) (open_at b) = a == b
same_handle _ _ = false

-- The second log that `jf_exec_pack` closes: a log for both streams is closed once.
abbrev pub second_log : Handle → Handle → Handle
second_log first second = if same_handle first second then absent else second

unfoldable pub jf_stream : Job → List ℕ → Packed
jf_stream job data_bytes = if job.bytes then byte_list data_bytes else text data_bytes

unfoldable pub pack_report : Job → Outcome → Errno → Reply Report
pack_report job outcome clear = done (record {
  exit_code = outcome.code;
  report_flags = outcome.flags;
  stdout = jf_stream job outcome.out;
  stderr = jf_stream job outcome.err;
})
pack_report job outcome e = failed e

-- A job handed to `io_work`, or a reply.
pub data Started : Type 0 where
  working : Job → Started
  answered : Reply Report → Started

abbrev pub no_outcome : Outcome
no_outcome = record { code = 0; flags = 0; out = []; err = [] }

module _ {W : Type 0} (os : Os W) where
  unfoldable pub jf_close : Handle → M W (Unit {0})
  jf_close (open_at fd) = close os fd
  jf_close _ = pure tt

  unfoldable pub jf_exec_pack : Job → Outcome → Errno → M W (Reply Report)
  jf_exec_pack job outcome code = do
    jf_close job.log_out
    jf_close (second_log job.log_out job.log_err)
    jf_close job.stdin_fd
    pure (pack_report job outcome code)

  -- fstat on a log: `false` is EINVAL.
  unfoldable pub log_is_file : Handle → M W Bool
  log_is_file (open_at fd) = do
    stat ← perform (os.sys_fstat fd) (λ st. examined fd st ∷ [])
    elim stat [ none ↦ pure false | some st ↦ pure st.is_reg ]
  log_is_file _ = pure true

  unfoldable pub give_up : Job → Errno → M W Started
  give_up job code = jf_exec_pack job no_outcome code >>= λ r. pure (answered r)

  abbrev pub is_some : Option (Unit {0}) → Bool
  is_some none = false
  is_some (some _) = true

  -- The two buffers: both are asked for before either is looked at.
  unfoldable pub allocate : ℕ → M W Bool
  allocate limit = do
    out ← perform (os.sys_malloc limit) nothing
    err ← perform (os.sys_malloc limit) nothing
    pure (is_some out && is_some err)

  unfoldable pub start_allocated : Job → Bool → M W Started
  start_allocated job allocated = if allocated then pure (working job) else give_up job enomem

  unfoldable pub start_checked : Job → Bool → M W Started
  start_checked job refused =
      if refused then give_up job einval else (allocate job.limit >>= start_allocated job)

module _ {W : Type 0} (os : Os W) (io_nul : List ℕ → Bool) where
  -- `given` is the job with the arguments of the Bend list, all of them.
  unfoldable pub jf_exec_start : Job → M W Started
  jf_exec_start given = do
    out_fine ← log_is_file os given.log_out
    err_fine ← log_is_file os given.log_err
    let a = marshal io_nul exec_args given.argv
    let job : Job = record given { argv = a.argv; timeout = given.timeout % 2 ^ 32 }
    start_checked os job (not out_fine || not err_fine || a.refused || exec_refuses job)

-- JF_TAIL
abbrev pub tail_size : ℕ
tail_size = 32768

-- The effects over `jf_exec_start`.
module _ {W : Type 0} (os : Os W) (io_nul : List ℕ → Bool) where
  unfoldable pub native_exec_run : List (List ℕ) → List ℕ → ℕ → Bool → M W Started
  native_exec_run args input timeout inherit = jf_exec_start os io_nul (record {
    argv = args;
    input = input;
    timeout = timeout;
    inherit_stdin = inherit;
    stdin_fd = absent;
    limit = tail_size;
    bytes = false;
    log_out = absent;
    log_err = absent;
  })

  unfoldable pub native_capture_run : List (List ℕ) → List ℕ → ℕ → ℕ → M W Started
  native_capture_run args input timeout limit = jf_exec_start os io_nul (record {
    argv = args;
    input = input;
    timeout = timeout;
    inherit_stdin = false;
    stdin_fd = absent;
    limit = limit % 2 ^ 32;
    bytes = true;
    log_out = absent;
    log_err = absent;
  })

  unfoldable pub native_exec_pipe_run : List (List ℕ) → Handle → ℕ → Handle → Handle → M W Started
  native_exec_pipe_run args stdin_fd timeout log_out log_err = jf_exec_start os io_nul (record {
    argv = args;
    input = [];
    timeout = timeout;
    inherit_stdin = false;
    stdin_fd = stdin_fd;
    limit = tail_size;
    bytes = false;
    log_out = log_out;
    log_err = log_err;
  })

  unfoldable pub native_exec_logged_run : List (List ℕ) → ℕ → Handle → Handle → M W Started
  native_exec_logged_run args timeout log_out log_err = jf_exec_start os io_nul (record {
    argv = args;
    input = [];
    timeout = timeout;
    inherit_stdin = false;
    stdin_fd = absent;
    limit = tail_size;
    bytes = false;
    log_out = log_out;
    log_err = log_err;
  })
