-- ===== src/Marshal/Defs.antt =====
-- The loops of `jfh_os_run` and `jf_exec_start` over a Bend list of arguments. The runtime's test
-- for a NUL among a text's bytes, `io_nul`, is a parameter.
use jev_fabric.Base.{
  ℕ, Bool, true, false, ◌||◌, List, [], ◌∷◌, ◌++◌, ltb, ◌==◌, if◌then◌else◌, length,
}

abbrev pub arg_bytes : ℕ
arg_bytes = 4096

-- `argv` with `argc` its length, and whether `w->code` was set to EINVAL.
pub record Args : Type 0 where
  pub argv : List (List ℕ)
  pub refused : Bool

module _ (io_nul : List ℕ → Bool) (slots : ℕ) where
  unfoldable pub rejects : Args → List ℕ → Bool
  rejects a arg = length a.argv == slots || ltb arg_bytes (length arg) || io_nul arg

  -- An argument that has no slot, is too long or holds a NUL is dropped, and the request refused.
  unfoldable pub take_arg : Args → List ℕ → Args
  take_arg a arg =
      if rejects a arg then record a { refused = true } else record a { argv = a.argv ++ arg ∷ [] }

  unfoldable pub collect : Args → List (List ℕ) → Args
  collect a [] = a
  collect a (arg ∷ args) = collect (take_arg a arg) args

  unfoldable pub marshal : List (List ℕ) → Args
  marshal args = collect (record { argv = []; refused = false }) args
