-- ===== src/Base/Buffers.antt =====
-- A malloc'ed byte buffer as the list of its bytes. Reads and writes past its end, which C leaves
-- undefined, are `none`.
use Prim.Native.Nat.{ℕ, ◌+◌, ◌≤◌}
use mathlib.Core.Path.{◌≡◌}
use mathlib.Core.Option.{Option, none, some}
use mathlib.Core.List.{List, ◌++◌}
use jev_fabric.Base.Tests.{leb, if◌then◌else◌, le→leb}
use jev_fabric.Base.Lists.{length, take, drop}

-- `n` bytes from `buf + off`.
unfoldable pub load_bytes : List ℕ → ℕ → ℕ → Option (List ℕ)
load_bytes buf off n = if leb (off + n) (length buf) then some (take n (drop off buf)) else none

-- memcpy and memmove into `buf + off`: what is moved is read before anything is written.
unfoldable pub store_bytes : List ℕ → ℕ → List ℕ → Option (List ℕ)
store_bytes buf off bytes =
    if leb (off + length bytes) (length buf)
    then some (take off buf ++ (bytes ++ drop (off + length bytes) buf))
    else none

pub load_bytes_lem :
    (buf : List ℕ) (off n : ℕ)
    → off + n ≤ length buf
    → load_bytes buf off n ≡ some (take n (drop off buf))
unfolding load_bytes
load_bytes_lem buf off n h = rw (le→leb (off + n) (length buf) h)

pub store_bytes_lem :
    (buf : List ℕ) (off : ℕ) (bytes : List ℕ)
    → off + length bytes ≤ length buf
    → store_bytes buf off bytes ≡ some (take off buf ++ (bytes ++ drop (off + length bytes) buf))
unfolding store_bytes
store_bytes_lem buf off bytes h = rw (le→leb (off + length bytes) (length buf) h)
