-- ===== src/Tail/Defs.antt =====
-- native/posix.c, `jf_tail`. `dest` is the whole malloc'ed buffer; `cut` is the flag bit that the
-- caller passes as `bit`. `none` is an access outside one of the two buffers.
use jev_fabric.Base.{
  ℕ, ◌+◌, ◌-◌, ◌%◌, ◌^◌, Bool, List, Option, none, some, ◌||◌, ltb, leb, if◌then◌else◌, load_bytes,
  store_bytes,
}

-- A stream's capture in `JfExec`: `out` with `out_len`, or `err` with `err_len`, and its flag.
pub record Capture : Type 0 where
  pub dest : List ℕ
  pub used : ℕ
  pub cut : Bool

-- size_t
abbrev pub size : ℕ → ℕ
size n = n % 2 ^ 64

infixl 5 ◌>>=◌
abbrev ◌>>=◌ : {A B : Type 0} → Option A → (A → Option B) → Option B
none >>= f = none
some a >>= f = f a

-- `count >= limit`: the chunk's last `limit` bytes replace the buffer.
unfoldable pub replace_all : Capture → List ℕ → ℕ → ℕ → Option Capture
replace_all c source count limit = do
  chunk ← load_bytes source (count - limit) limit
  dest ← store_bytes c.dest 0 chunk
  some (record c { dest = dest; used = limit })

-- How many of the oldest bytes have to go.
unfoldable pub discard : ℕ → ℕ → ℕ → ℕ
discard used count limit =
    if ltb limit (size (used + count)) then size (used + count) - limit else 0

-- `count < limit`: the oldest bytes move out, and the chunk goes behind the rest.
unfoldable pub slide : Capture → List ℕ → ℕ → ℕ → Option Capture
slide c source count limit = do
  let gone = discard c.used count limit
  kept ← load_bytes c.dest gone (c.used - gone)
  moved ← store_bytes c.dest 0 kept
  chunk ← load_bytes source 0 count
  dest ← store_bytes moved (c.used - gone) chunk
  some (record c { dest = dest; used = c.used - gone + count })

unfoldable pub jf_tail : Capture → List ℕ → ℕ → ℕ → Option Capture
jf_tail c source count limit =
    let marked = record c { cut = c.cut || ltb limit (size (c.used + count)) } in
    if leb limit count
    then replace_all marked source count limit
    else slide marked source count limit
