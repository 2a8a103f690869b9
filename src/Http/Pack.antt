-- ===== src/Http/Pack.antt =====
-- native/http.c: `jh_scrub`, `jh_bytes`, `jh_post_pack` and `native_http_post_run`. The runtime's
-- `io_nul` is a parameter.
use jev_fabric.Base.{
  ℕ, zero, suc, ◌%◌, ◌^◌, Bool, true, false, List, [], ◌∷◌, ◌++◌, Option, none, some, if◌then◌else◌,
  length, load_bytes,
}
use jev_fabric.Os.{Errno, clear, einval}
use jev_fabric.Http.Defs.{Post, post_refuses}
use jev_fabric.Http.Transfer.{Ending, unavailable, ended_with}

-- What the Bend program gets: a status with a body, JH_UNAVAILABLE, or an error.
pub data PostReply : Type 0 where
  fetched : ℕ → List ℕ → PostReply
  post_unavailable : PostReply
  post_failed : Errno → PostReply

-- The reply, and the blocks of the request as they were when they were freed: the URL, the key and
-- the body. The response buffer and the struct are freed too.
pub record PostReport : Type 0 where
  pub reply : PostReply
  pub freed : List (List ℕ)

pub data Begun : Type 0 where
  answered_now : PostReport → Begun
  working_on : Post → Begun

-- The block that io_cstr answers.
abbrev pub c_string : List ℕ → List ℕ
c_string text = text ++ 0 ∷ []

-- The loop of `jh_scrub`; `none` is a store outside the block.
unfoldable pub scrub : ℕ → List ℕ → Option (List ℕ)
scrub zero block = some block
scrub (suc n) [] = none
scrub (suc n) (b ∷ block) = elim (scrub n block) [ none ↦ none | some rest ↦ some (0 ∷ rest) ]

-- The loop of `jh_bytes`, from the last byte to the first; `none` is a load outside the buffer.
unfoldable pub jh_bytes : List ℕ → ℕ → List ℕ → Option (List ℕ)
jh_bytes buffer zero bytes = some bytes
jh_bytes buffer (suc i) bytes = elim (load_bytes buffer i 1) [
  | none ↦ none
  | some [] ↦ none
  | some (b ∷ _) ↦ jh_bytes buffer i (b % 2 ^ 8 ∷ bytes)
]

-- w->code is 0
abbrev pub no_error : Errno → Bool
no_error clear = true
no_error _ = false

unfoldable pub pack_reply : Ending → Post → Option PostReply
pack_reply unavailable p = some post_unavailable
pack_reply (ended_with e status) p =
    if no_error e
    then elim (jh_bytes p.out p.out_len []) [
      | none ↦ none
      | some bytes ↦ some (fetched (status % 2 ^ 32) bytes)
    ]
    else some (post_failed e)

infixl 5 ◌>>=◌
abbrev pub ◌>>=◌ : {A B : Type 0} → Option A → (A → Option B) → Option B
none >>= f = none
some a >>= f = f a

unfoldable pub jh_post_pack : Ending → Post → Option PostReport
jh_post_pack ending p = do
  reply ← pack_reply ending p
  key ← scrub (length p.key) (c_string p.key)
  body ← scrub (length p.body) (c_string p.body)
  some (record { reply = reply; freed = c_string p.url ∷ key ∷ body ∷ [] })

-- The timeout is a U32 of Bend, which the cast in the source keeps as it is.
unfoldable pub native_http_post_run : (List ℕ → Bool) → Post → Option Begun
native_http_post_run io_nul p =
    if post_refuses io_nul p
    then elim (jh_post_pack (ended_with einval 0) p) [
      | none ↦ none
      | some r ↦ some (answered_now r)
    ]
    else some (working_on p)
