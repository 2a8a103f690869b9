-- ===== src/Http/Answers.antt =====
-- native/http.c: what a request is answered with, and what of it is left in memory.
use jev_fabric.Base.{
  ℕ, zero, suc, ◌%◌, ◌^◌, ◌≤◌, ◌≡◌, refl, ◌∙◌, ap, sym, append-nil, List, [], ◌∷◌, ◌++◌, map, some,
  arith, if◌then◌else◌, inl, inr, Bool-cases, length, take, drop, replicate, load_bytes_lem,
  append_assoc,
}
use jev_fabric.Http.Defs.{Post}
use jev_fabric.Http.Transfer.{Ending, unavailable, ended_with}
use jev_fabric.Http.Pack.{
  PostReply, fetched, post_unavailable, post_failed, c_string, no_error, scrub, jh_bytes,
  pack_reply, jh_post_pack,
}

-- A number as an unsigned char.
abbrev pub byte : ℕ → ℕ
byte b = b % 2 ^ 8

take-one :
    (n : ℕ) (buffer : List ℕ)
    → suc n ≤ length buffer
    → (b : ℕ) × (take 1 (drop n buffer) ≡ b ∷ []) × (take (suc n) buffer ≡ take n buffer ++ b ∷ [])
take-one zero [] h = absurd (omega arith)
take-one zero (x ∷ buffer) h = (x, refl, refl)
take-one (suc n) [] h = absurd (omega arith)
take-one (suc n) (x ∷ buffer) h =
    let (b, e, f) = take-one n buffer (omega arith) in (b, e, ap (λ l. x ∷ l) f)

map-append : (xs ys : List ℕ) → map byte (xs ++ ys) ≡ map byte xs ++ map byte ys
map-append [] ys = refl
map-append (x ∷ xs) ys = ap (λ l. byte x ∷ l) (map-append xs ys)

jh_bytes_lem :
    (buffer : List ℕ) (n : ℕ) (bytes : List ℕ)
    → n ≤ length buffer
    → jh_bytes buffer n bytes ≡ some (map byte (take n buffer) ++ bytes)
unfolding jh_bytes
jh_bytes_lem buffer zero bytes h = refl
jh_bytes_lem buffer (suc n) bytes h =
    let (b, e, f) = take-one n buffer h in
    rw (jh_bytes, load_bytes_lem buffer n 1 (omega arith), e)
      (jh_bytes_lem buffer n (byte b ∷ bytes) (omega arith) ∙ ap some (sym (joined b f)))
  where
    joined :
        (b : ℕ)
        → take (suc n) buffer ≡ take n buffer ++ b ∷ []
        → map byte (take (suc n) buffer) ++ bytes ≡ map byte (take n buffer) ++ byte b ∷ bytes
    joined b f =
        ap (λ l. map byte l ++ bytes) f
        ∙ ap (λ l. l ++ bytes) (map-append (take n buffer) (b ∷ []))
        ∙ append_assoc (map byte (take n buffer)) (byte b ∷ []) bytes

scrub_lem :
    (text rest : List ℕ)
    → scrub (length text) (text ++ rest) ≡ some (replicate (length text) 0 ++ rest)
unfolding scrub
scrub_lem [] rest = refl
scrub_lem (b ∷ text) rest = rw (scrub_lem text rest) refl

replicate-snoc : (n : ℕ) → ◌++◌ {A = ℕ} (replicate n 0) (0 ∷ []) ≡ replicate (suc n) 0
replicate-snoc zero = refl
replicate-snoc (suc n) = ap (λ l. 0 ∷ l) (replicate-snoc n)

-- What a request is answered with, from how it ended and what has been received.
abbrev pub reply_of : Ending → List ℕ → PostReply
reply_of unavailable received = post_unavailable
reply_of (ended_with e status) received =
    if no_error e then fetched (status % 2 ^ 32) (map byte received) else post_failed e

pack_reply_lem :
    (ending : Ending) (p : Post)
    → p.out_len ≤ length p.out
    → pack_reply ending p ≡ some (reply_of ending (take p.out_len p.out))
unfolding pack_reply
pack_reply_lem unavailable p h = refl
pack_reply_lem (ended_with e status) p h = elim (Bool-cases (no_error e)) [
  | inl good ↦ rw (pack_reply, good, jh_bytes_lem p.out p.out_len [] h, append-nil) refl
  | inr bad ↦ rw (pack_reply, bad) refl
]

-- `jh_post_pack` answers JH_UNAVAILABLE, the error, or the status with exactly the bytes received,
-- by how the request ended; and on every path it frees the URL, the key and the body, the last two
-- with every byte zeroed.
pub jh_post_pack_wiped :
    (ending : Ending) (p : Post)
    → p.out_len ≤ length p.out
    → jh_post_pack ending p
      ≡ some (record {
        reply = reply_of ending (take p.out_len p.out);
        freed =
            c_string p.url
            ∷ replicate (suc (length p.key)) 0
            ∷ replicate (suc (length p.body)) 0
            ∷ [];
      })
unfolding jh_post_pack
jh_post_pack_wiped ending p h =
    rw
      (
        pack_reply_lem ending p h,
        scrub_lem p.key (0 ∷ []),
        scrub_lem p.body (0 ∷ []),
        replicate-snoc (length p.key),
        replicate-snoc (length p.body),
      )
      refl
