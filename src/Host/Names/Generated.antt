-- ===== src/Host/Names/Generated.antt =====
-- native/host.c: the names that the code generates, against the tests that it puts to names.
use jev_fabric.Base.{
  ℕ, zero, suc, get_or, ◌+◌, ◌*◌, ◌/◌, ◌%◌, ◌<◌, ◌≤◌, ◌≡◌, refl, Bool, true, false, List, [], ◌∷◌,
  arith, length, length-append,
}
use jev_fabric.Host.Names.Defs.{every, is_hex, jfh_id, jfh_leaf, digit, hex_of, temp_name, codes}

-- What every byte of a list passes, the byte at a place within it passes.
every-get_or :
    (p : ℕ → Bool) (cs : List ℕ) (place : ℕ)
    → every p cs ≡ true
    → place < length cs
    → p (get_or cs place 0) ≡ true
every-get_or p [] place all inside = absurd (omega arith)
every-get_or p (c ∷ cs) zero all inside = ground arith
every-get_or p (c ∷ cs) (suc place) all inside =
    every-get_or p cs place (ground arith) (omega arith)

is_hex-digit : (place : ℕ) → place < 16 → is_hex (digit place) ≡ true
unfolding digit is_hex
is_hex-digit place inside = every-get_or is_hex (codes "0123456789abcdef") place refl inside

every-hex_of : (bytes : List ℕ) → every is_hex (hex_of bytes) ≡ true
unfolding hex_of
every-hex_of [] = refl
every-hex_of (b ∷ bs) =
    rw (is_hex-digit (b % 256 / 16) (omega arith))
      (rw (is_hex-digit (b % 256 % 16) (omega arith)) (every-hex_of bs))

pub length-hex_of : (bytes : List ℕ) → length (hex_of bytes) ≡ 2 * length bytes
unfolding hex_of
length-hex_of [] = refl
length-hex_of (b ∷ bs) = omega (arith, length-hex_of bs)

-- Sixteen bytes in hexadecimal pass `jfh_id`.
pub jfh_id-hex_of : (bytes : List ℕ) → length bytes ≡ 16 → jfh_id (hex_of bytes) ≡ true
unfolding jfh_id
jfh_id-hex_of bytes h = ground (arith, length-hex_of bytes, every-hex_of bytes)

-- The temporary name of an id that passes `jfh_id` fits its array of 40 bytes, the NUL included.
pub length-temp_name : (id : List ℕ) → jfh_id id ≡ true → length (temp_name id) + 1 ≤ 40
unfolding temp_name jfh_id
length-temp_name id h = ground (arith, length-append id (codes ".tmp"))

-- No temporary name passes `jfh_leaf`: a job's file is never named like one.
pub jfh_leaf-temp_name : (id : List ℕ) → jfh_leaf (temp_name id) ≡ false
unfolding temp_name jfh_leaf
jfh_leaf-temp_name id = ground arith
