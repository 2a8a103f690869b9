-- ===== src/Host/Names/Defs.antt =====
-- native/host.c: `jfh_id`, `jfh_leaf`, the path parts of `jfh_root`, the digits of `jfh_random`
-- and the temporary name of `jfh_atomic`. A C string is the list of its bytes before the NUL.
use Prim.Native.String.{String}
use Prim.Native.Char.{code}
use jev_fabric.Base.{
  ℕ, ◌/◌, ◌%◌, Bool, true, false, ◌&&◌, ◌||◌, not, List, [], ◌∷◌, ◌++◌, ltb, leb, ◌==◌,
  if◌then◌else◌, length, get_or,
}

abbrev pub codes : String → List ℕ
codes String.[] = []
codes (String.◌∷◌ c s) = code c ∷ codes s

abbrev pub id_len : ℕ
id_len = 32

abbrev pub leaf_max : ℕ
leaf_max = 64

-- The loops of `jfh_id` and `jfh_leaf`: every byte passes the test.
abbrev pub every : (ℕ → Bool) → List ℕ → Bool
every p [] = true
every p (c ∷ cs) = p c && every p cs

unfoldable pub is_hex : ℕ → Bool
is_hex c = leb b'a' c && leb c b'f' || leb b'0' c && leb c b'9'

unfoldable pub jfh_id : List ℕ → Bool
jfh_id s = if not (length s == id_len) then false else every is_hex s

unfoldable pub is_leaf_byte : ℕ → Bool
is_leaf_byte c = leb b'a' c && leb c b'z' || leb b'0' c && leb c b'9' || c == b'.' || c == b'-'

unfoldable pub jfh_leaf : List ℕ → Bool
jfh_leaf s =
    if length s == 0 || ltb leaf_max (length s) || get_or s 0 0 == b'.'
    then false
    else every is_leaf_byte s

-- strtok_r(copy, "/", ...): the maximal runs of other bytes. `part` is the run being read.
unfoldable pub split_parts : List ℕ → List ℕ → List (List ℕ)
split_parts part [] = if length part == 0 then [] else part ∷ []
split_parts part (c ∷ cs) =
    let rest = split_parts [] cs in
    let longer = split_parts (part ++ c ∷ []) cs in
    if c == b'/' then (if length part == 0 then rest else part ∷ rest) else longer

unfoldable pub path_parts : List ℕ → List (List ℕ)
unfolding split_parts
path_parts path = split_parts [] path

abbrev pub same_bytes : List ℕ → List ℕ → Bool
same_bytes [] [] = true
same_bytes (x ∷ xs) (y ∷ ys) = x == y && same_bytes xs ys
same_bytes _ _ = false

-- !strcmp(part, ".") || !strcmp(part, "..")
unfoldable pub is_dots : List ℕ → Bool
is_dots part = same_bytes part (b'.' ∷ []) || same_bytes part (b'.' ∷ b'.' ∷ [])

-- digits[i] of "0123456789abcdef"
unfoldable pub digit : ℕ → ℕ
digit i = get_or (codes "0123456789abcdef") i 0

-- The last loop of `jfh_random`, over the bytes of an array of unsigned char.
unfoldable pub hex_of : List ℕ → List ℕ
hex_of [] = []
hex_of (b ∷ bs) = digit (b % 256 / 16) ∷ digit (b % 256 % 16) ∷ hex_of bs

-- snprintf(temp, sizeof temp, ".%s.tmp", random)
unfoldable pub temp_name : List ℕ → List ℕ
temp_name random = b'.' ∷ (random ++ codes ".tmp")
