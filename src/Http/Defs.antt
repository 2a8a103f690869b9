-- ===== src/Http/Defs.antt =====
-- native/http.c: `jh_https`, `jh_write`, `jh_progress`, `jh_configure` and the tests of
-- `native_http_post_run`. libcurl's `easy_setopt` and the runtime's `io_nul` are parameters.

use jev_fabric.Base.{
  ℕ, ◌+◌, ◌-◌, ◌%◌, ◌^◌, Bool, true, false, ◌&&◌, ◌||◌, not, List, [], ◌∷◌, ◌++◌, Option, none,
  some, ltb, leb, ◌==◌, if◌then◌else◌, length, take, store_bytes,
}
use jev_fabric.Host.Names.{codes, same_bytes}

abbrev pub body_limit : ℕ
body_limit = 1048576

abbrev pub url_max : ℕ
url_max = 4096

abbrev pub key_max : ℕ
key_max = 16384

abbrev pub connect_timeout_ms : ℕ
connect_timeout_ms = 10000

abbrev pub timeout_max_ms : ℕ
timeout_max_ms = 3600000

-- `JhPost`: the request, and the response as it comes in. `out` is the whole malloc'ed buffer.
pub record Post : Type 0 where
  pub url : List ℕ
  pub key : List ℕ
  pub body : List ℕ
  pub timeout : ℕ
  pub out : List ℕ
  pub out_len : ℕ

-- size_t
abbrev pub size : ℕ → ℕ
size n = n % 2 ^ 64

append_out : Post → List ℕ → Option Post
append_out p chunk = elim (store_bytes p.out p.out_len chunk) [
  | none ↦ none
  | some out ↦ some (record p { out = out; out_len = size (p.out_len + length chunk) })
]

-- `chunk` is the `size * count` bytes at `data`. Answers what curl is told, and the post after;
-- `none` is an access outside the buffer.
unfoldable pub jh_write : List ℕ → Post → Option (ℕ × Post)
unfolding append_out
jh_write chunk p =
    if ltb (size (body_limit + 2 ^ 64 - p.out_len)) (length chunk)
    then some (0, p)
    else elim (append_out p chunk) [ none ↦ none | some q ↦ some (length chunk, q) ]

-- Nonzero stops the transfer.
unfoldable pub jh_progress : Bool → ℕ
jh_progress interrupted = if interrupted then 1 else 0

-- strncmp(url, "https://", 8) == 0, with the length tests.
unfoldable pub jh_https : List ℕ → Bool
jh_https url =
    ltb 8 (length url) && leb (length url) url_max && same_bytes (take 8 url) (codes "https://")

-- The tests of `native_http_post_run`: `true` is EINVAL.
unfoldable pub post_refuses : (List ℕ → Bool) → Post → Bool
post_refuses io_nul p =
    not (jh_https p.url)
    || io_nul p.url
    || length p.key == 0
    || ltb key_max (length p.key)
    || io_nul p.key
    || ltb body_limit (length p.body)
    || io_nul p.body
    || p.timeout == 0
    || ltb timeout_max_ms p.timeout

-- The options that `jh_configure` sets, with their values but for those that point to objects of the
-- call itself: the share handle, the header list, the callbacks and their argument.
pub data Setting : Type 0 where
  share write_function write_data progress_function progress_data http_header : Setting
  url post_fields : List ℕ → Setting
  protocols redir_protocols proxy no_proxy ca_info : List ℕ → Setting
  follow_location netrc verify_peer verify_host no_signal post_flag no_progress : ℕ → Setting
  connect_timeout timeout_ms max_file_size post_field_size : ℕ → Setting

abbrev pub ca_setting : Option (List ℕ) → List Setting
ca_setting none = []
ca_setting (some path) = if length path == 0 then [] else ca_info path ∷ []

-- The chain of `jh_configure` in its order. `ca` is CURL_CA_BUNDLE.
unfoldable pub settings : Post → Option (List ℕ) → List Setting
settings p ca =
    share
    ∷ url p.url
    ∷ protocols (codes "https")
    ∷ redir_protocols (codes "https")
    ∷ follow_location 0
    ∷ proxy []
    ∷ no_proxy (codes "*")
    ∷ netrc 0
    ∷ verify_peer 1
    ∷ verify_host 2
    ∷ (ca_setting ca
        ++ no_signal 1
          ∷ connect_timeout
              (if ltb p.timeout connect_timeout_ms then p.timeout else connect_timeout_ms)
          ∷ timeout_ms p.timeout
          ∷ max_file_size body_limit
          ∷ post_flag 1
          ∷ post_fields p.body
          ∷ post_field_size (length p.body)
          ∷ http_header
          ∷ write_function
          ∷ write_data
          ∷ no_progress 0
          ∷ progress_function
          ∷ progress_data
          ∷ [])

module _ {H : Type 0} (setopt : Setting → H → Bool × H) where
  -- `||` over the calls: `true` is the first that fails, and stops there.
  unfoldable pub apply_settings : List Setting → H → Bool × H
  apply_settings [] easy = (false, easy)
  apply_settings (o ∷ os) easy =
      let rest = apply_settings os (setopt o easy).1 in
      if (setopt o easy).0 then (true, (setopt o easy).1) else rest

  unfoldable pub jh_configure : Post → Option (List ℕ) → H → Bool × H
  jh_configure p ca easy = apply_settings (settings p ca) easy
