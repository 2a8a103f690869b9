-- ===== src/Http/Policy.antt =====
-- native/http.c: which requests are made, and with which options.
use jev_fabric.Base.{
  ℕ, ◌≤◌, ◌<◌, ◌≡◌, ◌↔◌, refl, Bool, true, false, List, [], ◌∷◌, ◌++◌, ◌==◌, Option, none, some,
  arith, inl, inr, Bool-cases, length, take,
}
use jev_fabric.Host.Names.{codes, same_bytes}
use jev_fabric.Http.Defs.{
  Post, Setting, protocols, redir_protocols, proxy, no_proxy, follow_location, netrc, verify_peer,
  verify_host, max_file_size, timeout_ms, url, post_fields, post_field_size, ca_info, ca_setting,
  settings, apply_settings, jh_configure, jh_https, post_refuses, body_limit, url_max, key_max,
  timeout_max_ms,
}

pub same_bytes_iff : (xs ys : List ℕ) → (same_bytes xs ys ≡ true) ↔ (xs ≡ ys)
same_bytes_iff [] [] = (λ _. refl, λ _. refl)
same_bytes_iff [] (y ∷ ys) = (λ h. cc, λ h. cc)
same_bytes_iff (x ∷ xs) [] = (λ h. cc, λ h. cc)
same_bytes_iff (x ∷ xs) (y ∷ ys) =
    (λ h. ground (arith, (same_bytes_iff xs ys).0), λ h. ground (arith, (same_bytes_iff xs ys).1))

-- A request that native/http.c makes: an https URL, a key and a body within bounds and free of
-- NUL, and a timeout.
pub record IsServed (io_nul : List ℕ → Bool) (p : Post) : Type 0 where
  pub https : take 8 p.url ≡ codes "https://"
  pub url_long : 8 < length p.url
  pub url_short : length p.url ≤ url_max
  pub key_given : 0 < length p.key
  pub key_short : length p.key ≤ key_max
  pub body_short : length p.body ≤ body_limit
  pub url_text : io_nul p.url ≡ false
  pub key_text : io_nul p.key ≡ false
  pub body_text : io_nul p.body ≡ false
  pub timed : 0 < p.timeout
  pub timed_short : p.timeout ≤ timeout_max_ms

-- The tests of `native_http_post_run` pass exactly the requests with an https URL, a key and a body
-- within their bounds, no NUL in the three, and a timeout from 1 to an hour.
pub post_refuses_iff :
    (io_nul : List ℕ → Bool) (p : Post) → (post_refuses io_nul p ≡ false) ↔ IsServed io_nul p
unfolding post_refuses jh_https
post_refuses_iff io_nul p = (
  λ h. record {
    https = (same_bytes_iff (take 8 p.url) (codes "https://")).0 (ground arith);
    url_long = ground arith;
    url_short = ground arith;
    key_given = ground arith;
    key_short = ground arith;
    body_short = ground arith;
    url_text = ground arith;
    key_text = ground arith;
    body_text = ground arith;
    timed = ground arith;
    timed_short = ground arith;
  },
  λ f. ground (arith, f, (same_bytes_iff (take 8 p.url) (codes "https://")).1 f.https),
)

abbrev pub as_protocols : Setting → Option (List ℕ)
as_protocols (protocols v) = some v
as_protocols _ = none

abbrev pub as_redir_protocols : Setting → Option (List ℕ)
as_redir_protocols (redir_protocols v) = some v
as_redir_protocols _ = none

abbrev pub as_proxy : Setting → Option (List ℕ)
as_proxy (proxy v) = some v
as_proxy _ = none

abbrev pub as_no_proxy : Setting → Option (List ℕ)
as_no_proxy (no_proxy v) = some v
as_no_proxy _ = none

abbrev pub as_follow_location : Setting → Option (ℕ)
as_follow_location (follow_location v) = some v
as_follow_location _ = none

abbrev pub as_netrc : Setting → Option (ℕ)
as_netrc (netrc v) = some v
as_netrc _ = none

abbrev pub as_verify_peer : Setting → Option (ℕ)
as_verify_peer (verify_peer v) = some v
as_verify_peer _ = none

abbrev pub as_verify_host : Setting → Option (ℕ)
as_verify_host (verify_host v) = some v
as_verify_host _ = none

abbrev pub as_max_file_size : Setting → Option (ℕ)
as_max_file_size (max_file_size v) = some v
as_max_file_size _ = none

abbrev pub as_timeout_ms : Setting → Option (ℕ)
as_timeout_ms (timeout_ms v) = some v
as_timeout_ms _ = none

abbrev pub as_url : Setting → Option (List ℕ)
as_url (url v) = some v
as_url _ = none

abbrev pub as_post_fields : Setting → Option (List ℕ)
as_post_fields (post_fields v) = some v
as_post_fields _ = none

abbrev pub as_post_field_size : Setting → Option (ℕ)
as_post_field_size (post_field_size v) = some v
as_post_field_size _ = none

-- The value that an option has after the settings: the last that was given.
abbrev pub later : {A : Type 0} → Option A → Option A → Option A
later none v = v
later (some w) v = some w

abbrev pub final : {A : Type 0} → (Setting → Option A) → List Setting → Option A
final f [] = none
final f (o ∷ os) = later (final f os) (f o)

pub record IsSecured (p : Post) (given : List Setting) : Type 0 where
  pub last_protocols : final as_protocols given ≡ some (codes "https")
  pub last_redir_protocols : final as_redir_protocols given ≡ some (codes "https")
  pub last_proxy : final as_proxy given ≡ some ([])
  pub last_no_proxy : final as_no_proxy given ≡ some (codes "*")
  pub last_follow_location : final as_follow_location given ≡ some (0)
  pub last_netrc : final as_netrc given ≡ some (0)
  pub last_verify_peer : final as_verify_peer given ≡ some (1)
  pub last_verify_host : final as_verify_host given ≡ some (2)
  pub last_max_file_size : final as_max_file_size given ≡ some (1048576)
  pub last_timeout_ms : final as_timeout_ms given ≡ some (p.timeout)
  pub last_url : final as_url given ≡ some (p.url)
  pub last_post_fields : final as_post_fields given ≡ some (p.body)
  pub last_post_field_size : final as_post_field_size given ≡ some (length p.body)

unchanged : {A : Type 0} (v : Option A) → later v none ≡ v
unchanged none = refl
unchanged (some w) = refl

-- The trust anchors change no other option.
final-ca :
    {A : Type 0} (f : Setting → Option A) (ca : Option (List ℕ)) (rest : List Setting)
    → ((path : List ℕ) → f (ca_info path) ≡ none)
    → final f (ca_setting ca ++ rest) ≡ final f rest
final-ca f none rest other = refl
final-ca f (some path) rest other = elim (Bool-cases (length path == 0)) [
  | inl empty ↦ rw empty refl
  | inr given ↦ rw (given, other path) (unchanged (final f rest))
]

settings-IsSecured : (p : Post) (ca : Option (List ℕ)) → IsSecured p (settings p ca)
unfolding settings
settings-IsSecured p ca = record {
  last_protocols = rw (final-ca as_protocols ca _ (λ path. refl)) refl;
  last_redir_protocols = rw (final-ca as_redir_protocols ca _ (λ path. refl)) refl;
  last_proxy = rw (final-ca as_proxy ca _ (λ path. refl)) refl;
  last_no_proxy = rw (final-ca as_no_proxy ca _ (λ path. refl)) refl;
  last_follow_location = rw (final-ca as_follow_location ca _ (λ path. refl)) refl;
  last_netrc = rw (final-ca as_netrc ca _ (λ path. refl)) refl;
  last_verify_peer = rw (final-ca as_verify_peer ca _ (λ path. refl)) refl;
  last_verify_host = rw (final-ca as_verify_host ca _ (λ path. refl)) refl;
  last_max_file_size = rw (final-ca as_max_file_size ca _ (λ path. refl)) refl;
  last_timeout_ms = rw (final-ca as_timeout_ms ca _ (λ path. refl)) refl;
  last_url = rw (final-ca as_url ca _ (λ path. refl)) refl;
  last_post_fields = rw (final-ca as_post_fields ca _ (λ path. refl)) refl;
  last_post_field_size = rw (final-ca as_post_field_size ca _ (λ path. refl)) refl;
}

module _ {H : Type 0} (setopt : Setting → H → Bool × H) where
  -- Every setting of the list was accepted, one after the other.
  pub data Accepted : List Setting → H → H → Type 0 where
    done : {easy : H} → Accepted [] easy easy
    next :
        {o : Setting} {os : List Setting} {easy last : H}
        → (setopt o easy).0 ≡ false
        → Accepted os (setopt o easy).1 last
        → Accepted (o ∷ os) easy last

  apply_settings-Accepted :
      (os : List Setting) (easy : H)
      → (apply_settings setopt os easy).0 ≡ false
      → Accepted os easy (apply_settings setopt os easy).1
  unfolding apply_settings
  apply_settings-Accepted [] easy h = done
  apply_settings-Accepted (o ∷ os) easy h = elim (Bool-cases (setopt o easy).0) [
    | inl bad ↦ grind arith
    | inr good ↦ rw good (next good (apply_settings-Accepted os (setopt o easy).1 (ground arith)))
  ]

  pub settings-Accepted :
      (p : Post) (ca : Option (List ℕ)) (easy : H)
      → (jh_configure setopt p ca easy).0 ≡ false
      → Accepted (settings p ca) easy (jh_configure setopt p ca easy).1
  unfolding jh_configure
  settings-Accepted p ca easy h = apply_settings-Accepted (settings p ca) easy h

  -- Where `jh_configure` answers that nothing failed, curl accepted settings, one after the other
  -- on the one handle, by which the handle allows https alone, also after a redirect, follows no
  -- redirect, uses no proxy and no netrc, verifies the peer and the host name, takes no more than
  -- 1 MiB, stops at the request's timeout, and posts the request's body to its URL: these are the
  -- last values that those options were given.
  pub jh_configure-Accepted :
      (p : Post) (ca : Option (List ℕ)) (easy : H)
      → (jh_configure setopt p ca easy).0 ≡ false
      → (given : List Setting) × Accepted given easy (jh_configure setopt p ca easy).1
        × IsSecured p given
  jh_configure-Accepted p ca easy h =
      (settings p ca, settings-Accepted p ca easy h, settings-IsSecured p ca)
