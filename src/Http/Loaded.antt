-- ===== src/Http/Loaded.antt =====
-- native/http.c: when `jh_load` leaves libcurl ready.
use jev_fabric.Base.{
  ℕ, ◌≡◌, ◌↔◌, refl, Bool, true, false, not, List, [], ◌∷◌, map, arith, if◌then◌else◌, inl, inr,
  Bool-cases,
}
use jev_fabric.Http.Load.{
  LoadCall, open_library, look_up, init_curl, init_share, share_settings, libraries, symbols,
  lock_count, open_first, look_up_all, init_locks, all_set, load_share, load_symbols, jh_load,
}

module _ {H : Type 0} (call : LoadCall → H → Bool × H) where
  -- The first library that opens takes the state from one to the other.
  pub data Opens : List (List ℕ) → H → H → Type 0 where
    here :
        {name : List ℕ} {names : List (List ℕ)} {h : H}
        → (call (open_library name) h).0 ≡ true
        → Opens (name ∷ names) h (call (open_library name) h).1
    there :
        {name : List ℕ} {names : List (List ℕ)} {h last : H}
        → (call (open_library name) h).0 ≡ false
        → Opens names (call (open_library name) h).1 last
        → Opens (name ∷ names) h last

  -- The calls succeed one after the other.
  pub data Succeed : List LoadCall → H → H → Type 0 where
    done : {h : H} → Succeed [] h h
    next :
        {c : LoadCall} {cs : List LoadCall} {h last : H}
        → (call c h).0 ≡ true
        → Succeed cs (call c h).1 last
        → Succeed (c ∷ cs) h last

  -- Each step of the loading went well.
  pub record Usable (h : H) : Type 0 where
    pub opened : H
    pub linked : H
    pub shared : H
    pub library : Opens libraries h opened
    pub complete : Succeed (map look_up symbols) opened linked
    pub started : (call init_curl linked).0 ≡ true
    pub pooled :
        Succeed
          (init_share ∷ share_settings)
          (init_locks call lock_count 0 (call init_curl linked).1)
          shared

  open_first-Opens :
      (names : List (List ℕ)) (h : H)
      → (open_first call names h).0 ≡ true
      → Opens names h (open_first call names h).1
  unfolding open_first
  open_first-Opens [] h e = cc
  open_first-Opens (name ∷ names) h e = elim (Bool-cases (call (open_library name) h).0) [
    | inl good ↦ rw good (here good)
    | inr bad ↦
        rw bad (
          there bad
            (open_first-Opens names (call (open_library name) h).1 (ground (arith, e, bad))))
  ]

  Opens-open_first :
      {names : List (List ℕ)} {h last : H}
      → Opens names h last
      → open_first call names h ≡ (true, last)
  unfolding open_first
  Opens-open_first (here good) = rw good refl
  Opens-open_first (there bad o) = rw bad (Opens-open_first o)

  all_set-Succeed :
      (cs : List LoadCall) (h : H)
      → (all_set call cs h).0 ≡ true
      → Succeed cs h (all_set call cs h).1
  unfolding all_set
  all_set-Succeed [] h e = done
  all_set-Succeed (c ∷ cs) h e = elim (Bool-cases (call c h).0) [
    | inl good ↦ rw good (next good (all_set-Succeed cs (call c h).1 (ground (arith, e, good))))
    | inr bad ↦ absurd (ground (arith, e, bad))
  ]

  Succeed-all_set :
      {cs : List LoadCall} {h last : H} → Succeed cs h last → all_set call cs h ≡ (true, last)
  unfolding all_set
  Succeed-all_set done = refl
  Succeed-all_set (next good o) = rw good (Succeed-all_set o)

  still_missing : (names : List (List ℕ)) (h : H) → (look_up_all call names true h).0 ≡ true
  unfolding look_up_all
  still_missing [] h = refl
  still_missing (name ∷ names) h = elim (Bool-cases (call (look_up name) h).0) [
    | inl good ↦ rw (look_up_all, good) (still_missing names (call (look_up name) h).1)
    | inr bad ↦ rw (look_up_all, bad) (still_missing names (call (look_up name) h).1)
  ]

  look_up_all-Succeed :
      (names : List (List ℕ)) (h : H)
      → (look_up_all call names false h).0 ≡ false
      → Succeed (map look_up names) h (look_up_all call names false h).1
  unfolding look_up_all
  look_up_all-Succeed [] h e = done
  look_up_all-Succeed (name ∷ names) h e = elim (Bool-cases (call (look_up name) h).0) [
    | inl good ↦
        rw (look_up_all, good)
          (next good
            (look_up_all-Succeed names (call (look_up name) h).1 (ground (arith, e, good))))
    | inr bad ↦ absurd (ground (arith, e, bad, still_missing names (call (look_up name) h).1))
  ]

  Succeed-look_up_all :
      (names : List (List ℕ)) {h last : H}
      → Succeed (map look_up names) h last
      → look_up_all call names false h ≡ (false, last)
  unfolding look_up_all
  Succeed-look_up_all [] done = refl
  Succeed-look_up_all (name ∷ names) (next good o) = rw good (Succeed-look_up_all names o)

  load_symbols-ready :
      (looked : Bool × H)
      → (load_symbols call looked).0 ≡ true
      → (looked.0 ≡ false)
        × ((call init_curl looked.1).0 ≡ true)
        × ((load_share call (call init_curl looked.1).1).0 ≡ true)
  unfolding load_symbols
  load_symbols-ready looked e = (ground (arith, e), ground (arith, e), ground (arith, e))

  if_opened :
      (b : Bool) (x : H) (y : Bool × H)
      → (if not b then (false, x) else y).0 ≡ true
      → (b ≡ true) × (y.0 ≡ true)
  if_opened true x y e = (refl, e)
  if_opened false x y e = cc

  jh_load-opened :
      (h : H)
      → (jh_load call h).0 ≡ true
      → ((open_first call libraries h).0 ≡ true)
        × ((load_symbols call (look_up_all call symbols false (open_first call libraries h).1)).0
            ≡ true)
  unfolding jh_load
  jh_load-opened h e = if_opened (open_first call libraries h).0 _ _ e

  -- `jh_load` leaves libcurl ready exactly where one of the three libraries opens, all ten symbols
  -- are found in it, curl_global_init succeeds, and then curl_share_init and every share option do.
  pub jh_load-Usable : (h : H) → ((jh_load call h).0 ≡ true) ↔ Usable h
  unfolding jh_load load_symbols load_share
  jh_load-Usable h = (
    λ e.
        let (library, ready) = jh_load-opened h e in
        let (found, started, pooled) = load_symbols-ready _ ready in
        record {
          opened = _;
          linked = _;
          shared = _;
          library = open_first-Opens libraries h library;
          complete = look_up_all-Succeed symbols _ found;
          started = started;
          pooled = all_set-Succeed _ _ pooled;
        },
    λ u.
        rw
          (
            Opens-open_first u.library,
            Succeed-look_up_all symbols u.complete,
            u.started,
            Succeed-all_set u.pooled,
          )
          refl,
  )
