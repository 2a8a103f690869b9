-- ===== src/Marshal/Bounds.antt =====
-- The argument vector: its bounds, and when the list is taken whole.
use jev_fabric.Base.{
  ℕ, ◌+◌, ◌≤◌, ◌≡◌, refl, ◌∙◌, Bool, true, false, inl, inr, List, [], ◌∷◌, ◌++◌, length,
  length-append, append_assoc, append-nil, sym, subst, ◌↔◌, arith, Bool-cases,
}
use jev_fabric.Marshal.Defs.{Args, arg_bytes, collect, take_arg, rejects, marshal}

module _ (io_nul : List ℕ → Bool) (slots : ℕ) where
  -- Every argument is short enough and free of NUL.
  abbrev pub AllFit : List (List ℕ) → Type 0
  AllFit [] = Unit
  AllFit (arg ∷ args) = (length arg ≤ arg_bytes) × (io_nul arg ≡ false) × AllFit args

  AllFit-append :
      (xs : List (List ℕ)) (arg : List ℕ)
      → AllFit xs
      → length arg ≤ arg_bytes
      → io_nul arg ≡ false
      → AllFit (xs ++ arg ∷ [])
  AllFit-append [] arg h l n = (l, n, tt)
  AllFit-append (x ∷ xs) arg h l n = (h.0, h.1, AllFit-append xs arg h.2 l n)

  Bounded : Args → Type 0
  Bounded a = (length a.argv ≤ slots) × AllFit a.argv

  take_arg-Bounded : (a : Args) (arg : List ℕ) → Bounded a → Bounded (take_arg io_nul slots a arg)
  unfolding take_arg Bounded
  take_arg-Bounded a arg h = elim (Bool-cases (rejects io_nul slots a arg)) [
    | inl bad ↦ rw bad h
    | inr good ↦ rw good (
      unfold rejects in ground (arith, length-append a.argv (arg ∷ [])),
      unfold rejects in AllFit-append a.argv arg h.1 (ground arith) (ground arith),
    )
  ]

  take_arg_taken :
      (a : Args) (arg : List ℕ)
      → rejects io_nul slots a arg ≡ false
      → take_arg io_nul slots a arg ≡ record a { argv = a.argv ++ arg ∷ [] }
  unfolding take_arg
  take_arg_taken a arg h = rw h

  take_arg_rejected :
      (a : Args) (arg : List ℕ)
      → rejects io_nul slots a arg ≡ true
      → (take_arg io_nul slots a arg).refused ≡ true
  unfolding take_arg
  take_arg_rejected a arg h = rw h

  collect-cons :
      (a : Args) (arg : List ℕ) (args : List (List ℕ))
      → collect io_nul slots a (arg ∷ args)
        ≡ collect io_nul slots (take_arg io_nul slots a arg) args
  unfolding collect
  collect-cons a arg args = refl

  collect-nil : (a : Args) → collect io_nul slots a [] ≡ a
  unfolding collect
  collect-nil a = refl

  collect-Bounded :
      (args : List (List ℕ)) (a : Args) → Bounded a → Bounded (collect io_nul slots a args)
  unfolding collect
  collect-Bounded [] a h = h
  collect-Bounded (arg ∷ args) a h =
      collect-Bounded args (take_arg io_nul slots a arg) (take_arg-Bounded a arg h)

  take_arg_refused :
      (a : Args) (arg : List ℕ) → a.refused ≡ true → (take_arg io_nul slots a arg).refused ≡ true
  unfolding take_arg
  take_arg_refused a arg h = ground arith

  collect_refused :
      (args : List (List ℕ)) (a : Args)
      → a.refused ≡ true
      → (collect io_nul slots a args).refused ≡ true
  unfolding collect
  collect_refused [] a h = h
  collect_refused (arg ∷ args) a h =
      collect_refused args (take_arg io_nul slots a arg) (take_arg_refused a arg h)

  collect_whole :
      (args : List (List ℕ)) (a : Args)
      → (collect io_nul slots a args).refused ≡ false
      → (collect io_nul slots a args).argv ≡ a.argv ++ args
  collect_whole [] a h = rw (collect-nil a) (sym (append-nil a.argv))
  collect_whole (arg ∷ args) a h = elim (Bool-cases (rejects io_nul slots a arg)) [
    | inl bad ↦ cc (
      h,
      collect-cons a arg args,
      collect_refused args (take_arg io_nul slots a arg) (take_arg_rejected a arg bad),
    )
    | inr good ↦
        let e = collect-cons a arg args in
        let t = take_arg_taken a arg good in
        rw e (
          rw t (
            collect_whole args (record a { argv = a.argv ++ arg ∷ [] }) (rw t at (rw e at h))
            ∙ append_assoc a.argv (arg ∷ []) args))
  ]

  -- The vector holds at most `slots` arguments, whatever the list, and only ones that fit.
  pub marshal_bounds :
      (args : List (List ℕ))
      → (length (marshal io_nul slots args).argv ≤ slots) × AllFit (marshal io_nul slots args).argv
  unfolding marshal Bounded
  marshal_bounds args = collect-Bounded args _ (omega arith, tt)

  -- A list that is not refused is taken whole, in its order.
  pub marshal_whole :
      (args : List (List ℕ))
      → (marshal io_nul slots args).refused ≡ false
      → (marshal io_nul slots args).argv ≡ args
  unfolding marshal
  marshal_whole args h = collect_whole args _ h

  collect_taken :
      (args : List (List ℕ)) (a : Args)
      → a.refused ≡ false
      → length a.argv + length args ≤ slots
      → AllFit args
      → (collect io_nul slots a args).refused ≡ false
  collect_taken [] a r l f = rw (collect-nil a) r
  collect_taken (arg ∷ args) a r l f = rw (collect-cons a arg args) (
      rw (take_arg_taken a arg good) (
        collect_taken args (record a { argv = a.argv ++ arg ∷ [] }) r
          (omega (arith, length-append a.argv (arg ∷ []))) f.2))
    where
      good : rejects io_nul slots a arg ≡ false
      good = unfold rejects in ground (arith, f.0, f.1)

  -- The list of arguments is not refused exactly when it has at most `slots` arguments, each at
  -- most `arg_bytes` long and free of NUL.
  pub marshal_refuses :
      (args : List (List ℕ))
      → ((marshal io_nul slots args).refused ≡ false) ↔ ((length args ≤ slots) × AllFit args)
  marshal_refuses args = (
    λ h. subst (λ l. (length l ≤ slots) × AllFit l) (marshal_whole args h) (marshal_bounds args),
    λ f. unfold marshal in collect_taken args _ refl (omega arith) f.1,
  )
