-- ===== src/Exec/Run/Yields.antt =====
-- Rules for what a function's result satisfies, whether or not it returns.
use jev_fabric.Base.{
  ◌≡◌, refl, inl, inr, Bool, true, false, Bool-cases, if◌then◌else◌, List, Option, none, some,
}
use jev_fabric.Os.{St, M, ◌>>=◌, Returns, Ret, ok, fail, Errno, Event, perform, settle}

abbrev pub Yields : {W A : Type 0} → Option (A × St W) → (A → St W → Type 0) → Type 0
Yields none P = Unit
Yields (some (a, s)) P = P a s

module _ {W A : Type 0} where
  pub Yields-Returns :
      (r : Option (A × St W)) (P Q : A → St W → Type 0)
      → Yields r P
      → Returns r Q
      → Returns r (λ a s. P a s × Q a s)
  Yields-Returns none P Q y h = h
  Yields-Returns (some (a, s)) P Q y h = (y, h)

  pub Yields-bind :
      {B : Type 0} (m : M W A) (f : A → M W B) (s : St W) (P : A → St W → Type 0)
      (Q : B → St W → Type 0)
      → Yields (m s) P
      → ((a : A) (t : St W) → P a t → Yields (f a t) Q)
      → Yields ((m >>= f) s) Q
  Yields-bind m f s P Q = go (m s)
    where
      go :
          (r : Option (A × St W))
          → Yields r P
          → ((a : A) (t : St W) → P a t → Yields (f a t) Q)
          → Yields (elim r [ none ↦ none | some (a, t) ↦ f a t ]) Q
      go none h k = tt
      go (some (a, t)) h k = k a t h

  -- Where nothing is asked of the first part.
  pub Yields-then :
      {B : Type 0} (m : M W A) (f : A → M W B) (s : St W) (Q : B → St W → Type 0)
      → ((a : A) (t : St W) → Yields (f a t) Q)
      → Yields ((m >>= f) s) Q
  Yields-then m f s Q = go (m s)
    where
      go :
          (r : Option (A × St W))
          → ((a : A) (t : St W) → Yields (f a t) Q)
          → Yields (elim r [ none ↦ none | some (a, t) ↦ f a t ]) Q
      go none k = tt
      go (some (a, t)) k = k a t

module _ {W A B : Type 0} (call : W → Ret A × W) (did : A → List Event) (k : Option A → M W B) where
  pub Yields-call :
      (s : St W) (Q : B → St W → Type 0)
      → ((a : A) (t : St W) → Yields (k (some a) t) Q)
      → ((e : Errno) (t : St W) → (call s.world).0 ≡ fail e → t.errno ≡ e → Yields (k none t) Q)
      → Yields ((perform call did >>= k) s) Q
  Yields-call s Q good bad = go (call s.world).0 refl
    where
      go :
          (r : Ret A)
          → (call s.world).0 ≡ r
          → Yields
              (k (settle did s (r, (call s.world).1)).0 (settle did s (r, (call s.world).1)).1)
              Q
      go (ok a) e = good a _
      go (fail x) e = bad x _ e refl

module _ {W A : Type 0} (b : Bool) (x y : M W A) (s : St W) (Q : A → St W → Type 0) where
  pub Yields-if :
      (b ≡ true → Yields (x s) Q) → (b ≡ false → Yields (y s) Q) → Yields ((if b then x else y) s) Q
  Yields-if yes_case no_case = elim (Bool-cases b) [
    | inl t ↦ rw t (yes_case t)
    | inr f ↦ rw f (no_case f)
  ]
