-- ===== src/Os/Rules.antt =====
-- Rules for what a C function returns: sequencing, weakening, and reading a result off.
use mathlib.Core.Option.{some-injective}
use jev_fabric.Base.{
  ◌≡◌, refl, subst, inl, inr, Bool, true, false, Bool-cases, if◌then◌else◌, List, ◌++◌, Option,
  none, some,
}
use jev_fabric.Os.Defs.{St, M, ◌>>=◌, Returns, Ret, ok, fail, Errno, Event, perform, settle}

module _ {W A : Type 0} where
  pub Returns-bind :
      {B : Type 0} (m : M W A) (f : A → M W B) (s : St W) (P : A → St W → Type 0)
      (Q : B → St W → Type 0)
      → Returns (m s) P
      → ((a : A) (s' : St W) → P a s' → Returns (f a s') Q)
      → Returns ((m >>= f) s) Q
  Returns-bind m f s P Q = go (m s)
    where
      go :
          (r : Option (A × St W))
          → Returns r P
          → ((a : A) (s' : St W) → P a s' → Returns (f a s') Q)
          → Returns (elim r [ none ↦ none | some (a, s') ↦ f a s' ]) Q
      go none h k = absurd h
      go (some (a, s')) h k = k a s' h

  pub Returns-weaken :
      (r : Option (A × St W)) (P Q : A → St W → Type 0)
      → Returns r P
      → ((a : A) (s' : St W) → P a s' → Q a s')
      → Returns r Q
  Returns-weaken none P Q h k = h
  Returns-weaken (some (a, s')) P Q h k = k a s' h

  -- What a run that did return satisfies.
  pub Returns-eq :
      {a : A} {s' : St W} (r : Option (A × St W)) (P : A → St W → Type 0)
      → Returns r P
      → r ≡ some (a, s')
      → P a s'
  Returns-eq none P h e = absurd h
  Returns-eq {a} {s'} (some x) P h e =
      subst (λ (y : A × St W). P y.0 y.1) (some-injective x (a, s') e) h

-- A system call and what follows it: one case for a value, one for -1.
module _ {W A B : Type 0} (call : W → Ret A × W) (did : A → List Event) (k : Option A → M W B) where
  pub Returns-call :
      (s : St W) (Q : B → St W → Type 0)
      → ((a : A)
          → (call s.world).0 ≡ ok a
          → Returns (k (some a) (record s { world = (call s.world).1; log = did a ++ s.log })) Q)
      → ((e : Errno)
          → (call s.world).0 ≡ fail e
          → Returns (k none (record s { world = (call s.world).1; errno = e })) Q)
      → Returns ((perform call did >>= k) s) Q
  Returns-call s Q good bad = go (call s.world).0 refl
    where
      go :
          (r : Ret A)
          → (call s.world).0 ≡ r
          → Returns
              (k (settle did s (r, (call s.world).1)).0 (settle did s (r, (call s.world).1)).1)
              Q
      go (ok a) e = good a e
      go (fail x) e = bad x e

-- A test.
module _ {W A : Type 0} (b : Bool) (x y : M W A) (s : St W) (Q : A → St W → Type 0) where
  pub Returns-if :
      (b ≡ true → Returns (x s) Q)
      → (b ≡ false → Returns (y s) Q)
      → Returns ((if b then x else y) s) Q
  Returns-if yes_case no_case = elim (Bool-cases b) [
    | inl t ↦ rw t (yes_case t)
    | inr f ↦ rw f (no_case f)
  ]
