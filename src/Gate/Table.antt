-- ===== src/Gate/Table.antt =====
-- native/posix.c: how the table of slots counts.
use jev_fabric.Base.{
  ℕ, zero, suc, ◌+◌, ◌≤◌, ◌<◌, ◌≡◌, refl, List, [], ◌∷◌, some, arith, length, get_or, set, ◌⊎◌, inl,
  inr, ◌≢◌, ap,
}
use jev_fabric.Gate.Defs.{Slot, free, reserved, live, find_free}

abbrev pub weight : Slot → ℕ
weight free = 0
weight _ = 1

-- How many slots are taken.
abbrev pub busy : List Slot → ℕ
busy [] = 0
busy (p ∷ ps) = weight p + busy ps

pub busy-set :
    (ps : List Slot) (i : ℕ) (p : Slot)
    → i < length ps
    → busy (set ps i p) + weight (get_or ps i free) ≡ busy ps + weight p
busy-set [] i p h = absurd (omega arith)
busy-set (q ∷ ps) zero p h = omega arith
busy-set (q ∷ ps) (suc i) p h = omega (arith, busy-set ps i p (omega arith))

pub get_or-set :
    (ps : List Slot) (i j : ℕ) (p : Slot)
    → i < length ps
    → ((i ≡ j) × (get_or (set ps i p) j free ≡ p))
      ⊎ ((i ≢ j) × (get_or (set ps i p) j free ≡ get_or ps j free))
get_or-set [] i j p h = absurd (omega arith)
get_or-set (q ∷ ps) zero zero p h = inl (refl, refl)
get_or-set (q ∷ ps) zero (suc j) p h = inr (omega arith, refl)
get_or-set (q ∷ ps) (suc i) zero p h = inr (omega arith, refl)
get_or-set (q ∷ ps) (suc i) (suc j) p h = elim (get_or-set ps i j p (omega arith)) [
  | inl (e, g) ↦ inl (ap suc e, g)
  | inr (n, g) ↦ inr (omega arith, g)
]

-- While not all slots are taken, the search finds one that is free.
pub find_free_lem :
    (ps : List Slot)
    → busy ps < length ps
    → (i : ℕ) × (find_free ps ≡ some i) × (i < length ps) × (get_or ps i free ≡ free)
unfolding find_free
find_free_lem [] h = absurd (omega arith)
find_free_lem (free ∷ ps) h = (0, refl, omega arith, refl)
find_free_lem (reserved ∷ ps) h =
    let (i, e, l, g) = find_free_lem ps (omega arith) in (suc i, rw e, omega arith, g)
find_free_lem (live pid ∷ ps) h =
    let (i, e, l, g) = find_free_lem ps (omega arith) in (suc i, rw e, omega arith, g)

pub busy-le : (ps : List Slot) → busy ps ≤ length ps
busy-le [] = omega arith
busy-le (free ∷ ps) = omega (arith, busy-le ps)
busy-le (reserved ∷ ps) = omega (arith, busy-le ps)
busy-le (live pid ∷ ps) = omega (arith, busy-le ps)

pub busy_pos : (ps : List Slot) (i : ℕ) → get_or ps i free ≢ free → 0 < busy ps
busy_pos [] i h = absurd (h refl)
busy_pos (free ∷ ps) zero h = absurd (h refl)
busy_pos (reserved ∷ ps) zero h = omega arith
busy_pos (live pid ∷ ps) zero h = omega arith
busy_pos (p ∷ ps) (suc i) h = omega (arith, busy_pos ps i h)

pub weight_taken : (p : Slot) → p ≢ free → weight p ≡ 1
weight_taken free h = absurd (h refl)
weight_taken reserved h = refl
weight_taken (live pid) h = refl
