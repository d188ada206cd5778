-- ===== src/Base/Counts.antt =====
-- How often a number stands in a list, sums over an initial segment, and sorted numbers.
use Prim.Native.Nat.{ℕ, zero, suc, ◌+◌, ◌<◌}
use mathlib.Core.Path.{◌≡◌, refl}
use mathlib.Core.Logic.{inl, inr}
use mathlib.Core.List.{List, [], ◌∷◌, ◌++◌}
use native.Mathlib.Decide.{dec_lt, ℕ_discrete}
use native.Mathlib.Omega.{arith}
use prisma_go.Base.Lists.{In}
use prisma_go.Base.Tests.{leb, ◌==◌, if◌then◌else◌}

unfoldable pub count : ℕ → List ℕ → ℕ
count a [] = 0
count a (x ∷ xs) = (if x == a then 1 else 0) + count a xs

pub count-nil : (a : ℕ) → count a [] ≡ 0
unfolding count
count-nil a = refl

pub count-cons : (a x : ℕ) (xs : List ℕ) → count a (x ∷ xs) ≡ (if x == a then 1 else 0) + count a xs
unfolding count
count-cons a x xs = refl

pub count-append : (a : ℕ) (xs ys : List ℕ) → count a (xs ++ ys) ≡ count a xs + count a ys
unfolding count
count-append a [] ys = omega arith
count-append a (x ∷ xs) ys = omega (arith, count-append a xs ys)

pub In-count : (a : ℕ) (xs : List ℕ) → In a xs → 0 < count a xs
unfolding count
In-count a [] m = absurd m
In-count a (x ∷ xs) (inl e) = ground arith
In-count a (x ∷ xs) (inr m) = omega (arith, In-count a xs m)

pub count-In : (a : ℕ) (xs : List ℕ) → 0 < count a xs → In a xs
unfolding count
count-In a [] h = elim h [ ]
count-In a (x ∷ xs) h = ground (arith, count-In a xs)

-- `sort.Ints`, by insertion.
unfoldable pub insert_sorted : ℕ → List ℕ → List ℕ
insert_sorted a [] = a ∷ []
insert_sorted a (x ∷ xs) = if leb a x then a ∷ x ∷ xs else x ∷ insert_sorted a xs

unfoldable pub sort_ints : List ℕ → List ℕ
unfolding insert_sorted
sort_ints [] = []
sort_ints (x ∷ xs) = insert_sorted x (sort_ints xs)

count-insert_sorted :
    (a b : ℕ) (xs : List ℕ) → count a (insert_sorted b xs) ≡ (if b == a then 1 else 0) + count a xs
unfolding count insert_sorted
count-insert_sorted a b [] = omega arith
count-insert_sorted a b (x ∷ xs) = ground (arith, count-insert_sorted a b xs)

-- Sorting keeps what is in the list, as often.
pub count-sort_ints : (a : ℕ) (xs : List ℕ) → count a (sort_ints xs) ≡ count a xs
unfolding count sort_ints
count-sort_ints a [] = refl
count-sort_ints a (x ∷ xs) =
    omega (arith, count-insert_sorted a x (sort_ints xs), count-sort_ints a xs)

-- The sum of `f u` over all `u` below `n`.
unfoldable pub sum_below : ℕ → (ℕ → ℕ) → ℕ
sum_below zero f = 0
sum_below (suc n) f = f n + sum_below n f

pub sum_below_congr :
    (n : ℕ) (f g : ℕ → ℕ) → ((u : ℕ) → u < n → f u ≡ g u) → sum_below n f ≡ sum_below n g
unfolding sum_below
sum_below_congr zero f g h = refl
sum_below_congr (suc n) f g h =
    omega (arith, h n (omega arith), sum_below_congr n f g (λ u l. h u (omega arith)))

-- Raising one term raises the sum.
pub sum_below_update :
    (n c d : ℕ) (f g : ℕ → ℕ)
    → c < n
    → g c ≡ f c + d
    → ((u : ℕ) → (u ≡ c → ⊥) → g u ≡ f u)
    → sum_below n g ≡ sum_below n f + d
unfolding sum_below
sum_below_update zero c d f g l e other = absurd (omega arith)
sum_below_update (suc n) c d f g l e other = elim (ℕ_discrete n c) [
  | yes p ↦
      let top : g n ≡ f n + d = rw p e in
      omega (arith, top, sum_below_congr n g f (λ u h. other u (λ q. omega arith)))
  | no p ↦ omega (arith, other n p, sum_below_update n c d f g (omega arith) e other)
]

pub sum_below-zero : (n : ℕ) (f : ℕ → ℕ) (u : ℕ) → sum_below n f ≡ 0 → u < n → f u ≡ 0
unfolding sum_below
sum_below-zero zero f u e l = absurd (omega arith)
sum_below-zero (suc n) f u e l = elim (ℕ_discrete u n) [
  | yes p ↦ rw p (omega arith)
  | no p ↦ sum_below-zero n f u (omega arith) (omega arith)
]

-- A sum that is not zero has a term that is not zero.
pub sum_below-pos : (n : ℕ) (f : ℕ → ℕ) → 0 < sum_below n f → (u : ℕ) × (u < n) × (0 < f u)
unfolding sum_below
sum_below-pos zero f h = absurd (omega arith)
sum_below-pos (suc n) f h = elim (dec_lt 0 (f n)) [
  | yes p ↦ (n, omega arith, p)
  | no p ↦ let (u, l, q) = sum_below-pos n f (omega arith) in (u, omega arith, q)
]
