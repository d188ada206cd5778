-- ===== src/Migrate/Ordering/Position.antt =====
-- Where a number stands first in a list, and lists in which every edge points forwards.
use prisma_go.Base.{
  ℕ, zero, suc, ◌+◌, ◌≤◌, ◌<◌, ◌==◌, ltb, ◌≡◌, refl, sym, ◌∙◌, ◌↔◌, true, false, List, [], ◌∷◌,
  ◌++◌, length, count, count-cons, sum_below, sum_below_update, arith, if◌then◌else◌,
}
use prisma_go.Migrate.Ordering.{contains_int}
use prisma_go.Migrate.Ordering.Graph.{contains_int-append}

-- The index of the first `v`, and the length where there is none.
unfoldable pub position : ℕ → List ℕ → ℕ
position v [] = 0
position v (x ∷ xs) = if x == v then 0 else suc (position v xs)

pub position-append :
    (v : ℕ) (xs ys : List ℕ)
    → position v (xs ++ ys)
      ≡ (if contains_int xs v then position v xs else length xs + position v ys)
unfolding position contains_int
position-append v [] ys = omega arith
position-append v (x ∷ xs) ys = ground (arith, position-append v xs ys)

pub position-lt-length :
    (v : ℕ) (xs : List ℕ) → (contains_int xs v ≡ true) ↔ (position v xs < length xs)
unfolding position contains_int
position-lt-length v [] = (λ h. cc, λ h. elim h [ ])
position-lt-length v (x ∷ xs) = ground (arith, position-lt-length v xs)

-- Every edge into an element of the list comes from an element before it.
abbrev pub IsForward : (ℕ → List ℕ) → List ℕ → Type 0
IsForward next out =
    (u v : ℕ)
    → contains_int (next u) v ≡ true
    → contains_int out v ≡ true
    → position u out < position v out

-- An element whose predecessors are all there may be added at the end.
pub IsForward-concat :
    (next : ℕ → List ℕ) (out : List ℕ) (c : ℕ)
    → IsForward next out
    → contains_int out c ≡ false
    → ((u : ℕ) → contains_int (next u) c ≡ true → contains_int out u ≡ true)
    → IsForward next (out ++ (c ∷ []))
unfolding contains_int position
IsForward-concat next out c h fresh before u v edge there = ground (
  arith,
  h u v edge,
  before u,
  contains_int-append out (c ∷ []) v,
  position-append u out (c ∷ []),
  position-append v out (c ∷ []),
  position-lt-length u out,
  position-lt-length v out,
)

-- A list of distinct numbers below `n` has at most `n` elements.
sum_below-le : (n : ℕ) (f : ℕ → ℕ) → ((u : ℕ) → f u ≤ 1) → sum_below n f ≤ n
unfolding sum_below
sum_below-le zero f h = omega arith
sum_below-le (suc n) f h = omega (arith, h n, sum_below-le n f h)

sum_below_zeros : (n : ℕ) → sum_below n (λ v. count v []) ≡ 0
unfolding sum_below count
sum_below_zeros zero = refl
sum_below_zeros (suc n) = omega (arith, sum_below_zeros n)

length-eq-sum :
    (n : ℕ) (xs : List ℕ)
    → ((v : ℕ) → n ≤ v → count v xs ≡ 0)
    → length xs ≡ sum_below n (λ v. count v xs)
length-eq-sum n [] h = sym (sum_below_zeros n)
length-eq-sum n (x ∷ xs) h =
    let below : x < n = ground (arith, h x, count-cons x x xs) in
    omega (
      arith,
      length-eq-sum n xs (λ v l. ground (arith, h v l, count-cons v x xs)),
      sum_below_update n x 1 (λ v. count v xs) (λ v. count v (x ∷ xs)) below
          (ground (arith, count-cons x x xs)) (λ u ne. ground (arith, count-cons u x xs)),
    )

pub length-le_of_count :
    (n : ℕ) (xs : List ℕ) → ((v : ℕ) → count v xs ≤ (if ltb v n then 1 else 0)) → length xs ≤ n
length-le_of_count n xs h = omega (
  arith,
  length-eq-sum n xs (λ v l. ground (arith, h v)),
  sum_below-le n (λ v. count v xs) (λ v. ground (arith, h v)),
)

sum_below-ones : (n : ℕ) (f : ℕ → ℕ) → ((v : ℕ) → v < n → f v ≡ 1) → sum_below n f ≡ n
unfolding sum_below
sum_below-ones zero f h = refl
sum_below-ones (suc n) f h =
    omega (arith, h n (omega arith), sum_below-ones n f (λ v l. h v (omega arith)))

-- A list with each number below `n` once has `n` elements.
pub length_of_counts :
    (xs : List ℕ) (n : ℕ) → ((v : ℕ) → count v xs ≡ (if ltb v n then 1 else 0)) → length xs ≡ n
length_of_counts xs n h =
    length-eq-sum n xs (λ v l. ground (arith, h v))
    ∙ sum_below-ones n (λ v. count v xs) (λ v l. ground (arith, h v))
