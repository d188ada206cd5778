-- ===== src/Base/Lists.antt =====
-- Lists measured and indexed by native numbers, and Go's `range` with the index.
use Prim.Native.Nat.{ℕ, zero, suc, ◌+◌, ◌-◌, ◌≤◌, ◌<◌}
use mathlib.Core.Path.{◌≡◌, ap, sym}
use mathlib.Core.Logic.{◌⊎◌, inl, inr}
use mathlib.Core.List.{List, [], ◌∷◌, ◌++◌}
use mathlib.Core.Option.{Option, none, some}
use native.Mathlib.Omega.{arith}

module _ {ℓ} {A : Type ℓ} where
  abbrev pub length : List A → ℕ
  length [] = 0
  length (x ∷ xs) = suc (length xs)

  abbrev pub get_elem? : List A → ℕ → Option A
  get_elem? [] i = none
  get_elem? (x ∷ xs) zero = some x
  get_elem? (x ∷ xs) (suc i) = get_elem? xs i

  abbrev pub get_or : List A → ℕ → A → A
  get_or [] i d = d
  get_or (x ∷ xs) zero d = x
  get_or (x ∷ xs) (suc i) d = get_or xs i d

  -- `for i, x := range xs`, counting from `k`.
  abbrev pub enumerate_from : ℕ → List A → List (ℕ × A)
  enumerate_from k [] = []
  enumerate_from k (x ∷ xs) = (k, x) ∷ enumerate_from (suc k) xs

  pub length-append : (xs ys : List A) → length (xs ++ ys) ≡ length xs + length ys
  length-append [] ys = omega arith
  length-append (x ∷ xs) ys = omega (arith, length-append xs ys)

-- The membership that the tactics split on.
abbrev pub In : {A : Type 0} → A → List A → Type 0
In a [] = ⊥
In a (x ∷ xs) = (a ≡ x) ⊎ In a xs

-- A pair of an enumeration is an index with the element there.
pub enumerate_from-get_or :
    {A : Type 0} (d : A) (k i : ℕ) (x : A) (xs : List A)
    → In (i, x) (enumerate_from k xs)
    → (k ≤ i) × (i < k + length xs) × (get_or xs (i - k) d ≡ x)
enumerate_from-get_or d k i x [] m = absurd m
enumerate_from-get_or d k i x (y ∷ ys) (inl e) =
    let a : i ≡ k = ap (λ p. p.0) e in
    let z : i - k ≡ 0 = omega arith in (omega arith, omega arith, rw z (sym (ap (λ p. p.1) e)))
enumerate_from-get_or d k i x (y ∷ ys) (inr m) =
    let (lo, hi, e) = enumerate_from-get_or d (suc k) i x ys m in
    let s : i - k ≡ suc (i - suc k) = omega arith in (omega arith, omega arith, rw s e)

-- Every index below the length is enumerated.
pub In-enumerate_from :
    {A : Type 0} (d : A) (k i j : ℕ) (xs : List A)
    → j ≡ k + i
    → i < length xs
    → In (j, get_or xs i d) (enumerate_from k xs)
In-enumerate_from d k i j [] e h = elim h [ ]
In-enumerate_from d k zero j (x ∷ xs) e h = inl (ap (λ (n : ℕ). (n, x)) (omega arith))
In-enumerate_from d k (suc i) j (x ∷ xs) e h =
    inr (In-enumerate_from d (suc k) i j xs (omega arith) (omega arith))
