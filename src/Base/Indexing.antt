-- ===== src/Base/Indexing.antt =====
-- Elements of lists by their index: bounds, and lists with more elements at the end.
use Prim.Native.Nat.{ℕ, zero, suc, ◌<◌}
use mathlib.Core.Path.{◌≡◌, refl}
use mathlib.Core.Logic.{◌⊎◌, inl, inr}
use mathlib.Core.List.{List, [], ◌∷◌, ◌++◌}
use mathlib.Core.Option.{some}
use native.Mathlib.Omega.{arith}
use prisma_go.Base.Lists.{length, get_elem?, get_or}

pub get_elem?-lt :
    {A : Type 0} (xs : List A) (i : ℕ) (x : A) → get_elem? xs i ≡ some x → i < length xs
get_elem?-lt [] i x e = absurd (ground arith)
get_elem?-lt (y ∷ xs) zero x e = omega arith
get_elem?-lt (y ∷ xs) (suc i) x e = omega (arith, get_elem?-lt xs i x e)

pub get_elem?-get_or :
    {A : Type 0} (xs : List A) (i : ℕ) (x d : A) → get_elem? xs i ≡ some x → get_or xs i d ≡ x
get_elem?-get_or [] i x d e = absurd (ground arith)
get_elem?-get_or (y ∷ xs) zero x d e = ground arith
get_elem?-get_or (y ∷ xs) (suc i) x d e = get_elem?-get_or xs i x d e

pub get_elem?-append :
    {A : Type 0} (xs ys : List A) (i : ℕ) (x : A)
    → get_elem? xs i ≡ some x
    → get_elem? (xs ++ ys) i ≡ some x
get_elem?-append [] ys i x e = absurd (ground arith)
get_elem?-append (y ∷ xs) ys zero x e = e
get_elem?-append (y ∷ xs) ys (suc i) x e = get_elem?-append xs ys i x e

-- The last element, and the ones before it.
pub get_elem?-concat :
    {A : Type 0} (xs : List A) (y x : A) (i : ℕ)
    → get_elem? (xs ++ (y ∷ [])) i ≡ some x
    → (get_elem? xs i ≡ some x) ⊎ ((i ≡ length xs) × (x ≡ y))
get_elem?-concat [] y x zero e = inr (refl, ground arith)
get_elem?-concat [] y x (suc i) e = absurd (ground arith)
get_elem?-concat (z ∷ xs) y x zero e = inl e
get_elem?-concat (z ∷ xs) y x (suc i) e = elim (get_elem?-concat xs y x i e) [
  | inl h ↦ inl h
  | inr h ↦ inr (omega (arith, h.0), h.1)
]

pub get_elem?-last :
    {A : Type 0} (xs : List A) (y : A) → get_elem? (xs ++ (y ∷ [])) (length xs) ≡ some y
get_elem?-last [] y = refl
get_elem?-last (x ∷ xs) y = get_elem?-last xs y

pub get_or-append :
    {A : Type 0} (xs ys : List A) (i : ℕ) (d : A)
    → i < length xs
    → get_or (xs ++ ys) i d ≡ get_or xs i d
get_or-append [] ys i d h = elim h [ ]
get_or-append (x ∷ xs) ys zero d h = refl
get_or-append (x ∷ xs) ys (suc i) d h = get_or-append xs ys i d (omega arith)

pub get_or-last : {A : Type 0} (xs : List A) (y d : A) → get_or (xs ++ (y ∷ [])) (length xs) d ≡ y
get_or-last [] y d = refl
get_or-last (x ∷ xs) y d = get_or-last xs y d
