-- ===== src/Base/Perms.antt =====
-- Lists of numbers that count alike are permutations of each other, and the indices of a list.
use mathlib.Core.List
use mathlib.Core.List.{List, [], ◌∷◌, ◌++◌, map, Perm, perm_iff_count}
use mathlib.Core.Nat as M
use mathlib.Core.Logic.{if_pos, if_neg}
use native.Mathlib.Bridge.{to_ℕ, from_ℕ, to_ℕ-from_ℕ}
use native.Mathlib.Decide.{ℕ_discrete}
use Prim.Native.Nat.{ℕ, zero, suc, ◌+◌}
use mathlib.Core.Path.{◌≡◌, refl, ap, ap₂, sym, ◌∙◌}
use native.Mathlib.Omega.{arith}
use prisma_go.Base.Tests.{ltb, leb, if◌then◌else◌}
use mathlib.Core.Bool.{◌&&◌}
use prisma_go.Base.Lists.{length, get_or}
use prisma_go.Base.Counts.{count, count-nil, count-cons}

from_ℕ-count : (a : ℕ) (xs : List ℕ) → from_ℕ (List.count ℕ_discrete a xs) ≡ count a xs
from_ℕ-count a [] = sym (count-nil a)
from_ℕ-count a (x ∷ xs) = elim (ℕ_discrete x a) [
  | yes p ↦
      ap from_ℕ (if_pos (ℕ_discrete x a) p _ _)
      ∙ ground (arith, from_ℕ-count a xs, count-cons a x xs)
  | no p ↦
      ap from_ℕ (if_neg (ℕ_discrete x a) p _ _)
      ∙ ground (arith, from_ℕ-count a xs, count-cons a x xs)
]

from_ℕ-injective : (m n : M.ℕ) → from_ℕ m ≡ from_ℕ n → m ≡ n
from_ℕ-injective m n e = sym (to_ℕ-from_ℕ m) ∙ ap to_ℕ e ∙ to_ℕ-from_ℕ n

pub perm_of_count : (xs ys : List ℕ) → ((a : ℕ) → count a xs ≡ count a ys) → Perm xs ys
perm_of_count xs ys h =
    (perm_iff_count ℕ_discrete).1
      λ a. from_ℕ-injective _ _ (from_ℕ-count a xs ∙ h a ∙ sym (from_ℕ-count a ys))

-- k, k + 1, …, k + n - 1
unfoldable pub indices : ℕ → ℕ → List ℕ
indices k zero = []
indices k (suc n) = k ∷ indices (suc k) n

pub count-indices :
    (v k n : ℕ) → count v (indices k n) ≡ (if leb k v && ltb v (k + n) then 1 else 0)
unfolding indices
count-indices v k zero = ground (arith, count-nil v)
count-indices v k (suc n) =
    ground (arith, count-indices v (suc k) n, count-cons v k (indices (suc k) n))

-- A list is its elements at its indices.
pub map-indices :
    {A : Type 0} (d : A) (f : ℕ → A) (k : ℕ) (xs : List A)
    → ((i : ℕ) → f (k + i) ≡ get_or xs i d)
    → map f (indices k (length xs)) ≡ xs
unfolding indices
map-indices d f k [] h = refl
map-indices d f k (x ∷ xs) h =
    ap₂ (◌∷◌) (ap f (omega arith) ∙ h 0)
      (map-indices d f (suc k) xs λ i. ap f (omega arith) ∙ h (suc i))
