-- ===== src/Base/Loops.antt =====
-- `for _, x := range xs { s = f(x, s) }`, and its two rules.
use mathlib.Core.Path.{refl}
use mathlib.Core.Logic.{inl, inr}
use mathlib.Core.List.{List, [], ◌∷◌}
use prisma_go.Base.Lists.{In}

module _ {ℓ} {A : Type 0} {S : Type ℓ} where
  abbrev pub for_each : (A → S → S) → List A → S → S
  for_each f [] s = s
  for_each f (x ∷ xs) s = for_each f xs (f x s)

  -- What every round keeps, the loop keeps.
  pub for_each_inv {κ} :
      (P : S → Type κ) (f : A → S → S) (xs : List A)
      → ((x : A) (s : S) → In x xs → P s → P (f x s))
      → (s : S) → P s
      → P (for_each f xs s)
  for_each_inv P f [] keep s h = h
  for_each_inv P f (x ∷ xs) keep s h =
      for_each_inv P f xs (λ y t m. keep y t (inr m)) (f x s) (keep x s (inl refl) h)

  -- What one round brings about and no round undoes holds at the end.
  pub for_each_reaches {κ} :
      (P : S → Type κ) (f : A → S → S) (xs : List A) (a : A)
      → In a xs
      → ((s : S) → P (f a s))
      → ((x : A) (s : S) → P s → P (f x s))
      → (s : S) → P (for_each f xs s)
  for_each_reaches P f [] a m there keep s = absurd m
  for_each_reaches P f (x ∷ xs) a (inl e) there keep s =
      for_each_inv P f xs (λ y t _. keep y t) (f x s) (rw (← e) (there s))
  for_each_reaches P f (x ∷ xs) a (inr m) there keep s =
      for_each_reaches P f xs a m there keep (f x s)
