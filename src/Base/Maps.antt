-- ===== src/Base/Maps.antt =====
-- Go's maps with string keys, as association lists in which each key stands once, and the loops
-- over them.
use mathlib.Core.Path.{◌≡◌, refl, sym, ap, ap₂, ◌∙◌}
use mathlib.Core.Logic.{◌⊎◌, inl, inr, ◌≢◌, ◌↔◌}
use mathlib.Core.List.{List, [], ◌∷◌, ◌++◌, Permᴰ, append-nil, append_assoc}
use mathlib.Core.Option.{Option, none, some}
use Prim.Native.String.{String}
use native.Mathlib.Omega.{arith}
use text.Mathlib.TextEquality.{eq_iff}
use text.Mathlib.TextPositions.{eq_refl}
use prisma_go.Base.Tests.{str_eq, if◌then◌else◌, Bool-cases}
use prisma_go.Base.Lists.{In}
use prisma_go.Base.Loops.{for_each}

abbrev pub Dict : Type 0 → Type 0
Dict V = List (String × V)

-- The loop that appends to its result what it finds at each element.
abbrev pub gather : {A B : Type 0} → (A → List B) → List A → List B
gather f [] = []
gather f (x ∷ xs) = f x ++ gather f xs

pub In-append_left : {A : Type 0} (x : A) (xs ys : List A) → In x xs → In x (xs ++ ys)
In-append_left x [] ys m = absurd m
In-append_left x (y ∷ xs) ys (inl e) = inl e
In-append_left x (y ∷ xs) ys (inr m) = inr (In-append_left x xs ys m)

pub In-append_right : {A : Type 0} (x : A) (xs ys : List A) → In x ys → In x (xs ++ ys)
In-append_right x [] ys m = m
In-append_right x (y ∷ xs) ys m = inr (In-append_right x xs ys m)

pub In-append_cases : {A : Type 0} (x : A) (xs ys : List A) → In x (xs ++ ys) → In x xs ⊎ In x ys
In-append_cases x [] ys m = inr m
In-append_cases x (y ∷ xs) ys (inl e) = inl (inl e)
In-append_cases x (y ∷ xs) ys (inr m) = elim (In-append_cases x xs ys m) [
  | inl h ↦ inl (inr h)
  | inr h ↦ inr h
]

pub In-append_three :
    {A : Type 0} (x : A) (xs ys zs : List A)
    → In x (xs ++ (ys ++ zs)) ↔ (In x xs ⊎ In x ys ⊎ In x zs)
In-append_three x xs ys zs = (
  λ m. elim (In-append_cases x xs (ys ++ zs) m) [
    | inl m ↦ inl m
    | inr m ↦ inr (In-append_cases x ys zs m)
  ],
  λ m. elim m [
    | inl m ↦ In-append_left x xs (ys ++ zs) m
    | inr m ↦
        In-append_right x xs (ys ++ zs)
          (elim m [ inl m ↦ In-append_left x ys zs m | inr m ↦ In-append_right x ys zs m ])
  ],
)

-- What a loop gathers is what it finds at some element.
pub In-gather :
    {A B : Type 0} (f : A → List B) (b : B) (xs : List A)
    → In b (gather f xs) ↔ ((x : A) × In x xs × In b (f x))
In-gather {A} {B} f b xs = (there xs, λ m. back xs m.0 m.1 m.2)
  where
    there : (xs : List A) → In b (gather f xs) → (x : A) × In x xs × In b (f x)
    there [] m = absurd m
    there (x ∷ xs) m = elim (In-append_cases b (f x) (gather f xs) m) [
      | inl h ↦ (x, inl refl, h)
      | inr h ↦ let (y, i, k) = there xs h in (y, inr i, k)
    ]

    back : (xs : List A) (x : A) → In x xs → In b (f x) → In b (gather f xs)
    back [] x m k = absurd m
    back (y ∷ xs) x (inl e) k = In-append_left b (f y) (gather f xs) (rw (← e) k)
    back (y ∷ xs) x (inr m) k = In-append_right b (f y) (gather f xs) (back xs x m k)

-- A loop whose rounds append to a part of its state appends there what it finds at each element.
pub for_each-gather {ℓ} :
    {A C : Type 0} {S : Type ℓ} (f : A → S → S) (part : S → List C) (found : A → List C)
    → ((x : A) (s : S) → part (f x s) ≡ part s ++ found x)
    → (xs : List A) (s : S) → part (for_each f xs s) ≡ part s ++ gather found xs
for_each-gather f part found h [] s = sym (append-nil (part s))
for_each-gather f part found h (x ∷ xs) s =
    for_each-gather f part found h xs (f x s)
    ∙ ap (λ p. p ++ gather found xs) (h x s)
    ∙ append_assoc (part s) (found x) (gather found xs)

-- A permutation has the same elements.
pub In-Permᴰ : {A : Type 0} (x : A) {xs ys : List A} → Permᴰ xs ys → In x xs → In x ys
In-Permᴰ x Permᴰ.nil m = m
In-Permᴰ x (Permᴰ.cons e p) (inl h) = inl (h ∙ e)
In-Permᴰ x (Permᴰ.cons e p) (inr m) = inr (In-Permᴰ x p m)
In-Permᴰ x (Permᴰ.swap e f) (inl h) = inr (inl (h ∙ e))
In-Permᴰ x (Permᴰ.swap e f) (inr (inl h)) = inl (h ∙ f)
In-Permᴰ x (Permᴰ.swap e f) (inr (inr m)) = inr (inr m)
In-Permᴰ x (Permᴰ.trans p q) m = In-Permᴰ x q (In-Permᴰ x p m)

module _ {V : Type 0} where
  -- `m[k]`, with whether there is such a key.
  unfoldable pub entry : String → Dict V → Option V
  entry k [] = none
  entry k ((j, v) ∷ m) = if str_eq k j then some v else entry k m

  -- `m[k] = v`
  unfoldable pub put : String → V → Dict V → Dict V
  put k v [] = (k, v) ∷ []
  put k v ((j, w) ∷ m) = let rest = put k v m in if str_eq k j then (j, v) ∷ m else (j, w) ∷ rest

  pub entry-nil : (k : String) → entry k [] ≡ none
  unfolding entry
  entry-nil k = refl

  pub entry-put_self : (k : String) (v : V) (m : Dict V) → entry k (put k v m) ≡ some v
  unfolding entry put
  entry-put_self k v [] = ground (arith, eq_iff k k)
  entry-put_self k v ((j, w) ∷ m) = ground (arith, eq_iff k j, entry-put_self k v m)

  pub entry-put_ne : (j k : String) (v : V) (m : Dict V) → j ≢ k → entry j (put k v m) ≡ entry j m
  unfolding entry put
  entry-put_ne j k v [] h = ground (arith, eq_iff j k)
  entry-put_ne j k v ((i, w) ∷ m) h =
      ground (arith, eq_iff j k, eq_iff j i, eq_iff k i, entry-put_ne j k v m h)

  -- Each key stands once.
  unfoldable pub IsDict : Dict V → Type 0
  IsDict [] = Unit
  IsDict ((k, v) ∷ m) = (entry k m ≡ none) × IsDict m

  pub entry-In : (k : String) (v : V) (m : Dict V) → entry k m ≡ some v → In (k, v) m
  unfolding entry
  entry-In k v [] e = absurd (ground arith)
  entry-In k v ((j, w) ∷ m) e = elim (Bool-cases (str_eq k j)) [
    | inl q ↦ inl (ap₂ (λ (a : String) (b : V). (a, b)) ((eq_iff k j).0 q) (ground arith))
    | inr q ↦ inr (entry-In k v m (ground arith))
  ]

  pub In-entry : (k : String) (v : V) (m : Dict V) → IsDict m → In (k, v) m → entry k m ≡ some v
  unfolding entry IsDict
  In-entry k v [] d i = absurd i
  In-entry k v ((j, w) ∷ m) d (inl e) =
      rw (ap (λ p. p.0) e) (rw (eq_refl j) (ap some (sym (ap (λ p. p.1) e))))
  In-entry k v ((j, w) ∷ m) d (inr i) = ground (arith, In-entry k v m d.1 i, eq_iff k j, d.0)

  pub put-IsDict : (k : String) (v : V) (m : Dict V) → IsDict m → IsDict (put k v m)
  unfolding put IsDict
  put-IsDict k v [] d = (entry-nil k, tt)
  put-IsDict k v ((j, w) ∷ m) d = elim (Bool-cases (str_eq k j)) [
    | inl q ↦ rw q d
    | inr q ↦
        rw q (
          entry-put_ne j k v m (λ e. ground (arith, eq_iff k j, sym e)) ∙ d.0,
          put-IsDict k v m d.1,
        )
  ]

pub nil-IsDict : (V : Type 0) → IsDict {V = V} []
unfolding IsDict
nil-IsDict V = tt
