-- ===== src/Base/Filling.antt =====
-- Loops that store into a map, and two maps joined by their keys.
use mathlib.Core.Path.{◌≡◌, refl, sym, ap, ◌∙◌}
use mathlib.Core.Logic.{◌⊎◌, inl, inr, ◌↔◌}
use mathlib.Core.List.{List, [], ◌∷◌, Permᴰ}
use mathlib.Core.Option
use mathlib.Core.List.Permᴰ
use mathlib.Core.Option.{Option, none, some}
use Prim.Native.String.{String}
use native.Mathlib.Omega.{arith}
use text.Mathlib.TextEquality.{eq_iff}
use text.Mathlib.TextPositions.{eq_refl}
use prisma_go.Base.Tests.{str_eq, if◌then◌else◌, Bool-cases, Option-cases}
use prisma_go.Base.Lists.{In}
use prisma_go.Base.Loops.{for_each}
use prisma_go.Base.Maps.{
  Dict, entry, put, entry-put_self, entry-put_ne, IsDict, put-IsDict, entry-In, In-entry, In-Permᴰ,
}

abbrev pub or_else : {V : Type 0} → Option V → Option V → Option V
or_else (some v) w = some v
or_else none w = w

or_else_assoc : {V : Type 0} (a b c : Option V) → or_else a (or_else b c) ≡ or_else (or_else a b) c
or_else_assoc none b c = refl
or_else_assoc (some v) b c = refl

-- The value of an assignment under a key, if it is stored there.
abbrev pub value_under : {V : Type 0} → String → Option (String × V) → Option V
value_under k none = none
value_under k (some e) = if str_eq k e.0 then some e.1 else none

-- `m[k] = v` for an assignment, if there is one.
abbrev pub store : {V : Type 0} → Option (String × V) → Dict V → Dict V
store none m = m
store (some e) m = put e.0 e.1 m

entry-store :
    {V : Type 0} (k : String) (o : Option (String × V)) (m : Dict V)
    → entry k (store o m) ≡ or_else (value_under k o) (entry k m)
entry-store k none m = refl
entry-store k (some (j, v)) m = elim (Bool-cases (str_eq k j)) [
  | inl q ↦ rw (q, (eq_iff k j).0 q) (entry-put_self j v m)
  | inr q ↦ rw q (entry-put_ne k j v m (λ h. ground (arith, eq_iff k j, h)))
]

store-IsDict : {V : Type 0} (o : Option (String × V)) (m : Dict V) → IsDict m → IsDict (store o m)
store-IsDict none m d = d
store-IsDict (some (j, v)) m d = put-IsDict j v m d

module _ {A V : Type 0} (f : A → Option (String × V)) where
  -- `for _, x := range xs { if … { m[k] = v } }`, with the key and the value for an element.
  abbrev pub fill : List A → Dict V → Dict V
  fill xs m = for_each (λ x m. store (f x) m) xs m

  -- The value that is stored last under a key.
  abbrev pub last_under : String → List A → Option V
  last_under k [] = none
  last_under k (x ∷ xs) = or_else (last_under k xs) (value_under k (f x))

  pub entry-fill :
      (k : String) (xs : List A) (m : Dict V)
      → entry k (fill xs m) ≡ or_else (last_under k xs) (entry k m)
  entry-fill k [] m = refl
  entry-fill k (x ∷ xs) m =
      entry-fill k xs (store (f x) m)
      ∙ ap (or_else (last_under k xs)) (entry-store k (f x) m)
      ∙ or_else_assoc (last_under k xs) (value_under k (f x)) (entry k m)

  pub fill-IsDict : (xs : List A) (m : Dict V) → IsDict m → IsDict (fill xs m)
  fill-IsDict [] m d = d
  fill-IsDict (x ∷ xs) m d = fill-IsDict xs (store (f x) m) (store-IsDict (f x) m d)

  -- What is stored last under a key is stored there by an element.
  pub last_under-element :
      (k : String) (v : V) (xs : List A)
      → last_under k xs ≡ some v
      → (x : A) × In x xs × (value_under k (f x) ≡ some v)
  last_under-element k v [] e = absurd (ground arith)
  last_under-element k v (x ∷ xs) e = elim (Option-cases (last_under k xs)) [
    | inl n ↦ (x, inl refl, ap (λ o. or_else o (value_under k (f x))) (sym n) ∙ e)
    | inr (w, h) ↦
        let (y, i, q) =
          last_under-element k v xs (h ∙ ap (λ o. or_else o (value_under k (f x))) (sym h) ∙ e) in
        (y, inr i, q)
  ]

  -- Where all elements with a key have one value there, it is found.
  pub last_under_unique :
      (k : String) (v : V) (xs : List A)
      → ((x : A) → In x xs → (value_under k (f x) ≡ none) ⊎ (value_under k (f x) ≡ some v))
      → (last_under k xs ≡ none) ⊎ (last_under k xs ≡ some v)
  last_under_unique k v [] h = inl refl
  last_under_unique k v (x ∷ xs) h = elim (last_under_unique k v xs (λ y m. h y (inr m))) [
    | inr e ↦ inr (rw e refl)
    | inl e ↦ rw e (h x (inl refl))
  ]

  pub last_under_there :
      (k : String) (v : V) (xs : List A) (a : A)
      → ((x : A) → In x xs → (value_under k (f x) ≡ none) ⊎ (value_under k (f x) ≡ some v))
      → In a xs
      → value_under k (f a) ≡ some v
      → last_under k xs ≡ some v
  last_under_there k v [] a h m e = absurd m
  last_under_there k v (x ∷ xs) a h (inl i) e =
      elim (last_under_unique k v xs (λ y m. h y (inr m))) [
        | inl n ↦ rw (n, ← i) e
        | inr n ↦ rw n refl
      ]
  last_under_there k v (x ∷ xs) a h (inr m) e =
      rw (last_under_there k v xs a (λ y i. h y (inr i)) m e) refl

  pub last_under_nowhere :
      (k : String) (xs : List A)
      → ((x : A) → In x xs → value_under k (f x) ≡ none)
      → last_under k xs ≡ none
  last_under_nowhere k [] h = refl
  last_under_nowhere k (x ∷ xs) h =
      rw (last_under_nowhere k xs (λ y m. h y (inr m))) (h x (inl refl))

-- The loops over a map that store for each of its keys at most one value under this key.
abbrev pub under_key : {V W : Type 0} → (String → V → Option W) → String × V → Option (String × W)
under_key f e = Option.map (λ w. (e.0, w)) (f e.0 e.1)

abbrev pub at_entry : {V W : Type 0} → (V → Option W) → Option V → Option W
at_entry f none = none
at_entry f (some v) = f v

module _ {V W : Type 0} (f : String → V → Option W) where
  value-under_key :
      (k : String) (e : String × V)
      → value_under k (under_key f e) ≡ (if str_eq k e.0 then f e.0 e.1 else none)
  value-under_key k (j, v) = elim (Option-cases (f j v)) [
    | inl h ↦ rw h (ground arith)
    | inr (w, h) ↦ rw h refl
  ]

  -- What an element stores under a key is what the map's entry there gives.
  value_of_visited :
      (k : String) (m visited : Dict V)
      → IsDict m
      → Permᴰ visited m
      → (x : String × V) → In x visited
      → (value_under k (under_key f x) ≡ none)
        ⊎ (value_under k (under_key f x) ≡ at_entry (f k) (entry k m))
  value_of_visited k m visited d p (j, v) i = elim (Bool-cases (str_eq k j)) [
    | inr q ↦ inl (rw (value-under_key k (j, v)) (rw q refl))
    | inl q ↦
        let e : k ≡ j = (eq_iff k j).0 q in
        let there : entry k m ≡ some v = rw e (In-entry j v m d (In-Permᴰ (j, v) p i)) in
        inr (rw (value-under_key k (j, v)) (rw (q, there, e) refl))
  ]

  pub last-under_key :
      (k : String) (m visited : Dict V)
      → IsDict m
      → Permᴰ visited m
      → last_under (under_key f) k visited ≡ at_entry (f k) (entry k m)
  last-under_key k m visited d p =
      let values = value_of_visited k m visited d p in
      elim (Option-cases (at_entry (f k) (entry k m))) [
        | inl e ↦ rw e (
            last_under_nowhere (under_key f) k visited
              (λ x i. elim (values x i) [ inl h ↦ h | inr h ↦ h ∙ e ]))
        | inr (w, e) ↦ elim (Option-cases (entry k m)) [
          | inl n ↦ absurd (ground (arith, n, e))
          | inr (v, h) ↦
              let i = In-Permᴰ (k, v) (Permᴰ.symm p) (entry-In k v m h) in
              values_there k m visited w v e h values i
        ]
      ]
    where
      values_there :
          (k : String) (m visited : Dict V) (w : W) (v : V)
          → at_entry (f k) (entry k m) ≡ some w
          → entry k m ≡ some v
          → ((x : String × V)
              → In x visited
              → (value_under k (under_key f x) ≡ none)
                ⊎ (value_under k (under_key f x) ≡ at_entry (f k) (entry k m)))
          → In (k, v) visited
          → last_under (under_key f) k visited ≡ at_entry (f k) (entry k m)
      values_there k m visited w v e h values i = rw e (
          last_under_there (under_key f) k w visited (k, v)
            (λ x j. elim (values x j) [ inl n ↦ inl n | inr n ↦ inr (n ∙ e) ]) i
            (value-under_key k (k, v) ∙ rw (eq_refl k) (rw h at e)))

  -- What such a loop leaves under a key.
  pub entry-fill_visited :
      (k : String) (m visited : Dict V) (before : Dict W)
      → IsDict m
      → Permᴰ visited m
      → entry k (fill (under_key f) visited before)
        ≡ or_else (at_entry (f k) (entry k m)) (entry k before)
  entry-fill_visited k m visited before d p =
      entry-fill (under_key f) k visited before
      ∙ ap (λ o. or_else o (entry k before)) (last-under_key k m visited d p)

-- A map's entries in another order are a map.
entry-none_iff :
    {V : Type 0} (k : String) (m : Dict V) → (entry k m ≡ none) ↔ ((v : V) → ¬ In (k, v) m)
unfolding entry
entry-none_iff k [] = (λ e v i. i, λ h. refl)
entry-none_iff k ((j, w) ∷ m) = elim (Bool-cases (str_eq k j)) [
  | inl q ↦
      (λ e. absurd (ground arith), λ h. absurd (h w (inl (ap (λ x. (x, w)) ((eq_iff k j).0 q)))))
  | inr q ↦ (
    λ e v i. elim i [
      | inl p ↦ absurd (ground (arith, eq_iff k j, ap (λ x. x.0) p))
      | inr i ↦ (entry-none_iff k m).0 (ground arith) v i
    ],
    λ h. rw q ((entry-none_iff k m).1 (λ v i. h v (inr i))),
  )
]

swap-IsDict : {V : Type 0} (a b : String × V) (m : Dict V) → IsDict (a ∷ b ∷ m) → IsDict (b ∷ a ∷ m)
unfolding IsDict entry
swap-IsDict a b m d = ground (arith, eq_iff a.0 b.0, eq_iff b.0 a.0)

pub Permᴰ-IsDict : {V : Type 0} {xs ys : Dict V} → Permᴰ xs ys → IsDict xs → IsDict ys
unfolding IsDict
Permᴰ-IsDict Permᴰ.nil d = d
Permᴰ-IsDict (Permᴰ.cons e p) d = rw (← e) (
  (entry-none_iff _ _).1 (λ v i. (entry-none_iff _ _).0 d.0 v (In-Permᴰ (_, v) (Permᴰ.symm p) i)),
  Permᴰ-IsDict p d.1,
)
Permᴰ-IsDict (Permᴰ.swap e f) d = rw (← e, ← f) (swap-IsDict _ _ _ d)
Permᴰ-IsDict (Permᴰ.trans p q) d = Permᴰ-IsDict q (Permᴰ-IsDict p d)
