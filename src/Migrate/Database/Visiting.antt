-- ===== src/Migrate/Database/Visiting.antt =====
-- Loops over a map that append what they find, in whichever order they go through it.
use mathlib.Core.List.Permᴰ
use prisma_go.Base.{
  ◌≡◌, refl, ap, ◌↔◌, inl, inr, Bool, true, false, if◌then◌else◌, [], ◌∷◌, none, arith, String,
  List, some, Runtime, IsRuntime, Dict, IsDict, entry, In, In-gather, In-Permᴰ, In-entry, entry-In,
  gather,
}

-- What a loop over a map visits is the entries of the map.
pub In-visit :
    {V : Type 0} (r : Runtime) (loop k : String) (v : V) (m : Dict V)
    → IsRuntime r
    → IsDict m
    → In (k, v) (r.visit loop m) ↔ (entry k m ≡ some v)
In-visit r loop k v m go d = (
  λ i. In-entry k v m d (In-Permᴰ (k, v) (go.visits loop m) i),
  λ e. In-Permᴰ (k, v) (Permᴰ.symm (go.visits loop m)) (entry-In k v m e),
)

-- What `if b { result = append(result, x) }` appends.
pub In-appended_if :
    {A : Type 0} (b : Bool) (c x : A) → In c (if b then x ∷ [] else []) ↔ ((b ≡ true) × (c ≡ x))
In-appended_if true c x = (λ m. elim m [ inl e ↦ (refl, e) | inr m ↦ absurd m ], λ m. inl m.1)
In-appended_if false c x = (λ m. absurd m, λ m. absurd (ground (arith, m.0)))

pub some_if :
    {A : Type 0} (b : Bool) (x y : A)
    → ((if b then some x else none) ≡ some y) ↔ ((b ≡ true) × (x ≡ y))
some_if true x y = (λ e. (refl, ground (arith, e)), λ m. ap some m.1)
some_if false x y = (λ e. absurd (ground (arith, e)), λ m. absurd (ground (arith, m.0)))

-- What such a loop appends is what it appends for an entry of the map.
pub In-visited :
    {V B : Type 0} (r : Runtime) (loop : String) (f : String × V → List B) (m : Dict V) (b : B)
    → IsRuntime r
    → IsDict m
    → In b (gather f (r.visit loop m))
      ↔ ((k : String) × (v : V) × (entry k m ≡ some v) × In b (f (k, v)))
In-visited r loop f m b go d = (
  λ i.
      let ((k, v), j, h) = (In-gather f b (r.visit loop m)).0 i in
      (k, v, (In-visit r loop k v m go d).0 j, h),
  λ i.
      let (k, v, e, h) = i in
      (In-gather f b (r.visit loop m)).1 ((k, v), (In-visit r loop k v m go d).1 e, h),
)

-- What a second loop appends for what the first has appended.
pub In-gather_visited :
    {V B C : Type 0} (r : Runtime) (loop : String) (f : String × V → List B) (g : B → List C)
    (m : Dict V) (c : C)
    → IsRuntime r
    → IsDict m
    → In c (gather g (gather f (r.visit loop m)))
      ↔ ((k : String) × (v : V) × (entry k m ≡ some v) × In c (gather g (f (k, v))))
In-gather_visited r loop f g m c go d = (
  λ i.
      let (b, j, h) = (In-gather g c (gather f (r.visit loop m))).0 i in
      let (k, v, e, l) = (In-visited r loop f m b go d).0 j in
      (k, v, e, (In-gather g c (f (k, v))).1 (b, l, h)),
  λ i.
      let (k, v, e, l) = i in
      let (b, j, h) = (In-gather g c (f (k, v))).0 l in
      (In-gather g c (gather f (r.visit loop m))).1
        (b, (In-visited r loop f m b go d).1 (k, v, e, j), h),
)

-- There is nothing to visit in an empty map.
pub visit-nil :
    {V : Type 0} (r : Runtime) (loop : String) → IsRuntime r → r.visit {V = V} loop [] ≡ []
visit-nil {V} r loop go = nothing (r.visit loop []) (λ e i. In-Permᴰ e (go.visits loop []) i)
  where
    nothing : (es : Dict V) → ((e : String × V) → ¬ In e es) → es ≡ []
    nothing [] h = refl
    nothing (e ∷ es) h = absurd (h e (inl refl))
