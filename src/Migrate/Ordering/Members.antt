-- ===== src/Migrate/Ordering/Members.antt =====
-- `OrderChanges` returns what it is given (migrate/diff/step_ordering.go).
use prisma_go.Base.{
  ℕ, zero, suc, ◌<◌, ◌≡◌, refl, sym, ap, ◌∙◌, subst, ◌↔◌, inl, inr, List, [], ◌∷◌, ◌++◌, map,
  length, some, arith, In, In-append_left, In-append_cases, In-count, count-In, if◌then◌else◌,
  Bool-cases,
}
use prisma_go.Migrate.Change.{Change}
use prisma_go.Migrate.Ordering.{order_changes}
use prisma_go.Migrate.Ordering.Order.{order_changes-IsOrdering}
use prisma_go.Migrate.Ordering.Leftover.{has_same, repeats_from, repeats}
use prisma_go.Migrate.Ordering.Repeats.{change_at}

In-repeats : (c : Change) (before cs : List Change) → In c (repeats_from before cs) → In c cs
unfolding repeats_from
In-repeats c before [] m = m
In-repeats c before (d ∷ cs) m = elim (Bool-cases (has_same d before)) [
  | inl e ↦
      elim (subst
        (λ b. In c (
          if b
          then d ∷ repeats_from (before ++ (d ∷ [])) cs
          else repeats_from (before ++ (d ∷ [])) cs))
        e m) [ inl q ↦ inl q | inr m ↦ inr (In-repeats c (before ++ (d ∷ [])) cs m) ]
  | inr e ↦ inr (
      In-repeats c (before ++ (d ∷ [])) cs (
        subst
          (λ b. In c (
            if b
            then d ∷ repeats_from (before ++ (d ∷ [])) cs
            else repeats_from (before ++ (d ∷ [])) cs))
          e m))
]

In-map :
    {A : Type 0} (f : ℕ → A) (y : A) (xs : List ℕ)
    → In y (map f xs) ↔ ((x : ℕ) × In x xs × (y ≡ f x))
In-map f y [] = (λ m. absurd m, λ m. absurd m.1)
In-map f y (x ∷ xs) = (
  λ m. elim m [
    | inl e ↦ (x, inl refl, e)
    | inr m ↦ let (z, i, e) = (In-map f y xs).0 m in (z, inr i, e)
  ],
  λ m. elim m.1 [ inl q ↦ inl (m.2 ∙ ap f q) | inr i ↦ inr ((In-map f y xs).1 (m.0, i, m.2)) ],
)

In-change_at : (cs : List Change) (i : ℕ) → i < length cs → In (change_at cs i) cs
In-change_at [] i h = absurd (omega arith)
In-change_at (c ∷ cs) zero h = inl refl
In-change_at (c ∷ cs) (suc i) h = inr (In-change_at cs i (omega arith))

index_of :
    (c : Change) (cs : List Change) → In c cs → (i : ℕ) × (i < length cs) × (c ≡ change_at cs i)
index_of c [] m = absurd m
index_of c (d ∷ cs) (inl e) = (0, omega arith, e)
index_of c (d ∷ cs) (inr m) = let (i, h, e) = index_of c cs m in (suc i, omega arith, e)

-- `OrderChanges` returns, for every list of changes, a list with exactly these changes in it.
pub order_changes-In :
    (changes : List Change)
    → (result : List Change) × (order_changes changes ≡ some result)
      × ((c : Change) → In c result ↔ In c changes)
order_changes-In changes =
    let (out, run, o) = order_changes-IsOrdering changes in
    (
      map (change_at changes) out ++ repeats changes,
      run,
      λ c. (
        λ m. elim (In-append_cases c (map (change_at changes) out) (repeats changes) m) [
          | inl m ↦
              let (i, k, e) = (In-map (change_at changes) c out).0 m in
              let below : i < length changes = ground (arith, In-count i out k, o.once i) in
              subst (λ d. In d changes) (sym e) (In-change_at changes i below)
          | inr m ↦ In-repeats c [] changes m
        ],
        λ m.
            let (i, h, e) = index_of c changes m in
            In-append_left c (map (change_at changes) out) (repeats changes) (
              (In-map (change_at changes) c out).1
                (i, count-In i out (ground (arith, o.once i)), e)),
      ),
    )
