-- ===== src/Migrate/Ordering/Repeats.antt =====
-- When a list of changes has changes that agree with earlier ones.
use prisma_go.Base.{
  ℕ, zero, suc, ◌<◌, ◌≡◌, refl, sym, ◌≢◌, inl, inr, true, List, [], ◌∷◌, ◌++◌, append_assoc,
  length-append, length, get_or, arith, Bool-cases, In,
}
use prisma_go.Migrate.Change.{Change}
use prisma_go.Migrate.Ordering.{same_step, no_step}
use prisma_go.Migrate.Ordering.Leftover.{key, repeats_from, has_same, same_step_iff}

-- `changes[i]`, and a value that is never read beyond the end.
abbrev pub change_at : List Change → ℕ → Change
change_at changes i = get_or changes i no_step.change

-- No two of the changes agree in type, table, column and index.
abbrev pub HasDistinctKeys : List Change → Type 0
HasDistinctKeys changes =
    (i j : ℕ) → i < j → j < length changes → key (change_at changes i) ≢ key (change_at changes j)

has_same_witness :
    (c : Change) (before : List Change)
    → has_same c before ≡ true
    → (i : ℕ) × (i < length before) × (key c ≡ key (change_at before i))
unfolding has_same
has_same_witness c [] h = cc
has_same_witness c (d ∷ before) h = elim (Bool-cases (same_step c d)) [
  | inl t ↦ (0, omega arith, (same_step_iff c d).0 t)
  | inr f ↦ let (i, l, e) = has_same_witness c before (ground arith) in (suc i, omega arith, e)
]

has_same_there :
    (c : Change) (before : List Change) (i : ℕ)
    → i < length before
    → key c ≡ key (change_at before i)
    → has_same c before ≡ true
unfolding has_same
has_same_there c [] i l e = elim l [ ]
has_same_there c (d ∷ before) zero l e = ground (arith, (same_step_iff c d).1 e)
has_same_there c (d ∷ before) (suc i) l e =
    ground (arith, has_same_there c before i (omega arith) e)

change_at-append_left :
    (xs ys : List Change) (i : ℕ) → i < length xs → change_at (xs ++ ys) i ≡ change_at xs i
change_at-append_left [] ys i l = elim l [ ]
change_at-append_left (x ∷ xs) ys zero l = refl
change_at-append_left (x ∷ xs) ys (suc i) l = change_at-append_left xs ys i (omega arith)

change_at-append_here :
    (xs ys : List Change) (y : Change) → change_at (xs ++ (y ∷ ys)) (length xs) ≡ y
change_at-append_here [] ys y = refl
change_at-append_here (x ∷ xs) ys y = change_at-append_here xs ys y

pub repeats_from-nil :
    (before cs : List Change) → HasDistinctKeys (before ++ cs) → repeats_from before cs ≡ []
unfolding repeats_from
repeats_from-nil before [] h = refl
repeats_from-nil before (c ∷ cs) h = elim (Bool-cases (has_same c before)) [
  | inl t ↦
      let (i, l, e) = has_same_witness c before t in
      absurd (
        h i (length before) l (omega (arith, length-append {0} before (c ∷ cs)))
          (rw (change_at-append_left, l, change_at-append_here) (sym e)))
  | inr f ↦ rw f (repeats_from-nil (before ++ (c ∷ [])) cs (rw (append_assoc before (c ∷ []) cs) h))
]

-- Two changes that agree are a repeat.
repeats_from-pos :
    (before cs : List Change) (c : Change)
    → (i : ℕ) → i < length before
    → key c ≡ key (change_at before i)
    → In c cs
    → 0 < length (repeats_from before cs)
unfolding repeats_from
repeats_from-pos before [] c i l e m = absurd m
repeats_from-pos before (d ∷ cs) c i l e (inl p) =
    ground (arith, has_same_there d before i l (rw (← p) e))
repeats_from-pos before (d ∷ cs) c i l e (inr m) =
    let more =
      repeats_from-pos (before ++ (d ∷ [])) cs c i
        (omega (arith, length-append {0} before (d ∷ []))) (rw (change_at-append_left, l) e) m in
    ground (arith, more)

In-change_at : (cs : List Change) (i : ℕ) → i < length cs → In (change_at cs i) cs
In-change_at [] i l = elim l [ ]
In-change_at (c ∷ cs) zero l = inl refl
In-change_at (c ∷ cs) (suc i) l = inr (In-change_at cs i (omega arith))

pub repeats_of_equal :
    (before cs : List Change) (i j : ℕ)
    → i < j
    → j < length cs
    → key (change_at cs i) ≡ key (change_at cs j)
    → 0 < length (repeats_from before cs)
unfolding repeats_from
repeats_of_equal before [] i j h l e = elim l [ ]
repeats_of_equal before (c ∷ cs) zero (suc j) h l e =
    let more =
      repeats_from-pos (before ++ (c ∷ [])) cs (change_at cs j) (length before)
        (omega (arith, length-append {0} before (c ∷ []))) (rw change_at-append_here (sym e))
        (In-change_at cs j (omega arith)) in
    ground (arith, more)
repeats_of_equal before (c ∷ cs) (suc i) (suc j) h l e =
    let more = repeats_of_equal (before ++ (c ∷ [])) cs i j (omega arith) (omega arith) e in
    ground (arith, more)
repeats_of_equal before (c ∷ cs) i zero h l e = elim h [ ]
