-- ===== src/Migrate/Ordering/Leftover.antt =====
-- The last loops of `topologicalSort`: a step is appended again if a step before it compares equal
-- to it, and for no other reason.
use prisma_go.Base.{
  ℕ, suc, ◌+◌, ◌-◌, ◌≤◌, ◌<◌, ◌==◌, ◌≡◌, refl, sym, ap, ◌∙◌, ◌↔◌, inl, inr, Bool, true, false, not,
  ◌||◌, List, [], ◌∷◌, ◌++◌, map, append_assoc, map-append, length-append, length, get_or, for_each,
  count, count-nil, count-cons, arith, eq_iff, if◌then◌else◌, Bool-cases, String,
}
use prisma_go.Migrate.Change.{ChangeType, same_type_iff, Change}
use prisma_go.Migrate.Ordering.{
  MigrationStep, same_step, mark_first, append_missing, add_remaining, step_at,
}

-- What `same_step` compares.
abbrev pub Key : Type 0
Key = record { type : ChangeType; table : String; column : String; index : String }

abbrev pub key : Change → Key
key c = record { type = c.type; table = c.table; column = c.column; index = c.index }

pub same_step_iff : (c d : Change) → (same_step c d ≡ true) ↔ (key c ≡ key d)
unfolding same_step
same_step_iff c d = ground (
  arith,
  same_type_iff c.type d.type,
  eq_iff c.table d.table,
  eq_iff c.column d.column,
  eq_iff c.index d.index,
)

same_step_cong : (c d e : Change) → same_step c d ≡ true → same_step c e ≡ same_step d e
same_step_cong c d e h =
    let p = (same_step_iff c d).0 h in
    elim (Bool-cases (same_step d e)) [
      | inl t ↦ (same_step_iff c e).1 (p ∙ (same_step_iff d e).0 t) ∙ sym t
      | inr f ↦ elim (Bool-cases (same_step c e)) [
        | inl t ↦
            absurd (differ (sym t ∙ t) f ((same_step_iff d e).1 (sym p ∙ (same_step_iff c e).0 t)))
        | inr g ↦ g ∙ sym f
      ]
    ]
  where
    differ : true ≡ true → same_step d e ≡ false → same_step d e ≡ true → ⊥
    differ _ f t = cc

-- `v` is the first index, from `i` on, of a step that compares equal.
hits : Change → ℕ → List MigrationStep → ℕ → Bool
hits c i [] v = false
hits c i (s ∷ steps) v =
    let rest = hits c (suc i) steps v in if same_step c s.change then v == i else rest

mark_first-hits :
    (step : MigrationStep) (i : ℕ) (steps : List MigrationStep) (added : ℕ → Bool) (v : ℕ)
    → mark_first step i steps added v ≡ (hits step.change i steps v || added v)
unfolding mark_first hits
mark_first-hits step i [] added v = refl
mark_first-hits step i (s ∷ steps) added v =
    ground (arith, mark_first-hits step (suc i) steps added v)

hits_cong :
    (c d : Change) (i : ℕ) (steps : List MigrationStep) (v : ℕ)
    → same_step c d ≡ true
    → hits c i steps v ≡ hits d i steps v
unfolding hits
hits_cong c d i [] v h = refl
hits_cong c d i (s ∷ steps) v h =
    ground (arith, same_step_cong c d s.change h, hits_cong c d (suc i) steps v h)

hits-same :
    (c : Change) (i v : ℕ) (steps : List MigrationStep)
    → hits c i steps v ≡ true
    → (i ≤ v) × (same_step c (step_at steps (v - i)).change ≡ true)
unfolding hits
hits-same c i v [] h = cc
hits-same c i v (s ∷ steps) h = elim (Bool-cases (same_step c s.change)) [
  | inl t ↦ let e : v ≡ i = ground arith in let z : v - i ≡ 0 = omega arith in (omega arith, rw z t)
  | inr f ↦
      let (l, t) = hits-same c (suc i) v steps (ground arith) in
      let z : v - i ≡ suc (v - suc i) = omega arith in (omega arith, rw z t)
]

-- Whether a list of changes has one that compares equal.
unfoldable pub has_same : Change → List Change → Bool
has_same c [] = false
has_same c (d ∷ ds) = same_step c d || has_same c ds

-- A step is its own first match, unless an earlier one compares equal.
hits_self :
    (k v : ℕ) (before : List MigrationStep) (s : MigrationStep) (rest : List MigrationStep)
    → v ≡ k + length before
    → hits s.change k (before ++ (s ∷ rest)) v
      ≡ not (has_same s.change (map (λ (t : MigrationStep). t.change) before))
unfolding hits has_same
hits_self k v [] s rest e = ground (arith, (same_step_iff s.change s.change).1 refl)
hits_self k v (t ∷ before) s rest e =
    ground (arith, hits_self (suc k) v before s rest (omega arith))

-- The changes that compare equal to an earlier one, in order.
unfoldable pub repeats_from : List Change → List Change → List Change
unfolding has_same
repeats_from before [] = []
repeats_from before (c ∷ cs) =
    let rest = repeats_from (before ++ (c ∷ [])) cs in if has_same c before then c ∷ rest else rest

abbrev pub repeats : List Change → List Change
repeats = repeats_from []

abbrev changes_of : List MigrationStep → List Change
changes_of = map (λ (t : MigrationStep). t.change)

module _ (steps : List MigrationStep) where
  -- Some step of the result has `v` for its first match.
  any_hits : List MigrationStep → ℕ → Bool
  any_hits [] v = false
  any_hits (r ∷ rs) v = hits r.change 0 steps v || any_hits rs v

  marks-any_hits :
      (result : List MigrationStep) (added : ℕ → Bool) (v : ℕ)
      → for_each (λ step added'. mark_first step 0 steps added') result added v
        ≡ (any_hits result v || added v)
  unfolding any_hits
  marks-any_hits [] added v = refl
  marks-any_hits (r ∷ rs) added v =
      ground
        (arith, marks-any_hits rs (mark_first r 0 steps added) v, mark_first-hits r 0 steps added v)

  any_hits_source :
      (out : List ℕ) (v : ℕ)
      → any_hits (map (step_at steps) out) v ≡ true
      → (u : ℕ) × (hits (step_at steps u).change 0 steps v ≡ true)
  unfolding any_hits
  any_hits_source [] v h = absurd (elim (Bool-cases true) [ inl _ ↦ cc | inr _ ↦ cc ])
  any_hits_source (u ∷ out) v h = elim (Bool-cases (hits (step_at steps u).change 0 steps v)) [
    | inl t ↦ (u, t)
    | inr f ↦ any_hits_source out v (ground arith)
  ]

  any_hits_placed :
      (out : List ℕ) (v : ℕ)
      → 0 < count v out
      → hits (step_at steps v).change 0 steps v ≡ true
      → any_hits (map (step_at steps) out) v ≡ true
  unfolding any_hits
  any_hits_placed [] v l h = absurd (omega (arith, count-nil v))
  any_hits_placed (u ∷ out) v l h = ground (arith, any_hits_placed out v, count-cons v u out)

  -- Where every step is placed, a step is marked if it is its own first match.
  any_hits_self :
      (out : List ℕ) (v : ℕ)
      → 0 < count v out
      → any_hits (map (step_at steps) out) v ≡ hits (step_at steps v).change 0 steps v
  any_hits_self out v l = elim (Bool-cases (hits (step_at steps v).change 0 steps v)) [
    | inl t ↦ any_hits_placed out v l t ∙ sym t
    | inr f ↦ elim (Bool-cases (any_hits (map (step_at steps) out) v)) [
      | inl t ↦
          let (u, h) = any_hits_source out v t in
          let (_, same) = hits-same (step_at steps u).change 0 v steps h in
          let z : v - 0 ≡ v = omega arith in
          let moved =
            hits_cong (step_at steps u).change (step_at steps v).change 0 steps v (rw z at same) in
          absurd (ground arith)
      | inr g ↦ g ∙ sym f
    ]
  ]

get_or-append_here :
    {A : Type 0} (d x : A) (before rest : List A)
    → get_or (before ++ (x ∷ rest)) (length before) d ≡ x
get_or-append_here d x [] rest = refl
get_or-append_here d x (y ∷ before) rest = get_or-append_here d x before rest

append_missing-repeats :
    (added : ℕ → Bool) (i : ℕ) (before rest : List MigrationStep)
    → i ≡ length before
    → ((v : ℕ)
        → v < length (before ++ rest)
        → added v ≡ hits (step_at (before ++ rest) v).change 0 (before ++ rest) v)
    → changes_of (append_missing added i rest) ≡ repeats_from (changes_of before) (changes_of rest)
unfolding append_missing repeats_from
append_missing-repeats added i before [] e h = refl
append_missing-repeats added i before (s ∷ rest) e h =
    let whole : (before ++ (s ∷ [])) ++ rest ≡ before ++ (s ∷ rest) =
      append_assoc before (s ∷ []) rest in
    let below : i < length (before ++ (s ∷ rest)) =
      omega (arith, length-append {0} before (s ∷ rest)) in
    let here : added i ≡ not (has_same s.change (changes_of before)) =
      h i below
      ∙ rw e (rw get_or-append_here (hits_self 0 (length before) before s rest (omega arith))) in
    let ih =
      append_missing-repeats added (suc i) (before ++ (s ∷ [])) rest
        (omega (arith, length-append {0} before (s ∷ []))) (rw whole h) in
    let ih' = rw (map-append (λ (t : MigrationStep). t.change) before (s ∷ [])) at ih in
    ground (arith, here, ih')

-- What the last loops append.
pub add_remaining-repeats :
    (steps : List MigrationStep) (out : List ℕ)
    → ((v : ℕ) → v < length steps → 0 < count v out)
    → changes_of (add_remaining steps (map (step_at steps) out))
      ≡ changes_of (map (step_at steps) out) ++ repeats (changes_of steps)
unfolding add_remaining
add_remaining-repeats steps out h =
    map-append (λ (t : MigrationStep). t.change) (map (step_at steps) out) _
    ∙ ap (λ (r : List Change). changes_of (map (step_at steps) out) ++ r)
        (append_missing-repeats _ 0 [] steps refl (λ v l.
          marks-any_hits steps (map (step_at steps) out) (λ _. false) v
          ∙ ground (arith, any_hits_self steps out v (h v l))))
