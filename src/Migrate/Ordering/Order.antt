-- ===== src/Migrate/Ordering/Order.antt =====
-- What `OrderChanges` returns (migrate/diff/step_ordering.go).
use mathlib.Core.Option
use mathlib.Core.List.Perm
use prisma_go.Base.{
  ℕ, zero, suc, ◌<◌, ltb, ◌≡◌, refl, ap, ap₂, subst, ◌∙◌, List, [], ◌∷◌, ◌++◌, map, append-nil,
  length-append, some, length, count, count-nil, arith, if◌then◌else◌, Perm, indices, count-indices,
  map-indices, perm_of_count, In-enumerate_from,
}
use prisma_go.Migrate.Change.{Change}
use prisma_go.Migrate.Ordering.{
  MigrationStep, step_of, step_at, no_step, topological_sort, order_changes, dependency_graph,
  add_remaining,
}
use prisma_go.Migrate.Ordering.Rank.{MustPrecede, rank}
use prisma_go.Migrate.Ordering.Graph.{IsSound, Edge, contains_int-count}
use prisma_go.Migrate.Ordering.Build.{AllBuilt, map-AllBuilt, dependency_graph-IsSound}
use prisma_go.Migrate.Ordering.Edges.{MustPrecede-Edge}
use prisma_go.Migrate.Ordering.Position.{position, length_of_counts}
use prisma_go.Migrate.Ordering.Kahn.{IsOrder, kahn_loop, initial-Invariant}
use prisma_go.Migrate.Ordering.Repeats.{
  change_at, HasDistinctKeys, repeats_from-nil, repeats_of_equal,
}
use prisma_go.Migrate.Ordering.Leftover.{key, repeats, repeats_from, add_remaining-repeats}

get_or-map_step :
    (changes : List Change) (i : ℕ) → (step_at (map step_of changes) i).change ≡ change_at changes i
unfolding step_of
get_or-map_step [] i = refl
get_or-map_step (c ∷ cs) zero = refl
get_or-map_step (c ∷ cs) (suc i) = get_or-map_step cs i

length-map_step : (changes : List Change) → length (map step_of changes) ≡ length changes
length-map_step [] = refl
length-map_step (c ∷ cs) = ap suc (length-map_step cs)

changes_of_steps :
    (changes : List Change) → map (λ (s : MigrationStep). s.change) (map step_of changes) ≡ changes
unfolding step_of
changes_of_steps [] = refl
changes_of_steps (c ∷ cs) = ap (◌∷◌ c) (changes_of_steps cs)

changes_of_order :
    (changes : List Change) (out : List ℕ)
    → map (λ (s : MigrationStep). s.change) (map (step_at (map step_of changes)) out)
      ≡ map (change_at changes) out
changes_of_order changes [] = refl
changes_of_order changes (i ∷ out) =
    ground (arith, get_or-map_step changes i, changes_of_order changes out)

-- The order in which the changes are emitted: each index once, and what must come first before.
pub record IsOrdering (changes : List Change) (out : List ℕ) : Type 0 where
  pub once : (i : ℕ) → count i out ≡ (if ltb i (length changes) then 1 else 0)
  pub respects :
      (i j : ℕ)
      → i < length changes
      → j < length changes
      → MustPrecede (change_at changes i) (change_at changes j)
      → position i out < position j out

module _ (steps : List MigrationStep) (built : AllBuilt steps) where
  sound : IsSound (length steps) (λ i. (step_at steps i).change.type) (dependency_graph steps)
  sound = dependency_graph-IsSound steps built

  bounded : (u v : ℕ) → Edge (dependency_graph steps) u v → (u < length steps) × (v < length steps)
  bounded u v e = let (hu, hv, _) = sound.edges u v e in (hu, hv)

  up :
      (u v : ℕ)
      → Edge (dependency_graph steps) u v
      → rank (step_at steps u).change.type < rank (step_at steps v).change.type
  up u v e = let (_, _, r) = sound.edges u v e in r

  topological_sort_lem :
      (out : List ℕ) × (topological_sort steps
        ≡ some (add_remaining steps (map (step_at steps) out)))
      × IsOrder
          (length steps)
          (dependency_graph steps).next
          bounded
          (λ i. rank (step_at steps i).change.type)
          up
          out
  unfolding topological_sort
  topological_sort_lem =
      let (out, run, order) =
        kahn_loop (length steps) (dependency_graph steps).next bounded
          (λ i. rank (step_at steps i).change.type) up (step_at steps) (suc (length steps)) _ []
          (initial-Invariant (length steps) (dependency_graph steps).next bounded
            (dependency_graph steps).in_degree sound.degrees)
          (omega arith) in
      (out, ap (Option.map (add_remaining steps)) run, order)

-- `OrderChanges` returns for every list of changes (the loop over the queue ends within one round
-- more than there are steps). The result is every change once, in an order in which each change
-- stands before those of its own named table that it must precede (a table's creation before the
-- changes of its columns, the creation, drop and renaming of its indexes, the creation of its
-- foreign keys and the alteration of the table; drops and renames of its indexes and drops of its
-- foreign keys before its drop; an index drop before an alteration of the table), followed by each
-- change that agrees with an earlier one in type, table, column and index.
pub order_changes-IsOrdering :
    (changes : List Change)
    → (out : List ℕ) × (order_changes changes
        ≡ some (map (change_at changes) out ++ repeats changes))
      × IsOrdering changes out
unfolding order_changes repeats_from
order_changes-IsOrdering [] = (
  [],
  refl,
  record { once = λ i. ground (arith, count-nil i); respects = λ i j h. absurd (omega arith) },
)
order_changes-IsOrdering (c ∷ cs) =
    let changes = c ∷ cs in
    let steps = map step_of changes in
    let built = map-AllBuilt changes in
    let (out, run, order) = topological_sort_lem steps built in
    let n : length steps ≡ length changes = length-map_step changes in
    (
      out,
      rw run (
          ap some (
            add_remaining-repeats steps out (λ v l. ground (arith, order.once v))
            ∙ ap₂ (◌++◌ {A = Change}) (changes_of_order changes out)
                (ap repeats (changes_of_steps changes)))),
      record {
        once = λ i. order.once i ∙ ap (λ (m : ℕ). if ltb i m then 1 else 0) n;
        respects = λ i j hi hj m.
            order.forward i j
              (MustPrecede-Edge steps i j (step_at steps i) (step_at steps j) built
                (In-enumerate_from no_step 0 i i steps (omega arith) (rw n hi))
                (In-enumerate_from no_step 0 j j steps (omega arith) (rw n hj))
                (rw (get_or-map_step changes i, get_or-map_step changes j) m))
              ((contains_int-count out j).1 (rw (order.once j, n) (ground arith)));
      },
    )

-- The changes of an order, with no repeats, are a permutation.
map-order-perm :
    (changes : List Change) (out : List ℕ)
    → IsOrdering changes out
    → Perm (map (change_at changes) out) changes
map-order-perm changes out o =
    subst (λ (r : List Change). Perm (map (change_at changes) out) r)
      (map-indices no_step.change (change_at changes) 0 changes
        (λ i. ap (change_at changes) (omega arith)))
      (Perm.map (change_at changes) (
        perm_of_count out (indices 0 (length changes))
          λ a. ground (arith, o.once a, count-indices a 0 (length changes))))

-- Where no two changes agree in type, table, column and index, `OrderChanges` returns a
-- permutation of what it is given.
pub order_changes-perm :
    (changes : List Change)
    → HasDistinctKeys changes
    → (result : List Change) × (order_changes changes ≡ some result) × Perm result changes
order_changes-perm changes h =
    let (out, run, o) = order_changes-IsOrdering changes in
    (
      map (change_at changes) out,
      run
          ∙ ap some (
              ap (λ (r : List Change). map (change_at changes) out ++ r)
                (repeats_from-nil [] changes h)
              ∙ append-nil (map (change_at changes) out)),
      map-order-perm changes out o,
    )

length-map {ℓ κ} :
    {A : Type ℓ} {B : Type κ} (f : A → B) (xs : List A) → length (map f xs) ≡ length xs
length-map f [] = refl
length-map f (x ∷ xs) = ap suc (length-map f xs)

-- Where two changes agree in type, table, column and index, `OrderChanges` returns more changes
-- than it is given: one of them twice.
pub order_changes_duplicates :
    (changes : List Change) (i j : ℕ)
    → i < j
    → j < length changes
    → key (change_at changes i) ≡ key (change_at changes j)
    → (result : List Change) × (order_changes changes ≡ some result)
      × (length changes < length result)
order_changes_duplicates changes i j h l e =
    let (out, run, o) = order_changes-IsOrdering changes in
    (
      map (change_at changes) out ++ repeats changes,
      run,
      omega (
        arith,
        length-append {0} (map (change_at changes) out) (repeats changes),
        length-map (change_at changes) out,
        repeats_of_equal [] changes i j h l e,
        length_of_counts out (length changes) o.once,
      ),
    )
