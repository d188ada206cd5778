-- ===== src/Migrate/Ordering/Build.antt =====
-- The dependency graph of a list of changes is sound, and has an edge for each pair of changes that
-- must keep its order.
use prisma_go.Base.{
  ℕ, suc, ◌<◌, ◌==◌, ◌≡◌, ap, subst, inl, inr, Bool, true, ◌&&◌, String, str_eq, List, [], ◌∷◌, map,
  In, length, enumerate_from, enumerate_from-get_or, for_each, for_each_inv, eq_iff, arith,
  if_keeps,
}
use prisma_go.Migrate.Change.{
  ChangeType, create_table, drop_table, alter_table, create_index, drop_index, rename_index,
  create_foreign_key, drop_foreign_key, Change, same_type, same_type_iff,
}
use prisma_go.Migrate.Ordering.{
  MigrationStep, step_at, DependencyGraph, add_edge_once, made_on_table, dropped_from_table,
  link_dependency, link_step, link_provides, rule_create_table, rule_drop_table, rule_drop_index,
  special_rule, dependency_graph, no_step, step_of, extract_dependencies, extract_provides,
}
use prisma_go.Migrate.Ordering.Rank.{rank, provides_rank}
use prisma_go.Migrate.Ordering.Graph.{
  IsSound, no_edges-IsSound, add_edge-IsSound, add_edge_once-IsSound,
}

-- The ranks that the tests of the special rules give.
rank_of_made_on_table : (t : ChangeType) → made_on_table t ≡ true → 0 < rank t
unfolding made_on_table rank
rank_of_made_on_table t h = ground (
  arith,
  same_type_iff t create_index,
  same_type_iff t create_foreign_key,
  same_type_iff t rename_index,
)

rank_of_dropped_from_table : (t : ChangeType) → dropped_from_table t ≡ true → rank t < 2
unfolding dropped_from_table rank
rank_of_dropped_from_table t h = ground (
  arith,
  same_type_iff t drop_foreign_key,
  same_type_iff t drop_index,
  same_type_iff t rename_index,
)

and_left : (a b : Bool) → (a && b) ≡ true → a ≡ true
and_left a b h = ground arith

-- Every step was made from its change.
abbrev pub AllBuilt : List MigrationStep → Type 0
AllBuilt steps =
    (i : ℕ) (s : MigrationStep) → In (i, s) (enumerate_from 0 steps) → s ≡ step_of s.change

pub provides_of :
    (p : String) (u : MigrationStep)
    → u ≡ step_of u.change
    → In p u.provides
    → In p (extract_provides u.change)
unfolding step_of
provides_of p u e m = subst (λ (w : MigrationStep). In p w.provides) e m

pub dependencies_of :
    (p : String) (u : MigrationStep)
    → u ≡ step_of u.change
    → In p u.dependencies
    → In p (extract_dependencies u.change)
unfolding step_of
dependencies_of p u e m = subst (λ (w : MigrationStep). In p w.dependencies) e m

module _ (steps : List MigrationStep) where
  abbrev kind : ℕ → ChangeType
  kind i = (step_at steps i).change.type

  abbrev Sound : DependencyGraph → Type 0
  Sound = IsSound (length steps) kind

  -- The position and the type of an enumerated step.
  place :
      (i : ℕ) (s : MigrationStep)
      → In (i, s) (enumerate_from 0 steps)
      → (i < length steps) × (kind i ≡ s.change.type)
  place i s m =
      let (_, hi, e) = enumerate_from-get_or no_step 0 i s steps m in (omega arith, ground arith)

  -- An edge between two enumerated steps, upwards in rank.
  edge_once :
      (i j : ℕ) (s t : MigrationStep) (g : DependencyGraph)
      → In (i, s) (enumerate_from 0 steps)
      → In (j, t) (enumerate_from 0 steps)
      → rank s.change.type < rank t.change.type
      → Sound g
      → Sound (add_edge_once i j g)
  edge_once i j s t g mi mj hr h =
      let (hi, ei) = place i s mi in
      let (hj, ej) = place j t mj in
      add_edge_once-IsSound (length steps) kind i j g hi hj (rw (ei, ej) hr) h

  module _ (i : ℕ) (s : MigrationStep) (mi : In (i, s) (enumerate_from 0 steps)) where
    rule_create_table-IsSound :
        s.change.type ≡ create_table
        → (x : ℕ × MigrationStep) (g : DependencyGraph) → In x (enumerate_from 0 steps)
        → Sound g
        → Sound (rule_create_table i s.change x g)
    unfolding rule_create_table rank
    rule_create_table-IsSound e (j, other) g mj h =
        if_keeps Sound (i == j) _ _ (λ _. h)
          λ _.
            if_keeps Sound
              (made_on_table other.change.type && str_eq other.change.table s.change.table) _ _
              (λ t.
                edge_once i j s other g mi mj
                  (rw e (rank_of_made_on_table other.change.type (and_left _ _ t))) h)
              (λ _. h)

    rule_drop_table-IsSound :
        s.change.type ≡ drop_table
        → (x : ℕ × MigrationStep) (g : DependencyGraph) → In x (enumerate_from 0 steps)
        → Sound g
        → Sound (rule_drop_table i s.change x g)
    unfolding rule_drop_table rank
    rule_drop_table-IsSound e (j, other) g mj h =
        if_keeps Sound (i == j) _ _ (λ _. h)
          λ _.
            if_keeps Sound
              (dropped_from_table other.change.type && str_eq other.change.table s.change.table) _ _
              (λ t.
                edge_once j i other s g mj mi
                  (rw e (rank_of_dropped_from_table other.change.type (and_left _ _ t))) h)
              (λ _. h)

    rule_drop_index-IsSound :
        s.change.type ≡ drop_index
        → (x : ℕ × MigrationStep) (g : DependencyGraph) → In x (enumerate_from 0 steps)
        → Sound g
        → Sound (rule_drop_index i s.change x g)
    unfolding rule_drop_index rank
    rule_drop_index-IsSound e (j, other) g mj h =
        if_keeps Sound (i == j) _ _ (λ _. h)
          λ _.
            if_keeps Sound
              (same_type other.change.type alter_table && str_eq other.change.table s.change.table)
              _ _
              (λ t.
                let a = (same_type_iff other.change.type alter_table).0 (and_left _ _ t) in
                edge_once i j s other g mi mj (rw (e, a) (omega arith)) h)
              (λ _. h)

  special_rule-IsSound :
      (x : ℕ × MigrationStep) (g : DependencyGraph)
      → In x (enumerate_from 0 steps)
      → Sound g
      → Sound (special_rule steps x g)
  unfolding special_rule
  special_rule-IsSound (i, s) g mi h = ground (
    arith,
    λ (e : s.change.type ≡ create_table).
        for_each_inv Sound (rule_create_table i s.change) (enumerate_from 0 steps)
          (rule_create_table-IsSound i s mi e) g h,
    λ (e : s.change.type ≡ drop_table).
        for_each_inv Sound (rule_drop_table i s.change) (enumerate_from 0 steps)
          (rule_drop_table-IsSound i s mi e) g h,
    λ (e : s.change.type ≡ drop_index).
        for_each_inv Sound (rule_drop_index i s.change) (enumerate_from 0 steps)
          (rule_drop_index-IsSound i s mi e) g h,
  )

  link_dependency-IsSound :
      (i j : ℕ) (s t : MigrationStep) (provided dep : String) (g : DependencyGraph)
      → In (i, s) (enumerate_from 0 steps)
      → In (j, t) (enumerate_from 0 steps)
      → (dep ≡ provided → rank s.change.type < rank t.change.type)
      → Sound g
      → Sound (link_dependency i j provided dep g)
  unfolding link_dependency
  link_dependency-IsSound i j s t provided dep g mi mj hr h =
      if_keeps Sound (str_eq dep provided) _ _
        (λ e.
          let (hi, ei) = place i s mi in
          let (hj, ej) = place j t mj in
          add_edge-IsSound (length steps) kind i j g hi hj
            (rw (ei, ej) (hr ((eq_iff dep provided).0 e))) h)
        (λ _. h)

  module _ (built : AllBuilt steps) where
    link_step-IsSound :
        (i : ℕ) (s : MigrationStep) (provided : String)
        → In (i, s) (enumerate_from 0 steps)
        → In provided s.provides
        → (x : ℕ × MigrationStep) (g : DependencyGraph) → In x (enumerate_from 0 steps)
        → Sound g
        → Sound (link_step i provided x g)
    unfolding link_step
    link_step-IsSound i s provided mi mp (j, t) g mj h =
        if_keeps Sound (i == j) _ _ (λ _. h)
          λ _.
            for_each_inv Sound (link_dependency i j provided) t.dependencies
              (λ dep g' md h'.
                link_dependency-IsSound i j s t provided dep g' mi mj
                  (λ e.
                    provides_rank dep s.change t.change
                      (rw e (provides_of provided s (built i s mi) mp))
                      (dependencies_of dep t (built j t mj) md))
                  h')
              g h

    link_provides-IsSound :
        (x : ℕ × MigrationStep) (g : DependencyGraph)
        → In x (enumerate_from 0 steps)
        → Sound g
        → Sound (link_provides steps x g)
    unfolding link_provides
    link_provides-IsSound (i, s) g mi h =
        for_each_inv Sound
          (λ provided g'. for_each (link_step i provided) (enumerate_from 0 steps) g') s.provides
          (λ provided g' mp h'.
            for_each_inv Sound (link_step i provided) (enumerate_from 0 steps)
              (link_step-IsSound i s provided mi mp) g' h')
          g h

    -- In the graph of steps that are made from their changes, every edge joins two of the steps and
    -- goes up in rank, so that it has no cycle, and every in-degree is the number of incoming
    -- edges.
    pub dependency_graph-IsSound : Sound (dependency_graph steps)
    unfolding dependency_graph
    dependency_graph-IsSound =
        for_each_inv Sound (special_rule steps) (enumerate_from 0 steps) special_rule-IsSound _ (
          for_each_inv Sound (link_provides steps) (enumerate_from 0 steps) link_provides-IsSound _
            (no_edges-IsSound (length steps) kind))

step_of-map :
    (k i : ℕ) (s : MigrationStep) (changes : List Change)
    → In (i, s) (enumerate_from k (map step_of changes))
    → s ≡ step_of s.change
unfolding step_of
step_of-map k i s [] m = absurd m
step_of-map k i s (c ∷ changes) (inl e) = let h : s ≡ step_of c = ap (λ p. p.1) e in rw h
step_of-map k i s (c ∷ changes) (inr m) = step_of-map (suc k) i s changes m

-- The steps that `OrderChanges` makes.
pub map-AllBuilt : (changes : List Change) → AllBuilt (map step_of changes)
map-AllBuilt changes i s m = step_of-map 0 i s changes m
