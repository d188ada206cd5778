-- ===== src/Migrate/Ordering/Edges.antt =====
-- The dependency graph has an edge for each pair of changes that must keep its order.
use prisma_go.Base.{
  ℕ, ◌==◌, ◌≡◌, refl, sym, ◌∙◌, ◌≢◌, true, String, ◌<>◌, List, [], ◌∷◌, In, enumerate_from,
  enumerate_from-get_or, for_each, for_each_inv, for_each_reaches, eq_iff, arith, if_keeps, eq_refl,
}
use prisma_go.Migrate.Change.{
  ChangeType, create_table, drop_table, alter_table, redefine_table, drop_index, rename_index,
  create_foreign_key, drop_foreign_key, rename_foreign_key, Change, same_type, same_type_iff,
}
use prisma_go.Migrate.Ordering.{
  MigrationStep, DependencyGraph, contains_int, add_edge, add_edge_once, made_on_table,
  dropped_from_table, link_dependency, link_step, link_provides, rule_create_table, rule_drop_table,
  rule_drop_index, special_rule, dependency_graph, no_step, step_of, extract_dependencies,
}
use prisma_go.Migrate.Ordering.Rank.{type_precedes, MustPrecede, table_provided}
use prisma_go.Migrate.Ordering.Graph.{contains_int-append, Edge}
use prisma_go.Migrate.Ordering.Build.{AllBuilt}

-- No operation on the graph takes an edge away.
module _ (u v : ℕ) where
  abbrev Kept : DependencyGraph → Type 0
  Kept g = Edge g u v

  add_edge_keeps : (i j : ℕ) (g : DependencyGraph) → Kept g → Kept (add_edge i j g)
  unfolding add_edge
  add_edge_keeps i j g h = ground (arith, contains_int-append (g.next i) (j ∷ []) v)

  add_edge_once_keeps : (i j : ℕ) (g : DependencyGraph) → Kept g → Kept (add_edge_once i j g)
  unfolding add_edge_once
  add_edge_once_keeps i j g h = ground (arith, add_edge_keeps i j g h)

  link_dependency_keeps :
      (i j : ℕ) (provided dep : String) (g : DependencyGraph)
      → Kept g
      → Kept (link_dependency i j provided dep g)
  unfolding link_dependency
  link_dependency_keeps i j provided dep g h = ground (arith, add_edge_keeps i j g h)

  link_step_keeps :
      (i : ℕ) (provided : String) (x : ℕ × MigrationStep) (g : DependencyGraph)
      → Kept g
      → Kept (link_step i provided x g)
  unfolding link_step
  link_step_keeps i provided (j, t) g h =
      if_keeps Kept (i == j) _ _ (λ _. h)
        λ _.
          for_each_inv Kept (link_dependency i j provided) t.dependencies
            (λ dep g' _ h'. link_dependency_keeps i j provided dep g' h') g h

  link_provides_keeps :
      (steps : List MigrationStep) (x : ℕ × MigrationStep) (g : DependencyGraph)
      → Kept g
      → Kept (link_provides steps x g)
  unfolding link_provides
  link_provides_keeps steps (i, s) g h =
      for_each_inv Kept (λ provided g'. for_each (link_step i provided) (enumerate_from 0 steps) g')
        s.provides
        (λ provided g' _ h'.
          for_each_inv Kept (link_step i provided) (enumerate_from 0 steps)
            (λ x g'' _ h''. link_step_keeps i provided x g'' h'') g' h')
        g h

  rules_keep :
      (i : ℕ) (c : Change) (x : ℕ × MigrationStep) (g : DependencyGraph)
      → Kept g
      → Kept (rule_create_table i c x g)
        × Kept (rule_drop_table i c x g)
        × Kept (rule_drop_index i c x g)
  unfolding rule_create_table rule_drop_table rule_drop_index
  rules_keep i c (j, t) g h =
      ground (arith, add_edge_once_keeps i j g h, add_edge_once_keeps j i g h)

  special_rule_keeps :
      (steps : List MigrationStep) (x : ℕ × MigrationStep) (g : DependencyGraph)
      → Kept g
      → Kept (special_rule steps x g)
  unfolding special_rule
  special_rule_keeps steps (i, s) g h =
      let all = enumerate_from 0 steps in
      ground (
        arith,
        for_each_inv Kept (rule_create_table i s.change) all
            (λ x g' _ h'. (rules_keep i s.change x g' h').0) g h,
        for_each_inv Kept (rule_drop_table i s.change) all
            (λ x g' _ h'. (rules_keep i s.change x g' h').1) g h,
        for_each_inv Kept (rule_drop_index i s.change) all
            (λ x g' _ h'. (rules_keep i s.change x g' h').2) g h,
      )

add_edge_there : (i j : ℕ) (g : DependencyGraph) → Edge (add_edge i j g) i j
unfolding add_edge contains_int
add_edge_there i j g = ground (arith, contains_int-append (g.next i) (j ∷ []) j)

add_edge_once_there : (i j : ℕ) (g : DependencyGraph) → Edge (add_edge_once i j g) i j
unfolding add_edge_once
add_edge_once_there i j g =
    if_keeps (λ g'. Edge g' i j) (contains_int (g.next i) j) _ _ (λ h. h)
      (λ _. add_edge_there i j g)

module _ (steps : List MigrationStep) (i j : ℕ) (s t : MigrationStep) (apart : i ≢ j)
    (mi : In (i, s) (enumerate_from 0 steps)) (mj : In (j, t) (enumerate_from 0 steps)) where
  abbrev There : DependencyGraph → Type 0
  There g = Edge g i j

  link-There :
      (p : String) (g : DependencyGraph)
      → In p s.provides
      → In p t.dependencies
      → There (link_provides steps (i, s) g)
  unfolding link_provides
  link-There p g mp md =
      for_each_reaches There
        (λ provided g'. for_each (link_step i provided) (enumerate_from 0 steps) g') s.provides p mp
        (λ g'.
          for_each_reaches There (link_step i p) (enumerate_from 0 steps) (j, t) mj there
            (λ x g'' h. link_step_keeps i j i p x g'' h) g')
        (λ q g' h.
          for_each_inv There (link_step i q) (enumerate_from 0 steps)
            (λ x g'' _ h'. link_step_keeps i j i q x g'' h') g' h)
        g
    where
      at_dep : (g' : DependencyGraph) → There (link_dependency i j p p g')
      at_dep g' = unfold link_dependency in rw (eq_refl p) (add_edge_there i j g')

      there : (g' : DependencyGraph) → There (link_step i p (j, t) g')
      there g' =
          unfold link_step in
          if_keeps There (i == j) g' _ (λ e. absurd (apart (ground arith)))
            λ _.
              for_each_reaches There (link_dependency i j p) t.dependencies p md at_dep
                (λ dep g'' h. link_dependency_keeps i j i j p dep g'' h) g'

  -- An edge for what one step provides and the other depends on.
  edge_by_dependency :
      (p : String) → In p s.provides → In p t.dependencies → There (dependency_graph steps)
  unfolding dependency_graph
  edge_by_dependency p mp md =
      for_each_inv There (special_rule steps) (enumerate_from 0 steps)
        (λ x g _ h. special_rule_keeps i j steps x g h) _
        (for_each_reaches There (link_provides steps) (enumerate_from 0 steps) (i, s) mi
          (λ g. link-There p g mp md) (λ x g h. link_provides_keeps i j steps x g h) _)

  edge_by_rule :
      (x : ℕ × MigrationStep)
      → In x (enumerate_from 0 steps)
      → ((g : DependencyGraph) → There (special_rule steps x g))
      → There (dependency_graph steps)
  unfolding dependency_graph
  edge_by_rule x mx there =
      for_each_reaches There (special_rule steps) (enumerate_from 0 steps) x mx there
        (λ y g h. special_rule_keeps i j steps y g h) _

  create_table-There :
      s.change.type ≡ create_table
      → made_on_table t.change.type ≡ true
      → t.change.table ≡ s.change.table
      → (g : DependencyGraph) → There (special_rule steps (i, s) g)
  unfolding special_rule
  create_table-There e k same g =
      let all =
        for_each_reaches There (rule_create_table i s.change) (enumerate_from 0 steps) (j, t) mj
          there (λ x g' h. (rules_keep i j i s.change x g' h).0) g in
      ground (arith, all)
    where
      there : (g' : DependencyGraph) → There (rule_create_table i s.change (j, t) g')
      there g' =
          unfold rule_create_table in
          ground (arith, apart, k, add_edge_once_there i j g', eq_iff t.change.table s.change.table)

  drop_table-There :
      t.change.type ≡ drop_table
      → dropped_from_table s.change.type ≡ true
      → s.change.table ≡ t.change.table
      → (g : DependencyGraph) → There (special_rule steps (j, t) g)
  unfolding special_rule
  drop_table-There e k same g =
      let all =
        for_each_reaches There (rule_drop_table j t.change) (enumerate_from 0 steps) (i, s) mi there
          (λ x g' h. (rules_keep i j j t.change x g' h).1) g in
      ground (arith, all)
    where
      there : (g' : DependencyGraph) → There (rule_drop_table j t.change (i, s) g')
      there g' =
          unfold rule_drop_table in
          ground (arith, apart, k, add_edge_once_there i j g', eq_iff s.change.table t.change.table)

  drop_index-There :
      s.change.type ≡ drop_index
      → t.change.type ≡ alter_table
      → t.change.table ≡ s.change.table
      → (g : DependencyGraph) → There (special_rule steps (i, s) g)
  unfolding special_rule
  drop_index-There e k same g =
      let all =
        for_each_reaches There (rule_drop_index i s.change) (enumerate_from 0 steps) (j, t) mj there
          (λ x g' h. (rules_keep i j i s.change x g' h).2) g in
      ground (arith, all)
    where
      there : (g' : DependencyGraph) → There (rule_drop_index i s.change (j, t) g')
      there g' =
          unfold rule_drop_index in
          ground (
            arith,
            apart,
            (same_type_iff t.change.type alter_table).1 k,
            add_edge_once_there i j g',
            eq_iff t.change.table s.change.table,
          )

-- How a pair of types that must keep its order comes by its edge.
data Reason (a b : ChangeType) : Type 0 where
  by_dependency :
      a ≡ create_table
      → ((d : Change)
          → d.type ≡ b
          → d.table ≢ ""
          → In ("table:" <> d.table) (extract_dependencies d))
      → Reason a b
  by_creation : a ≡ create_table → made_on_table b ≡ true → Reason a b
  by_drop : dropped_from_table a ≡ true → b ≡ drop_table → Reason a b
  by_alteration : a ≡ drop_index → b ≡ alter_table → Reason a b

reason : (a b : ChangeType) → type_precedes a b ≡ true → Reason a b
unfolding type_precedes dropped_from_table made_on_table same_type
reason create_table create_table h = cc
reason create_table drop_table h = cc
reason create_table redefine_table h = cc
reason create_table drop_foreign_key h = cc
reason create_table rename_foreign_key h = cc
reason create_table create_foreign_key h = by_creation refl refl
reason create_table _ h =
    by_dependency refl λ d e n. unfold extract_dependencies in ground (arith, eq_iff d.table "")
reason drop_foreign_key drop_table h = by_drop refl refl
reason drop_index drop_table h = by_drop refl refl
reason rename_index drop_table h = by_drop refl refl
reason drop_index alter_table h = by_alteration refl refl
reason _ _ h = cc

irreflexive : (a : ChangeType) → type_precedes a a ≢ true
unfolding type_precedes
irreflexive create_table = λ h. cc
irreflexive _ = λ h. cc

-- Among steps that are made from their changes, the graph has an edge from a step to each step of
-- the same named table that it must precede.
pub MustPrecede-Edge :
    (steps : List MigrationStep) (i j : ℕ) (s t : MigrationStep)
    → AllBuilt steps
    → In (i, s) (enumerate_from 0 steps)
    → In (j, t) (enumerate_from 0 steps)
    → MustPrecede s.change t.change
    → Edge (dependency_graph steps) i j
MustPrecede-Edge steps i j s t built mi mj m = by (reason s.change.type t.change.type m.types)
  where
    apart : i ≢ j
    apart e =
        let (_, _, a) = enumerate_from-get_or no_step 0 i s steps mi in
        let (_, _, b) = enumerate_from-get_or no_step 0 j t steps mj in
        let same : s ≡ t = sym a ∙ rw e b in absurd (irreflexive t.change.type (rw same at m.types))

    by : Reason s.change.type t.change.type → Edge (dependency_graph steps) i j
    by (by_dependency e d) =
        edge_by_dependency steps i j s t apart mi mj ("table:" <> s.change.table)
          (unfold step_of in rw (built i s mi) (table_provided s.change e m.named))
          (unfold step_of in
            rw (built j t mj) (rw m.same_table (d t.change refl (rw (← m.same_table) m.named))))
    by (by_creation e k) =
        edge_by_rule steps i j s t apart mi mj (i, s) mi
          (create_table-There steps i j s t apart mi mj e k (sym m.same_table))
    by (by_drop k e) =
        edge_by_rule steps i j s t apart mi mj (j, t) mj
          (drop_table-There steps i j s t apart mi mj e k m.same_table)
    by (by_alteration e k) =
        edge_by_rule steps i j s t apart mi mj (i, s) mi
          (drop_index-There steps i j s t apart mi mj e k (sym m.same_table))
