-- ===== src/Migrate/Tables/Refining.antt =====
-- The changes of columns against their specification (migrate/diff/table_differ.go).
use prisma_go.Base.{
  ◌≡◌, refl, sym, ap, ap₂, ◌∙◌, subst, ◌↔◌, ◌⊎◌, inl, inr, if◌then◌else◌, String, ◌<>◌, List, [],
  ◌∷◌, ◌++◌, append-nil, Option, none, some, arith, Runtime, IsRuntime, Dict, IsDict, entry, In,
  In-append_three, gather,
}
use prisma_go.Migrate.Schema.{Column, Table, DatabaseSchema}
use prisma_go.Migrate.Flavour.{DifferFlavour}
use prisma_go.Migrate.Change.{Change}
use prisma_go.Migrate.Columns.{all_column_changes, differs_in_something}
use prisma_go.Migrate.Database.{
  MigrationPair, created_of, dropped_of, column_pair_of, column_pairs, created_columns,
  dropped_columns, pairs_of_table, column_changes_of, has_both,
}
use prisma_go.Migrate.Database.Visiting.{In-gather_visited, visit-nil}
use prisma_go.Migrate.Database.Pairs.{pair_of, pair_of-parts}
use prisma_go.Migrate.Database.Rounds.{last_column, last_table}
use prisma_go.Migrate.Database.Built.{Says, changes_between}
use prisma_go.Migrate.Tables.{
  TableDiffer, add_column_change, drop_column_change, alter_column_change, altered_of,
  compare_columns,
}

module _ (r : Runtime) (td : TableDiffer) where
  -- The change of a column that the tables have under a name.
  pub column_change : DifferFlavour → String → Option Column → Option Column → List Change
  column_change f name none none = []
  column_change f name none (some next) = add_column_change td.next_table.name next ∷ []
  column_change f name (some prev) none = drop_column_change td.next_table.name prev ∷ []
  column_change f name (some prev) (some next) =
      let changes = all_column_changes r prev next f in
      if differs_in_something changes
      then alter_column_change r td name prev next changes ∷ []
      else []

  abbrev adds : List Column → List Change
  adds = gather (λ (col : Column). add_column_change td.next_table.name col ∷ [])

  abbrev drops : List Column → List Change
  drops = gather (λ (col : Column). drop_column_change td.next_table.name col ∷ [])

  altered-column_change :
      (f : DifferFlavour) (name : String) (prev next : Column)
      → column_changes_of td.next_table.name name td.db ≡ some (all_column_changes r prev next f)
      → altered_of r td (record {
        table_name = td.next_table.name;
        column_name = name;
        column = record { previous = some prev; next = some next };
      })
        ≡ column_change f name (some prev) (some next)
  unfolding column_change altered_of
  altered-column_change f name prev next h = rw (altered_of, h) refl

  -- What the three loops append for one pair of columns.
  of_one_pair :
      (f : DifferFlavour) (name : String) (prev next : Option Column) (c : Change)
      → column_changes_of td.next_table.name name td.db ≡ changes_between r f prev next
      → let e : String × MigrationPair Column = (name, record { previous = prev; next = next }) in
        (In c (adds (created_of r e))
          ⊎ In c (drops (dropped_of r e))
          ⊎ In c (gather (altered_of r td) (column_pair_of r td.next_table.name e)))
        ↔ In c (column_change f name prev next)
  unfolding column_change created_of dropped_of column_pair_of changes_between altered_of has_both
  of_one_pair f name none none c h = ground arith
  of_one_pair f name none (some next) c h = ground arith
  of_one_pair f name (some prev) none c h = ground arith
  of_one_pair f name (some prev) (some next) c h =
      let e = altered-column_change f name prev next h in
      (
        λ m. elim m [
          | inl m ↦ absurd m
          | inr m ↦ elim m [ inl m ↦ absurd m | inr m ↦ subst (In c) (append-nil _ ∙ e) m ]
        ],
        λ m. inr (inr (subst (In c) (sym (append-nil _ ∙ e)) m)),
      )

  pairs : Dict (MigrationPair Column)
  pairs = pairs_of_table r td.next_table.name td.db

  -- The three loops over the pairs of columns.
  of_pairs :
      (c : Change)
      → IsRuntime r
      → IsDict pairs
      → In c (compare_columns r td) ↔ (
          (name : String) × (p : MigrationPair Column) × (entry name pairs ≡ some p)
          × (In c (adds (created_of r (name, p)))
              ⊎ In c (drops (dropped_of r (name, p)))
              ⊎ In c (gather (altered_of r td) (column_pair_of r td.next_table.name (name, p)))))
  unfolding compare_columns created_columns dropped_columns column_pairs pairs
  of_pairs c go d =
      let table = td.next_table.name in
      let add : Column → List Change = λ col. add_column_change table col ∷ [] in
      let drop : Column → List Change = λ col. drop_column_change table col ∷ [] in
      let created =
        In-gather_visited r ("CreatedColumns of " <> table) (created_of r) add pairs c go d in
      let dropped =
        In-gather_visited r ("DroppedColumns of " <> table) (dropped_of r) drop pairs c go d in
      let altered =
        In-gather_visited r ("ColumnPairs of " <> table) (column_pair_of r table) (altered_of r td)
          pairs c go d in
      let three =
        In-append_three c (adds (created_columns r table td.db))
          (drops (dropped_columns r table td.db))
          (gather (altered_of r td) (column_pairs r table td.db)) in
      (
        λ m. elim (three.0 m) [
          | inl m ↦ let (k, p, e, i) = created.0 m in (k, p, e, inl i)
          | inr m ↦ elim m [
            | inl m ↦ let (k, p, e, i) = dropped.0 m in (k, p, e, inr (inl i))
            | inr m ↦ let (k, p, e, i) = altered.0 m in (k, p, e, inr (inr i))
          ]
        ],
        λ m. three.1 (elim m.3 [
          | inl i ↦ inl (created.1 (m.0, m.1, m.2, i))
          | inr i ↦ inr (elim i [
            | inl i ↦ inl (dropped.1 (m.0, m.1, m.2, i))
            | inr i ↦ inr (altered.1 (m.0, m.1, m.2, i))
          ])
        ]),
      )

  -- A name with a change has a pair.
  pair_of-some :
      (f : DifferFlavour) (name : String) (prev next : Option Column) (c : Change)
      → In c (column_change f name prev next)
      → pair_of r prev next ≡ some (record { previous = prev; next = next })
  unfolding column_change pair_of
  pair_of-some f name none none c m = absurd m
  pair_of-some f name none (some next) c m = refl
  pair_of-some f name (some prev) none c m = refl
  pair_of-some f name (some prev) (some next) c m = refl

  -- `compareColumns`, for two tables that the two schemas have under the name of the second:
  -- exactly the changes of the names of their columns, in whichever order the loops go through the
  -- maps. A name that only the second table has is added, one that only the first has is dropped,
  -- and one that both have is altered just when a change is detected.
  pub compare_columns-column_change :
      (f : DifferFlavour) (prev next : Option DatabaseSchema) (p n : Table) (c : Change)
      → IsRuntime r
      → Says r f prev next td.db
      → last_table r f td.next_table.name prev ≡ some p
      → last_table r f td.next_table.name next ≡ some n
      → In c (compare_columns r td)
        ↔ ((name : String) × In c (column_change f name (last_column name p) (last_column name n)))
  compare_columns-column_change f prev next p n c go says e h =
      let table = td.next_table.name in
      let loops = of_pairs c go (unfold pairs in says.columns_unique table) in
      (
        λ m.
            let (name, pair, i, parts) = loops.0 m in
            let (entry_of, changed) = says.columns table name p n e h in
            let same : pair ≡ record { previous = last_column name p; next = last_column name n } =
              pair_of-parts r (last_column name p) (last_column name n) pair
                (sym entry_of ∙ unfold pairs in i) in
            (
              name,
              (of_one_pair f name (last_column name p) (last_column name n) c changed).0 (
                  subst
                    (λ q.
                      In c (adds (created_of r (name, q)))
                      ⊎ In c (drops (dropped_of r (name, q)))
                      ⊎ In c (gather (altered_of r td) (column_pair_of r table (name, q))))
                    same parts),
            ),
        λ m.
            let (name, i) = m in
            let (entry_of, changed) = says.columns table name p n e h in
            loops.1 (
              name,
              record { previous = last_column name p; next = last_column name n },
              unfold pairs in
                  (entry_of ∙ pair_of-some f name (last_column name p) (last_column name n) c i),
              (of_one_pair f name (last_column name p) (last_column name n) c changed).1 i,
            ),
      )

  -- `compareColumns` finds no change at all where the previous schema has no table under the key
  -- that is the name of the new table as it is written. The keys are the names in lower case where
  -- the database lower-cases them.
  pub compare_columns-unkeyed :
      (f : DifferFlavour) (prev next : Option DatabaseSchema)
      → IsRuntime r
      → Says r f prev next td.db
      → last_table r f td.next_table.name prev ≡ none
      → compare_columns r td ≡ []
  unfolding compare_columns created_columns dropped_columns column_pairs
  compare_columns-unkeyed f prev next go says e =
      let table = td.next_table.name in
      let none_there : (loop : String) → r.visit loop (pairs_of_table r table td.db) ≡ [] =
        λ loop. ap (r.visit loop) (says.lone table e) ∙ visit-nil r loop go in
      ap₂ (λ x y. adds (gather (created_of r) x) ++ y) (none_there ("CreatedColumns of " <> table))
        (ap₂
          (λ x y.
            drops (gather (dropped_of r) x)
            ++ gather (altered_of r td) (gather (column_pair_of r table) y))
          (none_there ("DroppedColumns of " <> table)) (none_there ("ColumnPairs of " <> table)))
