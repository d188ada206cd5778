-- ===== src/Migrate/Database/Built.antt =====
-- The database of a differ against its specification: for each name, what the two schemas have
-- under it last (migrate/diff/differ_database.go).
use prisma_go.Base.{
  ◌≡◌, refl, sym, ap, ap₂, subst, ◌∙◌, inl, inr, false, String, [], Option, none, some, arith,
  Option-cases, Runtime, IsRuntime, Dict, IsDict, entry, entry-nil, fill, under_key, at_entry,
  nil-IsDict, or_else, entry-fill_visited,
}
use prisma_go.Migrate.Schema.{Column, Table, DatabaseSchema}
use prisma_go.Migrate.Flavour.{DifferFlavour}
use prisma_go.Migrate.Columns.{ColumnChanges, all_column_changes}
use prisma_go.Migrate.Database.{
  MigrationPair, DifferDatabase, table_map, column_map, pair_up, changes_of_column, build_columns,
  build_tables, new_differ_database, or_empty, or_false, pairs_of_table, column_changes_of,
  should_redefine_table,
}
use prisma_go.Migrate.Database.Rounds.{
  last_column, or_else-none, last_table, table_map-IsDict, entry-table_map, column_map-IsDict,
  entry-column_map, columns_of, changes_of, loop-Rounds,
}
use prisma_go.Migrate.Database.Pairs.{pair_of, pair_up-IsDict, entry-pair_up}

not_redefined :
    (k : String) (db : DifferDatabase)
    → db.tables_to_redefine ≡ []
    → should_redefine_table k db ≡ false
unfolding should_redefine_table
not_redefined k db e = ap (λ m. or_false (entry k m)) e ∙ ap or_false (entry-nil k)

some_injective : {V : Type 0} {a b : V} → some a ≡ some b → a ≡ b
some_injective e = ground arith

module _ (r : Runtime) where
  -- The database before `buildColumns`.
  with_tables : Option DatabaseSchema → Option DatabaseSchema → DifferFlavour → DifferDatabase
  with_tables prev next f = record {
    flavour = f;
    prev_schema = prev;
    next_schema = next;
    tables = pair_up r "tables" (table_map r f prev) (table_map r f next);
    columns = [];
    column_changes = [];
    tables_to_redefine = [];
  }

  -- The changes of a column that both sides have.
  unfoldable pub changes_between :
      DifferFlavour → Option Column → Option Column → Option ColumnChanges
  changes_between f (some prev) (some next) = some (all_column_changes r prev next f)
  changes_between f (some prev) none = none
  changes_between f none next = none

  -- What the database says of the two schemas: each name of a table has a pair of what the schemas
  -- have under it last; each name of a column of a table that both have, what the tables have, with
  -- its changes if both have it; a table that only one of them has, no columns.
  pub record Says (f : DifferFlavour) (prev next : Option DatabaseSchema) (db : DifferDatabase)
      : Type 0 where
    pub flavour : db.flavour ≡ f
    pub tables :
        (k : String) → entry k db.tables ≡ pair_of r (last_table r f k prev) (last_table r f k next)
    pub tables_unique : IsDict db.tables
    pub columns :
        (k c : String) (p n : Table)
        → last_table r f k prev ≡ some p
        → last_table r f k next ≡ some n
        → (entry c (pairs_of_table r k db) ≡ pair_of r (last_column c p) (last_column c n))
          × (column_changes_of k c db ≡ changes_between f (last_column c p) (last_column c n))
    pub lone : (k : String) → last_table r f k prev ≡ none → pairs_of_table r k db ≡ []
    pub columns_unique : (k : String) → IsDict (pairs_of_table r k db)
    pub redefines : (k : String) → should_redefine_table k db ≡ false

  entry-with_tables :
      (k : String) (prev next : Option DatabaseSchema) (f : DifferFlavour)
      → IsRuntime r
      → entry k (with_tables prev next f).tables
        ≡ pair_of r (last_table r f k prev) (last_table r f k next)
  unfolding with_tables
  entry-with_tables k prev next f go =
      entry-pair_up r "tables" k (table_map r f prev) (table_map r f next) go
        (table_map-IsDict r f prev) (table_map-IsDict r f next)
      ∙ ap₂ (pair_of r) (entry-table_map r f k prev) (entry-table_map r f k next)

  -- The columns of a table, from the entry that it has.
  table_columns :
      (k : String) (prev next : Option DatabaseSchema) (f : DifferFlavour)
      → IsRuntime r
      → entry k (new_differ_database r prev next f).columns
        ≡ at_entry (columns_of r k) (pair_of r (last_table r f k prev) (last_table r f k next))
  unfolding new_differ_database build_columns build_tables with_tables
  table_columns k prev next f go =
      let db = with_tables prev next f in
      let visited = r.visit "buildColumns" db.tables in
      ap (entry k) (loop-Rounds r visited db).columns
      ∙ entry-fill_visited (columns_of r) k db.tables visited [] (pair_up-IsDict r "tables" _ _)
          (go.visits "buildColumns" db.tables)
      ∙ ap (or_else (at_entry (columns_of r k) (entry k db.tables))) (entry-nil k)
      ∙ or_else-none _
      ∙ ap (at_entry (columns_of r k)) (entry-with_tables k prev next f go)

  table_changes :
      (k : String) (prev next : Option DatabaseSchema) (f : DifferFlavour)
      → IsRuntime r
      → entry k (new_differ_database r prev next f).column_changes
        ≡ at_entry (changes_of r f k) (pair_of r (last_table r f k prev) (last_table r f k next))
  unfolding new_differ_database build_columns build_tables with_tables
  table_changes k prev next f go =
      let db = with_tables prev next f in
      let visited = r.visit "buildColumns" db.tables in
      ap (entry k) (loop-Rounds r visited db).changes
      ∙ entry-fill_visited (changes_of r f) k db.tables visited [] (pair_up-IsDict r "tables" _ _)
          (go.visits "buildColumns" db.tables)
      ∙ ap (or_else (at_entry (changes_of r f k) (entry k db.tables))) (entry-nil k)
      ∙ or_else-none _
      ∙ ap (at_entry (changes_of r f k)) (entry-with_tables k prev next f go)

  columns_of-IsDict :
      (k : String) (o : Option (MigrationPair Table)) (m : Dict (MigrationPair Column))
      → at_entry (columns_of r k) o ≡ some m
      → IsDict m
  unfolding columns_of
  columns_of-IsDict k none m e = absurd (ground arith)
  columns_of-IsDict k (some p) m e = stored p.previous p.next e
    where
      stored :
          (prev next : Option Table)
          → columns_of r k (record { previous = prev; next = next }) ≡ some m
          → IsDict m
      stored none next e = absurd (ground arith)
      stored (some prev) none e = absurd (ground arith)
      stored (some prev) (some next) e =
          subst IsDict (some_injective e)
            (pair_up-IsDict r _ (column_map r prev) (column_map r next))

  change_of_entry :
      (f : DifferFlavour) (nexts : Dict Column) (c : String) (o : Option Column)
      → at_entry (changes_of_column r f nexts c) o ≡ changes_between f o (entry c nexts)
  unfolding changes_of_column changes_between
  change_of_entry f nexts c none = refl
  change_of_entry f nexts c (some prev) = elim (Option-cases (entry c nexts)) [
    | inl e ↦ simp (e, changes_of_column, changes_between) refl
    | inr (next, e) ↦ simp (e, changes_of_column, changes_between) refl
  ]

  -- The changes of a column of two tables.
  entry-changes :
      (loop c : String) (p n : Table) (f : DifferFlavour)
      → IsRuntime r
      → entry c (
          fill
            (under_key (changes_of_column r f (column_map r n)))
            (r.visit loop (column_map r p))
            [])
        ≡ changes_between f (last_column c p) (last_column c n)
  entry-changes loop c p n f go =
      entry-fill_visited (changes_of_column r f (column_map r n)) c (column_map r p) _ []
        (column_map-IsDict r p) (go.visits loop (column_map r p))
      ∙ ap
          (or_else (at_entry (changes_of_column r f (column_map r n) c) (entry c (column_map r p))))
          (entry-nil c)
      ∙ or_else-none _
      ∙ change_of_entry f (column_map r n) c (entry c (column_map r p))
      ∙ ap₂ (changes_between f) (entry-column_map r c p) (entry-column_map r c n)

  -- What the database has of a table that both schemas have.
  built_columns :
      (k c : String) (prev next : Option DatabaseSchema) (f : DifferFlavour) (p n : Table)
      → IsRuntime r
      → last_table r f k prev ≡ some p
      → last_table r f k next ≡ some n
      → let db = new_differ_database r prev next f in
        (entry c (pairs_of_table r k db) ≡ pair_of r (last_column c p) (last_column c n))
        × (column_changes_of k c db ≡ changes_between f (last_column c p) (last_column c n))
  unfolding pair_of columns_of changes_of column_changes_of
  built_columns k c prev next f p n go e h = (
    ap (λ o. entry c (or_empty o))
          (table_columns k prev next f go ∙ ap (at_entry (columns_of r k)) (ap₂ (pair_of r) e h))
        ∙ entry-pair_up r _ c (column_map r p) (column_map r n) go (column_map-IsDict r p)
            (column_map-IsDict r n)
        ∙ ap₂ (pair_of r) (entry-column_map r c p) (entry-column_map r c n),
    ap (at_entry (entry c))
          (table_changes k prev next f go ∙ ap (at_entry (changes_of r f k)) (ap₂ (pair_of r) e h))
        ∙ entry-changes _ c p n f go,
  )

  no_columns : (k : String) (n : Option Table) → at_entry (columns_of r k) (pair_of r none n) ≡ none
  unfolding columns_of pair_of
  no_columns k none = refl
  no_columns k (some n) = refl

  lone_columns :
      (k : String) (prev next : Option DatabaseSchema) (f : DifferFlavour)
      → IsRuntime r
      → last_table r f k prev ≡ none
      → pairs_of_table r k (new_differ_database r prev next f) ≡ []
  lone_columns k prev next f go e = ap or_empty (
      table_columns k prev next f go
      ∙ ap (λ o. at_entry (columns_of r k) (pair_of r o (last_table r f k next))) e
      ∙ no_columns k (last_table r f k next))

  built_columns-IsDict :
      (k : String) (prev next : Option DatabaseSchema) (f : DifferFlavour)
      → IsRuntime r
      → IsDict (pairs_of_table r k (new_differ_database r prev next f))
  built_columns-IsDict k prev next f go =
      let o = pair_of r (last_table r f k prev) (last_table r f k next) in
      subst (λ m. IsDict (or_empty m)) (sym (table_columns k prev next f go))
        (elim (Option-cases (at_entry (columns_of r k) o)) [
          | inl e ↦ subst (λ m. IsDict (or_empty m)) (sym e) (nil-IsDict _)
          | inr (m, e) ↦ subst (λ m. IsDict (or_empty m)) (sym e) (columns_of-IsDict k o m e)
        ])

  -- `NewDifferDatabase` builds a database that says of two schemas what they say, in whichever
  -- order the loops go through the maps.
  pub new_differ_database-Says :
      (prev next : Option DatabaseSchema) (f : DifferFlavour)
      → IsRuntime r
      → Says f prev next (new_differ_database r prev next f)
  unfolding new_differ_database build_columns build_tables with_tables should_redefine_table
  new_differ_database-Says prev next f go =
      let before = with_tables prev next f in
      let visited = r.visit "buildColumns" before.tables in
      let rounds = loop-Rounds r visited before in
      record {
        flavour = rounds.flavour;
        tables = λ k. ap (entry k) rounds.tables ∙ entry-with_tables k prev next f go;
        tables_unique = subst IsDict (sym rounds.tables) (pair_up-IsDict r "tables" _ _);
        columns = λ k c p n e h. built_columns k c prev next f p n go e h;
        lone = λ k e. lone_columns k prev next f go e;
        columns_unique = λ k. built_columns-IsDict k prev next f go;
        redefines = λ k. not_redefined k (new_differ_database r prev next f) rounds.redefines;
      }
