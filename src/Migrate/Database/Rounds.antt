-- ===== src/Migrate/Database/Rounds.antt =====
-- What the loop of `buildColumns` does to a database, and what the maps of tables and columns have
-- under a name (migrate/diff/differ_database.go).
use prisma_go.Base.{
  ◌≡◌, refl, ap, ap₂, ◌∙◌, String, ◌<>◌, List, [], ◌∷◌, Option, none, some, Runtime, Dict, IsDict,
  entry, entry-nil, fill, under_key, last_under, entry-fill, fill-IsDict, nil-IsDict, for_each,
  or_else,
}
use prisma_go.Migrate.Schema.{Column, Table, DatabaseSchema}
use prisma_go.Migrate.Flavour.{DifferFlavour}
use prisma_go.Migrate.Columns.{ColumnChanges}
use prisma_go.Migrate.Database.{
  MigrationPair, DifferDatabase, keyed_table, table_map, column_map, pair_up, changes_of_column,
  build_table_columns, build_pair_columns,
}

-- The last column of a table with a name.
pub last_column : String → Table → Option Column
last_column k table = last_under (λ (col : Column). some (col.name, col)) k table.columns

pub or_else-none : {V : Type 0} (o : Option V) → or_else o none ≡ o
or_else-none none = refl
or_else-none (some v) = refl

module _ (r : Runtime) where
  -- The last table of a schema with a name, of those that are not ignored.
  unfoldable pub last_table : DifferFlavour → String → Option DatabaseSchema → Option Table
  last_table f k none = none
  last_table f k (some schema) = last_under (keyed_table r f) k schema.tables

  pub table_map-IsDict : (f : DifferFlavour) (s : Option DatabaseSchema) → IsDict (table_map r f s)
  unfolding table_map
  table_map-IsDict f none = nil-IsDict _
  table_map-IsDict f (some s) = fill-IsDict (keyed_table r f) s.tables [] (nil-IsDict _)

  pub entry-table_map :
      (f : DifferFlavour) (k : String) (s : Option DatabaseSchema)
      → entry k (table_map r f s) ≡ last_table f k s
  unfolding table_map last_table
  entry-table_map f k none = entry-nil k
  entry-table_map f k (some s) =
      entry-fill (keyed_table r f) k s.tables []
      ∙ ap (or_else (last_under (keyed_table r f) k s.tables)) (entry-nil k)
      ∙ or_else-none _

  pub column_map-IsDict : (t : Table) → IsDict (column_map r t)
  unfolding column_map
  column_map-IsDict t =
      fill-IsDict (λ (col : Column). some (col.name, col)) t.columns [] (nil-IsDict _)

  pub entry-column_map : (k : String) (t : Table) → entry k (column_map r t) ≡ last_column k t
  unfolding column_map last_column
  entry-column_map k t =
      let f : Column → Option (String × Column) = λ col. some (col.name, col) in
      entry-fill f k t.columns []
      ∙ ap (or_else (last_under f k t.columns)) (entry-nil k)
      ∙ or_else-none _

  -- What `buildColumns` stores for a pair of tables.
  unfoldable pub columns_of : String → MigrationPair Table → Option (Dict (MigrationPair Column))
  columns_of k p = elim p.previous [
    | none ↦ none
    | some prev ↦ elim p.next [
      | none ↦ none
      | some next ↦ some (pair_up r ("columns of " <> k) (column_map r prev) (column_map r next))
    ]
  ]

  unfoldable pub changes_of :
      DifferFlavour → String → MigrationPair Table → Option (Dict ColumnChanges)
  changes_of f k p = elim p.previous [
    | none ↦ none
    | some prev ↦ elim p.next [
      | none ↦ none
      | some next ↦ some (
          fill (under_key (changes_of_column r f (column_map r next)))
            (r.visit ("columns of " <> (k <> ": previous")) (column_map r prev)) [])
    ]
  ]

  -- What one round of `buildColumns` does to the parts of the database.
  pub record Rounds (es : List (String × MigrationPair Table)) (db after : DifferDatabase)
      : Type 0 where
    pub flavour : after.flavour ≡ db.flavour
    pub tables : after.tables ≡ db.tables
    pub columns : after.columns ≡ fill (under_key columns_of) es db.columns
    pub changes :
        after.column_changes ≡ fill (under_key (changes_of db.flavour)) es db.column_changes
    pub redefines : after.tables_to_redefine ≡ db.tables_to_redefine

  one_round :
      (k : String) (prev next : Option Table) (db : DifferDatabase)
      → let e : String × MigrationPair Table = (k, record { previous = prev; next = next }) in
        Rounds (e ∷ []) db (build_pair_columns r e db)
  unfolding build_pair_columns columns_of changes_of build_table_columns
  one_round k none next db = record {
    flavour = refl;
    tables = refl;
    columns = refl;
    changes = refl;
    redefines = refl;
  }
  one_round k (some prev) none db = record {
    flavour = refl;
    tables = refl;
    columns = refl;
    changes = refl;
    redefines = refl;
  }
  one_round k (some prev) (some next) db = record {
    flavour = refl;
    tables = refl;
    columns = refl;
    changes = refl;
    redefines = refl;
  }

  pub loop-Rounds :
      (es : List (String × MigrationPair Table)) (db : DifferDatabase)
      → Rounds es db (for_each (build_pair_columns r) es db)
  loop-Rounds [] db = record {
    flavour = refl;
    tables = refl;
    columns = refl;
    changes = refl;
    redefines = refl;
  }
  loop-Rounds (e ∷ es) db =
      let first = one_round e.0 e.1.previous e.1.next db in
      let rest = loop-Rounds es (build_pair_columns r e db) in
      record {
        flavour = rest.flavour ∙ first.flavour;
        tables = rest.tables ∙ first.tables;
        columns = rest.columns ∙ ap (fill (under_key columns_of) es) first.columns;
        changes =
            rest.changes
            ∙ ap₂ (λ f m. fill (under_key (changes_of f)) es m) first.flavour first.changes;
        redefines = rest.redefines ∙ first.redefines;
      }
