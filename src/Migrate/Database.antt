-- ===== src/Migrate/Database.antt =====
-- The tables and columns of two schemas in pairs (migrate/diff/differ_database.go).
pub mod Pairs
pub mod Visiting
pub mod Rounds
pub mod Built
use prisma_go.Base.{
  if◌then◌else◌, Bool, true, false, not, ◌&&◌, String, ◌<>◌, List, [], ◌∷◌, ◌++◌, Option, none,
  some, lower_text, text_lt, Runtime, Dict, entry, put, for_each, fill, under_key, gather,
}
use prisma_go.Migrate.Schema.{Column, Table, DatabaseSchema}
use prisma_go.Migrate.Flavour.{DifferFlavour}
use prisma_go.Migrate.Columns.{ColumnChanges, all_column_changes}

-- A pair of pointers to the element of the previous and of the next schema.
pub record MigrationPair (T : Type 0) : Type 0 where
  pub previous : Option T
  pub next : Option T

unfoldable pub new_migration_pair : {T : Type 0} → Option T → Option T → MigrationPair T
new_migration_pair previous next = record { previous = previous; next = next }

-- A map that may be missing, as an empty one.
abbrev pub or_empty : {V : Type 0} → Option (Dict V) → Dict V
or_empty none = []
or_empty (some m) = m

-- The value that a map has for a key, `false` where it has none.
abbrev pub or_false : Option Bool → Bool
or_false none = false
or_false (some b) = b

-- A pointer is not nil.
abbrev pub is_some : {T : Type 0} → Option T → Bool
is_some none = false
is_some (some _) = true

unfoldable pub has_both : {T : Type 0} → MigrationPair T → Bool
has_both p = is_some p.previous && is_some p.next

unfoldable pub has_previous : {T : Type 0} → MigrationPair T → Bool
has_previous p = is_some p.previous

unfoldable pub has_next : {T : Type 0} → MigrationPair T → Bool
has_next p = is_some p.next

pub record DifferDatabase : Type 0 where
  pub flavour : DifferFlavour
  pub prev_schema : Option DatabaseSchema
  pub next_schema : Option DatabaseSchema
  pub tables : Dict (MigrationPair Table)
  pub columns : Dict (Dict (MigrationPair Column))
  pub column_changes : Dict (Dict ColumnChanges)
  pub tables_to_redefine : Dict Bool

pub record TablePair : Type 0 where
  pub name : String
  pub table : MigrationPair Table

pub record ColumnPair : Type 0 where
  pub table_name : String
  pub column_name : String
  pub column : MigrationPair Column

module _ (r : Runtime) where
  unfoldable pub normalize_table_name : DifferFlavour → String → String
  unfolding lower_text
  normalize_table_name f name =
      if f.lower_cases_table_names then lower_text r.unicode name else name

  -- The table under its key, unless it is ignored.
  unfoldable pub keyed_table : DifferFlavour → Table → Option (String × Table)
  unfolding normalize_table_name
  keyed_table f table =
      let table_name = normalize_table_name f table.name in
      if f.table_should_be_ignored table_name then none else some (table_name, table)

  -- The map of a schema's tables.
  unfoldable pub table_map : DifferFlavour → Option DatabaseSchema → Dict Table
  unfolding keyed_table
  table_map f none = []
  table_map f (some schema) = fill (keyed_table f) schema.tables []

  -- The two loops that join two maps by their keys.
  unfoldable pub both_sides : {T : Type 0} → Dict T → String → T → Option (MigrationPair T)
  unfolding entry new_migration_pair
  both_sides nexts name prev = some (new_migration_pair (some prev) (entry name nexts))

  unfoldable pub next_side : {T : Type 0} → Dict T → String → T → Option (MigrationPair T)
  unfolding entry new_migration_pair
  next_side prevs name next =
      if is_some (entry name prevs) then none else some (new_migration_pair none (some next))

  unfoldable pub pair_up : {T : Type 0} → String → Dict T → Dict T → Dict (MigrationPair T)
  unfolding both_sides next_side
  pair_up loop prevs nexts =
      fill (under_key (next_side prevs)) (r.visit (loop <> ": next") nexts)
        (fill (under_key (both_sides nexts)) (r.visit (loop <> ": previous") prevs) [])

  unfoldable pub build_tables : DifferDatabase → DifferDatabase
  unfolding table_map pair_up
  build_tables db =
      let prev_tables = table_map db.flavour db.prev_schema in
      let next_tables = table_map db.flavour db.next_schema in
      record db { tables = pair_up "tables" prev_tables next_tables }

  -- The map of a table's columns.
  unfoldable pub column_map : Table → Dict Column
  column_map table = fill (λ (col : Column). some (col.name, col)) table.columns []

  -- The changes of a column that both tables have.
  unfoldable pub changes_of_column :
      DifferFlavour → Dict Column → String → Column → Option ColumnChanges
  unfolding entry all_column_changes
  changes_of_column f next_columns col_name prev_col = elim (entry col_name next_columns) [
    | none ↦ none
    | some next_col ↦ some (all_column_changes r prev_col next_col f)
  ]

  -- `buildColumns` for a table of both schemas.
  unfoldable pub build_table_columns : String → Table → Table → DifferDatabase → DifferDatabase
  unfolding column_map pair_up changes_of_column put
  build_table_columns table_name prev_table next_table db =
      let prev_columns = column_map prev_table in
      let next_columns = column_map next_table in
      let pairs = pair_up ("columns of " <> table_name) prev_columns next_columns in
      let changes =
        fill (under_key (changes_of_column db.flavour next_columns))
          (r.visit ("columns of " <> table_name <> ": previous") prev_columns) [] in
      record db {
        columns = put table_name pairs db.columns;
        column_changes = put table_name changes db.column_changes;
      }

  unfoldable pub build_pair_columns : String × MigrationPair Table → DifferDatabase → DifferDatabase
  unfolding build_table_columns
  build_pair_columns (table_name, p) db = elim p.previous [
    | none ↦ db
    | some prev_table ↦ elim p.next [
      | none ↦ db
      | some next_table ↦ build_table_columns table_name prev_table next_table db
    ]
  ]

  unfoldable pub build_columns : DifferDatabase → DifferDatabase
  unfolding build_pair_columns
  build_columns db = for_each build_pair_columns (r.visit "buildColumns" db.tables) db

  unfoldable pub new_differ_database :
      Option DatabaseSchema → Option DatabaseSchema → DifferFlavour → DifferDatabase
  unfolding build_tables build_columns
  new_differ_database prev_schema next_schema f = build_columns (
      build_tables (record {
        flavour = f;
        prev_schema = prev_schema;
        next_schema = next_schema;
        tables = [];
        columns = [];
        column_changes = [];
        tables_to_redefine = [];
      }))

  -- What the loops of `CreatedTables`, `DroppedTables` and `TablePairs`, and of the same for
  -- columns, append for a pair.
  unfoldable pub created_of : {T : Type 0} → String × MigrationPair T → List T
  created_of (name, p) = elim p.next [
    | none ↦ []
    | some t ↦ if is_some p.previous then [] else t ∷ []
  ]

  unfoldable pub dropped_of : {T : Type 0} → String × MigrationPair T → List T
  dropped_of (name, p) = elim p.previous [
    | none ↦ []
    | some t ↦ if is_some p.next then [] else t ∷ []
  ]

  unfoldable pub created_tables : DifferDatabase → List Table
  unfolding created_of
  created_tables db = gather created_of (r.visit "CreatedTables" db.tables)

  unfoldable pub dropped_tables : DifferDatabase → List Table
  unfolding dropped_of
  dropped_tables db = gather dropped_of (r.visit "DroppedTables" db.tables)

  unfoldable pub table_pair_of : String × MigrationPair Table → List TablePair
  unfolding has_both
  table_pair_of (table_name, p) =
      if has_both p then record { name = table_name; table = p } ∷ [] else []

  -- `sort.Slice` by the name. Any sort gives the same, as the names differ.
  unfoldable pub insert_by_name : TablePair → List TablePair → List TablePair
  unfolding text_lt
  insert_by_name p [] = p ∷ []
  insert_by_name p (q ∷ qs) =
      let rest = insert_by_name p qs in if text_lt q.name p.name then q ∷ rest else p ∷ (q ∷ qs)

  unfoldable pub sort_by_name : List TablePair → List TablePair
  unfolding insert_by_name
  sort_by_name [] = []
  sort_by_name (p ∷ ps) = insert_by_name p (sort_by_name ps)

  unfoldable pub table_pairs : DifferDatabase → List TablePair
  unfolding table_pair_of sort_by_name
  table_pairs db = sort_by_name (gather table_pair_of (r.visit "TablePairs" db.tables))

  unfoldable pub column_pair_of : String → String × MigrationPair Column → List ColumnPair
  unfolding has_both
  column_pair_of table_name (col_name, p) =
      if has_both p
      then record { table_name = table_name; column_name = col_name; column = p } ∷ []
      else []

  -- The pairs of a table's columns. A missing key has no pairs.
  abbrev pub pairs_of_table : String → DifferDatabase → Dict (MigrationPair Column)
  pairs_of_table table_name db = or_empty (entry table_name db.columns)

  unfoldable pub column_pairs : String → DifferDatabase → List ColumnPair
  unfolding column_pair_of
  column_pairs table_name db =
      gather (column_pair_of table_name)
        (r.visit ("ColumnPairs of " <> table_name) (pairs_of_table table_name db))

  unfoldable pub created_columns : String → DifferDatabase → List Column
  unfolding created_of
  created_columns table_name db =
      gather created_of
        (r.visit ("CreatedColumns of " <> table_name) (pairs_of_table table_name db))

  unfoldable pub dropped_columns : String → DifferDatabase → List Column
  unfolding dropped_of
  dropped_columns table_name db =
      gather dropped_of
        (r.visit ("DroppedColumns of " <> table_name) (pairs_of_table table_name db))

unfoldable pub column_changes_of : String → String → DifferDatabase → Option ColumnChanges
unfolding entry
column_changes_of table_name column_name db = elim (entry table_name db.column_changes) [
  | none ↦ none
  | some changes ↦ entry column_name changes
]

unfoldable pub set_table_to_redefine : String → DifferDatabase → DifferDatabase
unfolding put
set_table_to_redefine table_name db = record db {
  tables_to_redefine = put table_name true db.tables_to_redefine;
}

unfoldable pub should_redefine_table : String → DifferDatabase → Bool
unfolding entry
should_redefine_table table_name db = or_false (entry table_name db.tables_to_redefine)
