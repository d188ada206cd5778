-- ===== src/Migrate/Tables.antt =====
-- The changes of columns between two tables (migrate/diff/table_differ.go).
pub mod Refining
use prisma_go.Base.{
  ◌==◌, if◌then◌else◌, Bool, true, false, not, ◌&&◌, String, ◌<>◌, str_eq, List, [], ◌∷◌, ◌++◌,
  Option, none, some, length, for_each, gather, join, title, Runtime, Dict, entry, put, fill,
  under_key,
}
use prisma_go.Migrate.Schema.{Column, PrimaryKey, Index, ForeignKey, Table}
use prisma_go.Migrate.Flavour.{DifferFlavour, same_texts}
use prisma_go.Migrate.Change.{
  ChangeType, alter_column, add_column, drop_column, create_index, drop_index, rename_index,
  create_foreign_key, drop_foreign_key, rename_foreign_key, ColumnMetadata, Change,
}
use prisma_go.Migrate.Columns.{ColumnChanges, differs_in_something}
use prisma_go.Migrate.Database.{
  DifferDatabase, ColumnPair, column_pairs, created_columns, dropped_columns, column_changes_of,
}

-- A `Change` literal's type and table, every other field the zero value.
abbrev pub zero_change : ChangeType → String → Change
zero_change type table = record {
  type = type;
  table = table;
  column = "";
  index = "";
  description = "";
  sql = "";
  is_safe = false;
  warnings = [];
  column_metadata = none;
  old_name = "";
  new_name = "";
}

pub record TableDiffer : Type 0 where
  pub prev_table : Table
  pub next_table : Table
  pub db : DifferDatabase

unfoldable pub add_column_change : String → Column → Change
add_column_change table_name col = record (zero_change add_column table_name) {
  column = col.name;
  description = "Add column '" <> (table_name <> ("." <> (col.name <> ("' " <> col.type))));
  is_safe = true;
  column_metadata = some (record {
    type = col.type;
    nullable = col.nullable;
    default_value = col.default_value;
    auto_increment = col.auto_increment;
    old_type = "";
    old_nullable = none;
  });
}

unfoldable pub drop_column_change : String → Column → Change
drop_column_change table_name col = record (zero_change drop_column table_name) {
  column = col.name;
  description = "Drop column '" <> (table_name <> ("." <> (col.name <> "'")));
  is_safe = false;
  warnings = "Dropping column will delete all data in that column" ∷ [];
}

-- What `if b { parts = append(parts, s) }` appends.
abbrev pub text_if : Bool → String → List String
text_if b s = if b then s ∷ [] else []

unfoldable pub build_alter_column_description :
    Runtime → TableDiffer → Column → Column → ColumnChanges → String
unfolding title join
build_alter_column_description r td prev next changes =
    let parts =
      text_if changes.type_changed ("change type from " <> (prev.type <> (" to " <> next.type)))
      ++ (text_if changes.nullable_changed
            (if next.nullable then "make nullable" else "make required")
          ++ (text_if changes.default_changed (elim next.default_value [
            | some v ↦ "set default to " <> v
            | none ↦ "remove default"
          ])
              ++ text_if changes.auto_increment_changed (
                  if next.auto_increment
                  then "enable auto-increment"
                  else "disable auto-increment"))) in
    title r.unicode
      (join ", " parts <> (" column '" <> (td.next_table.name <> ("." <> (next.name <> "'")))))

unfoldable pub alter_column_change :
    Runtime → TableDiffer → String → Column → Column → ColumnChanges → Change
unfolding build_alter_column_description
alter_column_change r td column_name prev_col next_col col_changes =
    record (zero_change alter_column td.next_table.name) {
      column = column_name;
      description = build_alter_column_description r td prev_col next_col col_changes;
      is_safe = not col_changes.type_changed && next_col.nullable;
      column_metadata = some (record {
        type = next_col.type;
        nullable = next_col.nullable;
        default_value = next_col.default_value;
        auto_increment = next_col.auto_increment;
        old_type = prev_col.type;
        old_nullable = some prev_col.nullable;
      });
      warnings =
          text_if col_changes.type_changed "Changing column type may cause data loss"
          ++ text_if (col_changes.nullable_changed && not next_col.nullable)
              "Making column required may fail if NULL values exist";
    }

-- The change for a pair of columns, if they differ.
unfoldable pub altered_of : Runtime → TableDiffer → ColumnPair → List Change
unfolding column_changes_of differs_in_something alter_column_change
altered_of r td pair = elim (column_changes_of pair.table_name pair.column_name td.db) [
  | none ↦ []
  | some col_changes ↦ elim pair.column.previous [
    | none ↦ []
    | some prev_col ↦ elim pair.column.next [
      | none ↦ []
      | some next_col ↦
          if differs_in_something col_changes
          then alter_column_change r td pair.column_name prev_col next_col col_changes ∷ []
          else []
    ]
  ]
]

unfoldable pub compare_columns : Runtime → TableDiffer → List Change
unfolding add_column_change drop_column_change altered_of column_pairs created_columns
    dropped_columns
compare_columns r td =
    let table_name = td.next_table.name in
    gather (λ col. add_column_change table_name col ∷ []) (created_columns r table_name td.db)
    ++ (gather (λ col. drop_column_change table_name col ∷ []) (dropped_columns r table_name td.db)
        ++ gather (altered_of r td) (column_pairs r table_name td.db))
