-- ===== src/Migrate/Keys.antt =====
-- The changes of indexes, foreign keys and primary keys between two tables
-- (migrate/diff/table_differ.go), and all changes between them.
pub mod Refining
pub mod References
use prisma_go.Base.{
  ◌==◌, if◌then◌else◌, Bool, true, false, not, ◌&&◌, String, ◌<>◌, str_eq, List, [], ◌∷◌, ◌++◌,
  Option, none, some, length, for_each, gather, join, title, Runtime, Dict, entry, put, fill,
  under_key,
}
use prisma_go.Migrate.Schema.{Column, PrimaryKey, Index, ForeignKey, Table}
use prisma_go.Migrate.Flavour.{DifferFlavour, same_texts}
use prisma_go.Migrate.Change.{
  ChangeType, alter_column, add_column, drop_column, create_index, drop_index, rename_index,
  create_foreign_key, drop_foreign_key, rename_foreign_key, ColumnMetadata, Change,
}
use prisma_go.Migrate.Columns.{ColumnChanges, differs_in_something}
use prisma_go.Migrate.Tables.{zero_change, TableDiffer, compare_columns}
use prisma_go.Migrate.Named.{Renames, no_renames, find_pairs, both_named, compare_named}
use prisma_go.Migrate.Database.{
  DifferDatabase, ColumnPair, column_pairs, created_columns, dropped_columns, column_changes_of,
}

unfoldable pub find_index_pairs : Runtime → TableDiffer → Dict Index → Dict Index → Dict String
unfolding find_pairs
find_index_pairs r td prevs nexts =
    find_pairs r ("indexes of " <> td.next_table.name) td.db.flavour.indexes_match prevs nexts

unfoldable pub find_foreign_key_pairs :
    Runtime → TableDiffer → Dict ForeignKey → Dict ForeignKey → Dict String
unfolding find_pairs
find_foreign_key_pairs r td prevs nexts =
    find_pairs r ("foreign keys of " <> td.next_table.name) td.db.flavour.foreign_keys_match prevs
      nexts

unfoldable pub rename_index_change : String → String → String → Change
rename_index_change table_name prev_name next_name = record (zero_change rename_index table_name) {
  index = next_name;
  old_name = prev_name;
  new_name = next_name;
  description = "Rename index '" <> (prev_name <> ("' to '" <> (next_name <> "'")));
  is_safe = true;
}

unfoldable pub create_index_change : String → String → Index → Change
unfolding join
create_index_change table_name name idx = record (zero_change create_index table_name) {
  index = name;
  description =
      "Create index '"
      <> (name <> ("' on " <> (table_name <> ("(" <> (join ", " idx.columns <> ")")))));
  is_safe = true;
}

unfoldable pub drop_index_change : String → String → Change
drop_index_change table_name name = record (zero_change drop_index table_name) {
  index = name;
  description = "Drop index '" <> (name <> "'");
  is_safe = true;
}

unfoldable pub index_map : Table → Dict Index
index_map table = fill (λ (idx : Index). some (idx.name, idx)) table.indexes []

unfoldable pub foreign_key_map : Table → Dict ForeignKey
foreign_key_map table = fill (λ (fk : ForeignKey). some (fk.name, fk)) table.foreign_keys []

unfoldable pub compare_indexes : Runtime → TableDiffer → List Change
unfolding index_map find_index_pairs compare_named rename_index_change create_index_change
    drop_index_change entry
compare_indexes r td =
    let table_name = td.next_table.name in
    let f = td.db.flavour in
    let prevs = index_map td.prev_table in
    let nexts = index_map td.next_table in
    compare_named r ("compareIndexes of " <> table_name)
      (λ prev_name next_name.
        f.can_rename_index && both_named f.index_should_be_renamed prevs nexts prev_name next_name)
      (rename_index_change table_name) (create_index_change table_name)
      (λ name idx. drop_index_change table_name name) (find_index_pairs r td prevs nexts) prevs
      nexts

unfoldable pub rename_foreign_key_change : String → String → String → Change
rename_foreign_key_change table_name prev_name next_name =
    record (zero_change rename_foreign_key table_name) {
      old_name = prev_name;
      new_name = next_name;
      description = "Rename foreign key '" <> (prev_name <> ("' to '" <> (next_name <> "'")));
      is_safe = true;
    }

unfoldable pub create_foreign_key_change : String → String → Change
create_foreign_key_change table_name name = record (zero_change create_foreign_key table_name) {
  description = "Create foreign key '" <> (name <> "'");
  is_safe = true;
}

unfoldable pub drop_foreign_key_change : String → String → Change
drop_foreign_key_change table_name name = record (zero_change drop_foreign_key table_name) {
  description = "Drop foreign key '" <> (name <> "'");
  is_safe = false;
  warnings = "Dropping foreign key removes referential integrity" ∷ [];
}

unfoldable pub compare_foreign_keys : Runtime → TableDiffer → List Change
unfolding foreign_key_map find_foreign_key_pairs compare_named rename_foreign_key_change
    create_foreign_key_change drop_foreign_key_change entry
compare_foreign_keys r td =
    let table_name = td.next_table.name in
    let f = td.db.flavour in
    let prevs = foreign_key_map td.prev_table in
    let nexts = foreign_key_map td.next_table in
    compare_named r ("compareForeignKeys of " <> table_name)
      (λ prev_name next_name.
        f.can_rename_foreign_key && both_named f.foreign_keys_match prevs nexts prev_name next_name)
      (rename_foreign_key_change table_name) (λ name fk. create_foreign_key_change table_name name)
      (λ name fk. drop_foreign_key_change table_name name) (find_foreign_key_pairs r td prevs nexts)
      prevs nexts

unfoldable pub primary_keys_differ : Option PrimaryKey → Option PrimaryKey → Bool
unfolding same_texts
primary_keys_differ none none = false
primary_keys_differ none (some _) = true
primary_keys_differ (some _) none = true
primary_keys_differ (some prev_pk) (some next_pk) =
    if not (length prev_pk.columns == length next_pk.columns)
    then true
    else not (same_texts prev_pk.columns next_pk.columns)

unfoldable pub primary_key_changed : TableDiffer → Bool
unfolding primary_keys_differ
primary_key_changed td = primary_keys_differ td.prev_table.primary_key td.next_table.primary_key

unfoldable pub primary_key_change : String → Change
primary_key_change table_name = record (zero_change alter_column table_name) {
  description = "Primary key changed";
  is_safe = false;
  warnings = "Changing primary key may cause data loss" ∷ [];
}

unfoldable pub compare : Runtime → TableDiffer → List Change
unfolding compare_columns compare_indexes compare_foreign_keys primary_key_changed
    primary_key_change
compare r td =
    compare_columns r td
    ++ (compare_indexes r td
        ++ (compare_foreign_keys r td
            ++ (if primary_key_changed td then primary_key_change td.next_table.name ∷ [] else [])))
