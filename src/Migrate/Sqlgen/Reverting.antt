-- ===== src/Migrate/Sqlgen/Reverting.antt =====
-- The rollback of PostgreSQL's generator (migrate/sqlgen/postgres.go): what undoes the changes of a
-- table, from the last to the first.
use prisma_go.Base.{
  if◌then◌else◌, Bool, String, ◌<>◌, str_eq, List, [], ◌∷◌, Option, none, some, for_each, Unicode,
}
use prisma_go.Migrate.Schema.{DatabaseSchema}
use prisma_go.Migrate.Change.{
  ChangeType, Change, ColumnMetadata, create_table, drop_table, alter_table, redefine_table,
  add_column, drop_column, alter_column, create_index, drop_index, rename_index, create_foreign_key,
  drop_foreign_key, rename_foreign_key,
}
use prisma_go.Migrate.Differ.{DiffResult, TableChange}
use prisma_go.Migrate.Sqlgen.{lines, quoted, generate_create_table_from_table}
use prisma_go.Migrate.Sqlgen.Altering.{
  alter_column_sql, add_column_sql, drop_column_sql, set_nullable_sql, drop_index_sql,
  rename_index_sql, drop_constraint_sql, rename_constraint_sql, find_table,
}

-- The column that was dropped, if its definition is known.
unfoldable pub restore_column_sql : Unicode → String → String → Option ColumnMetadata → String
unfolding add_column_sql
restore_column_sql u table column none =
    lines
      ("-- TODO: Add back dropped column " ∷ table ∷ "." ∷ column ∷ " (metadata missing)\n" ∷ [])
restore_column_sql u table column (some meta) = add_column_sql u table column (some meta)

unfoldable pub restore_nullable_sql : String → String → Option Bool → String
unfolding set_nullable_sql
restore_nullable_sql table column none = ""
restore_nullable_sql table column (some old) = set_nullable_sql table column old

unfoldable pub restore_type_sql : String → String → Option ColumnMetadata → String
unfolding alter_column_sql restore_nullable_sql
restore_type_sql table column none = ""
restore_type_sql table column (some meta) =
    if str_eq meta.old_type ""
    then ""
    else alter_column_sql table column ("TYPE " <> meta.old_type)
      <> restore_nullable_sql table column meta.old_nullable

-- What one round of the loop writes.
unfoldable pub rollback_sql : Unicode → String → ChangeType → Change → String
unfolding drop_column_sql restore_column_sql restore_type_sql drop_index_sql rename_index_sql
    drop_constraint_sql rename_constraint_sql quoted
rollback_sql u table add_column ch = drop_column_sql table ch.column
rollback_sql u table drop_column ch = restore_column_sql u table ch.column ch.column_metadata
rollback_sql u table alter_column ch = restore_type_sql table ch.column ch.column_metadata
rollback_sql u table create_index ch = drop_index_sql ch.index
rollback_sql u table drop_index ch = lines (
    "-- TODO: Recreate dropped index "
    ∷ ch.index
    ∷ " (requires schema history)\n-- CREATE INDEX "
    ∷ quoted ch.index
    ∷ " ON "
    ∷ quoted table
    ∷ " (...);\n"
    ∷ [])
rollback_sql u table rename_index ch = rename_index_sql ch.new_name ch.old_name
rollback_sql u table create_foreign_key ch = drop_constraint_sql table ch.index
rollback_sql u table drop_foreign_key ch = lines (
    "-- TODO: Recreate dropped foreign key "
    ∷ ch.index
    ∷ " (requires schema history)\n-- ALTER TABLE "
    ∷ quoted table
    ∷ " ADD CONSTRAINT "
    ∷ quoted ch.index
    ∷ " FOREIGN KEY (...) REFERENCES ...;\n"
    ∷ [])
rollback_sql u table rename_foreign_key ch = rename_constraint_sql table ch.new_name ch.old_name
rollback_sql u table create_table ch = ""
rollback_sql u table drop_table ch = ""
rollback_sql u table alter_table ch = ""
rollback_sql u table redefine_table ch = ""

-- The loop from the last index to the first.
unfoldable pub rollback_from_last : Unicode → String → List Change → String → String
unfolding rollback_sql
rollback_from_last u table [] sql = sql
rollback_from_last u table (ch ∷ changes) sql =
    rollback_from_last u table changes sql <> rollback_sql u table ch.type ch

-- `generateRollbackAlterTable`, which does not read the schema.
unfoldable pub generate_rollback_alter_table : Unicode → TableChange → String
unfolding rollback_from_last
generate_rollback_alter_table u change = rollback_from_last u change.name change.changes ""

-- A dropped table again, from the previous schema if it is there and has the table.
unfoldable pub placeholder_table : String → String
unfolding quoted
placeholder_table name = lines (
    "-- TODO: Recreate dropped table '"
    ∷ name
    ∷ "' (schema history not available)\n-- CREATE TABLE "
    ∷ quoted name
    ∷ " (...);\n\n"
    ∷ [])

unfoldable pub recreate_table : Unicode → Option DatabaseSchema → TableChange → String
unfolding generate_create_table_from_table find_table placeholder_table
recreate_table u none change = placeholder_table change.name
recreate_table u (some previous) change = elim (find_table change.name previous.tables) [
  | none ↦ placeholder_table change.name
  | some t ↦ generate_create_table_from_table u t <> "\n\n"
]

unfoldable pub block_if : String → String
block_if sql = if str_eq sql "" then "" else sql <> "\n\n"

unfoldable pub drop_table_sql : String → String
unfolding quoted
drop_table_sql name = lines ("DROP TABLE IF EXISTS " ∷ quoted name ∷ " CASCADE;\n\n" ∷ [])

-- `GenerateRollbackSQLWithPreviousSchema`, whose error is always nil.
unfoldable pub generate_rollback_sql_with_previous_schema :
    Unicode → DiffResult → Option DatabaseSchema → String
unfolding recreate_table generate_rollback_alter_table block_if drop_table_sql
generate_rollback_sql_with_previous_schema u diff previous =
    let header : String =
      "-- Rollback SQL generated by Prisma-Go\n-- WARNING: Review this SQL before running it!\n\n" in
    let recreated =
      for_each (λ (c : TableChange) sql. sql <> recreate_table u previous c) diff.tables_to_drop
        header in
    let reverted =
      for_each (λ (c : TableChange) sql. sql <> block_if (generate_rollback_alter_table u c))
        diff.tables_to_alter recreated in
    for_each (λ (c : TableChange) sql. sql <> drop_table_sql c.name) diff.tables_to_create reverted
