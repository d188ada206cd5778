-- ===== src/Migrate/Sqlgen/Postgres.antt =====
-- `PostgresMigrationGenerator` (migrate/sqlgen/postgres.go), as the generator that the planner uses.
use prisma_go.Base.{String, ◌<>◌, List, [], ◌∷◌, none, some, for_each, Unicode}
use prisma_go.Migrate.Schema.{CheckConstraint, Trigger, StoredProcedure, DatabaseSchema}
use prisma_go.Migrate.Flavour.{Result, ok, err}
use prisma_go.Migrate.Differ.{DiffResult, TableChange}
use prisma_go.Migrate.Planner.{MigrationGenerator}
use prisma_go.Migrate.Sqlgen.{lines, quoted, generate_create_table_from_table}
use prisma_go.Migrate.Sqlgen.Altering.{find_table, generate_alter_table}
use prisma_go.Migrate.Sqlgen.Reverting.{
  block_if, drop_table_sql, generate_rollback_sql_with_previous_schema,
}

-- The loop over the tables to create, which returns at the first that the schema does not have.
unfoldable pub create_tables : Unicode → DatabaseSchema → List TableChange → String → Result String
unfolding find_table generate_create_table_from_table
create_tables u db_schema [] sql = ok sql
create_tables u db_schema (change ∷ changes) sql = elim (find_table change.name db_schema.tables) [
  | none ↦ err ("table " <> (change.name <> " not found in target schema"))
  | some t ↦
      create_tables u db_schema changes (sql <> (generate_create_table_from_table u t <> "\n\n"))
]

unfoldable pub drop_table_warned : String → String
unfolding drop_table_sql
drop_table_warned name =
    lines (
      "-- WARNING: Dropping table '"
      ∷ name
      ∷ "' will delete all data!\n"
      ∷ drop_table_sql name
      ∷ [])

unfoldable pub preserved_constraint : CheckConstraint → String
unfolding quoted
preserved_constraint constraint = lines (
    "-- Preserving check constraint "
    ∷ constraint.name
    ∷ " on table "
    ∷ constraint.table_name
    ∷ "\n-- ALTER TABLE "
    ∷ quoted constraint.table_name
    ∷ " ADD CONSTRAINT "
    ∷ quoted constraint.name
    ∷ " CHECK ("
    ∷ constraint.definition
    ∷ ");\n\n"
    ∷ [])

unfoldable pub preserved_trigger : Trigger → String
preserved_trigger trigger = lines (
    "-- Preserving trigger " ∷ trigger.name ∷ " on table " ∷ trigger.table_name ∷ "\n-- "
    ∷ trigger.definition ∷ "\n\n" ∷ [])

unfoldable pub preserved_procedure : StoredProcedure → String
preserved_procedure proc =
    lines ("-- Preserving stored procedure " ∷ proc.name ∷ "\n-- " ∷ proc.definition ∷ "\n\n" ∷ [])

-- The part of the migration behind the tables to create.
unfoldable pub alter_and_drop : Unicode → DiffResult → DatabaseSchema → String → String
unfolding generate_alter_table block_if drop_table_warned preserved_constraint preserved_trigger
    preserved_procedure
alter_and_drop u diff db_schema created =
    let altered =
      for_each
        (λ (c : TableChange) sql. sql <> block_if (generate_alter_table u c (some db_schema)))
        diff.tables_to_alter created in
    let dropped =
      for_each (λ (c : TableChange) sql. sql <> drop_table_warned c.name) diff.tables_to_drop
        altered in
    let checked =
      for_each (λ (c : CheckConstraint) sql. sql <> preserved_constraint c)
        db_schema.check_constraints dropped in
    let triggered =
      for_each (λ (t : Trigger) sql. sql <> preserved_trigger t) db_schema.triggers checked in
    for_each (λ (p : StoredProcedure) sql. sql <> preserved_procedure p) db_schema.stored_procedures
      triggered

abbrev pub migration_header : String
migration_header =
    "-- Migration SQL generated by Prisma-Go\n-- WARNING: Review this SQL before running it!\n\n"

-- `GenerateMigrationSQL`, for a schema that is not nil, as the planner's is not.
unfoldable pub generate_migration_sql : Unicode → DiffResult → DatabaseSchema → Result String
unfolding create_tables alter_and_drop
generate_migration_sql u diff db_schema =
    elim (create_tables u db_schema diff.tables_to_create migration_header) [
      | err e ↦ err e
      | ok created ↦ ok (alter_and_drop u diff db_schema created)
    ]

-- `GenerateRollbackSQL`
unfoldable pub generate_rollback_sql : Unicode → DiffResult → DatabaseSchema → Result String
unfolding generate_rollback_sql_with_previous_schema
generate_rollback_sql u diff db_schema = ok (generate_rollback_sql_with_previous_schema u diff none)

-- `NewPostgresMigrationGenerator`
unfoldable pub postgres_migration_generator : Unicode → MigrationGenerator
unfolding generate_migration_sql generate_rollback_sql
postgres_migration_generator u = record {
  generate_migration_sql = generate_migration_sql u;
  generate_rollback_sql = generate_rollback_sql u;
}
