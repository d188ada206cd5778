-- ===== src/Migrate/Sqlgen/Tests.antt =====
-- Runs of PostgreSQL's generator of migrations (migrate/sqlgen/postgres.go), and the theorems on
-- them.
use prisma_go.Base.{◌≡◌, refl, String, ◌<>◌, List, [], ◌∷◌, ◌++◌, some, join}
use prisma_go.Migrate.Schema.{DatabaseSchema}
use prisma_go.Migrate.Flavour.{ok}
use prisma_go.Migrate.Change.{Change, bare_change, add_column, rename_index}
use prisma_go.Migrate.Differ.{DiffResult, compare_schemas, table_change}
use prisma_go.Migrate.Planner.{Planner, plan_migration}
use prisma_go.Migrate.Planner.Steps.{planned}
use prisma_go.Migrate.Fixtures.{
  sample_unicode, sample_runtime, sample_runtime-IsRuntime, postgres_differ, old_schema, teams,
  users, id_column, name_column,
}
use prisma_go.Migrate.Sqlgen.{quote_default_value, is_expression, is_quoted}
use prisma_go.Migrate.Sqlgen.Altering.{generate_alter_table}
use prisma_go.Migrate.Sqlgen.Reverting.{generate_rollback_alter_table}
use prisma_go.Migrate.Sqlgen.Postgres.{generate_migration_sql, postgres_migration_generator}
use prisma_go.Migrate.Sqlgen.Quoting.{read_literal, read-quote_default_value}
use prisma_go.Migrate.Sqlgen.Outcomes.{Outcome, generate_migration_sql-Outcome}
use prisma_go.Migrate.Sqlgen.Succeeding.{plan_migration-succeeds}
use prisma_go.Migrate.Sqlgen.Changing.{change_text, undo_text}
use prisma_go.Migrate.Sqlgen.Undoing.{generate_alter_table-undone}

read-quote_default_value_example :
    read_literal (quote_default_value sample_unicode "it's" "TEXT") ≡ some "it's"
unfolding is_expression is_quoted
read-quote_default_value_example = read-quote_default_value sample_unicode "it's" "TEXT" refl refl

-- A value that is one quote is taken to be a literal.
lone_quote_run : quote_default_value sample_unicode "'" "TEXT" ≡ "'"
unfolding quote_default_value is_expression
lone_quote_run = refl

abbrev to_create : DiffResult
to_create = record {
  tables_to_create = table_change "posts" "CREATE" [] ∷ [];
  tables_to_alter = [];
  tables_to_drop = [];
  changes = [];
}

abbrev empty_schema : DatabaseSchema
empty_schema = record {
  tables = [];
  enums = [];
  views = [];
  sequences = [];
  check_constraints = [];
  triggers = [];
  stored_procedures = [];
}

generate_migration_sql-Outcome_example :
    Outcome empty_schema to_create.tables_to_create
      (generate_migration_sql sample_unicode to_create empty_schema)
generate_migration_sql-Outcome_example =
    generate_migration_sql-Outcome sample_unicode to_create empty_schema

abbrev added : List Change
added = record (bare_change add_column "users") { column = "age" } ∷ []

abbrev renamed : List Change
renamed = record (bare_change rename_index "users") { old_name = "a"; new_name = "b" } ∷ []

generate_alter_table-undone_example :
    (generate_alter_table sample_unicode
        (table_change "users" "ALTER" (added ++ renamed))
        (some empty_schema)
      ≡ "-- Add column users.age\nALTER TABLE \"users\" ADD COLUMN \"age\" TEXT;\n"
        <> "-- Rename index a to b\nALTER INDEX \"a\" RENAME TO \"b\";\n")
    × (generate_rollback_alter_table sample_unicode
          (table_change "users" "ALTER" (added ++ renamed))
        ≡ "ALTER INDEX \"b\" RENAME TO \"a\";\n"
          <> "ALTER TABLE \"users\" DROP COLUMN IF EXISTS \"age\";\n")
unfolding change_text undo_text join
generate_alter_table-undone_example =
    generate_alter_table-undone sample_unicode "users" "ALTER" (added ++ renamed)
      (some empty_schema)

abbrev target : DatabaseSchema
target = record empty_schema { tables = teams ∷ users (id_column ∷ name_column ∷ []) ∷ [] }

plan_migration-succeeds_example :
    let p : Planner = record {
      provider = "postgresql";
      generator = postgres_migration_generator sample_unicode;
    } in
    (diff : DiffResult) × (compare_schemas sample_runtime postgres_differ old_schema (some target)
      ≡ some diff)
    × (sql : String) × (rollback : String) × (plan_migration p diff "first" target
        ≡ planned (ok sql) (ok rollback) "first" diff.changes)
plan_migration-succeeds_example =
    plan_migration-succeeds sample_runtime sample_unicode "postgresql" "first" postgres_differ
      old_schema target sample_runtime-IsRuntime
