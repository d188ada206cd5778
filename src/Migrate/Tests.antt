-- ===== src/Migrate/Tests.antt =====
-- Runs of the differ (migrate/diff/) and of the planner (migrate/planner/planner.go), and their
-- theorems at concrete schemas.

use prisma_go.Migrate.Fixtures.{
  sample_runtime, sample_runtime-IsRuntime, id_column, name_column, by_name, users, old_schema,
  new_schema, postgres_differ, mysql_differ,
}
use prisma_go.Base.{
  ◌≡◌, refl, sym, subst, ◌↔◌, true, false, String, List, [], ◌∷◌, Option, none, some, entry, put,
  In, gather,
}
use prisma_go.Migrate.Schema.{ForeignKey, DatabaseSchema}
use prisma_go.Migrate.Flavour.{DifferFlavour, ok, err, postgres_flavour, mysql_flavour, get_flavour}
use prisma_go.Migrate.Flavour.Matching.{IsByStructure, get_flavour-IsByStructure}
use prisma_go.Migrate.Change.{Change, type_name}
use prisma_go.Migrate.Columns.{defaults_match, all_column_changes, differs_in_something}
use prisma_go.Migrate.Columns.Detecting.{all_column_changes_iff}
use prisma_go.Migrate.Database.{DifferDatabase, keyed_table, new_differ_database}
use prisma_go.Migrate.Database.Rounds.{last_table, last_column}
use prisma_go.Migrate.Database.Built.{Says, new_differ_database-Says}
use prisma_go.Migrate.Tables.{TableDiffer, add_column_change, compare_columns}
use prisma_go.Migrate.Tables.Refining.{
  column_change, compare_columns-column_change, compare_columns-unkeyed,
}
use prisma_go.Migrate.Named.Comparing.{IsChange}
use prisma_go.Migrate.Keys.{
  index_map, foreign_key_map, create_index_change, drop_index_change, rename_index_change,
  create_foreign_key_change, drop_foreign_key_change, rename_foreign_key_change, compare_indexes,
  compare_foreign_keys,
}
use prisma_go.Migrate.Keys.Refining.{IsRenamedIndex, compare_indexes-IsChange, unchanged_indexes}
use prisma_go.Migrate.Keys.References.{IsRenamedForeignKey, compare_foreign_keys-IsChange}
use prisma_go.Migrate.Differ.{DiffResult, compare_schemas}
use prisma_go.Migrate.Differ.Complete.{IsFound, compare_schemas-IsFound}
use prisma_go.Migrate.Planner.{MigrationGenerator, Planner, plan_migration}
use prisma_go.Migrate.Planner.Steps.{planned, plan_migration-planned}

abbrev types_of : List Change → List String
types_of = gather (λ (c : Change). type_name c.type ∷ [])

abbrev types_found : Option DiffResult → List String
types_found none = []
types_found (some result) = types_of result.changes

-- The unchanged index is created and dropped, and the unchanged foreign key renamed to itself.
postgres_run :
    types_found (compare_schemas sample_runtime postgres_differ old_schema new_schema)
    ≡ "CreateTable" ∷ "AddColumn" ∷ "CreateIndex" ∷ "DropIndex" ∷ "RenameForeignKey" ∷ []
unfolding compare_schemas postgres_flavour
postgres_run = refl

-- With lower-cased names the new column is not found.
mysql_run :
    types_found (compare_schemas sample_runtime mysql_differ old_schema new_schema)
    ≡ "CreateTable" ∷ "CreateIndex" ∷ "DropIndex" ∷ "RenameForeignKey" ∷ []
unfolding compare_schemas mysql_flavour
mysql_run = refl

abbrev sample_db : DifferFlavour → DifferDatabase
sample_db f = new_differ_database sample_runtime old_schema new_schema f

-- The differ of the table that both schemas have.
abbrev users_differ : DifferFlavour → TableDiffer
users_differ f = record {
  prev_table = users (id_column ∷ []);
  next_table = users (id_column ∷ name_column ∷ []);
  db = sample_db f;
}

-- The flavour that the database of the differ has.
sample_db-IsByStructure : IsByStructure (sample_db postgres_flavour).flavour
sample_db-IsByStructure =
    subst IsByStructure
      (sym
        (new_differ_database-Says sample_runtime old_schema new_schema postgres_flavour
          sample_runtime-IsRuntime).flavour)
      (get_flavour-IsByStructure "postgres" postgres_flavour (unfold get_flavour in refl))

get_flavour-IsByStructure_example : IsByStructure postgres_flavour
unfolding get_flavour
get_flavour-IsByStructure_example = get_flavour-IsByStructure "postgres" postgres_flavour refl

all_column_changes_iff_example :
    (differs_in_something (all_column_changes sample_runtime id_column id_column postgres_flavour)
      ≡ false)
    ↔ ((id_column.type ≡ id_column.type)
        × (id_column.nullable ≡ id_column.nullable)
        × (defaults_match sample_runtime id_column id_column ≡ true)
        × (id_column.auto_increment ≡ id_column.auto_increment))
all_column_changes_iff_example =
    all_column_changes_iff sample_runtime id_column id_column postgres_flavour
      get_flavour-IsByStructure_example

new_differ_database-Says_example :
    Says sample_runtime postgres_flavour old_schema new_schema (sample_db postgres_flavour)
new_differ_database-Says_example =
    new_differ_database-Says sample_runtime old_schema new_schema postgres_flavour
      sample_runtime-IsRuntime

-- The added column.
abbrev added : Change
added = add_column_change "Users" name_column

compare_columns-column_change_example :
    In added (compare_columns sample_runtime (users_differ postgres_flavour)) ↔ (
      (name : String) × In added (
        column_change sample_runtime
          (users_differ postgres_flavour)
          postgres_flavour
          name
          (last_column name (users (id_column ∷ [])))
          (last_column name (users (id_column ∷ name_column ∷ [])))))
unfolding last_table keyed_table postgres_flavour
compare_columns-column_change_example =
    compare_columns-column_change sample_runtime (users_differ postgres_flavour) postgres_flavour
      old_schema new_schema (users (id_column ∷ [])) (users (id_column ∷ name_column ∷ [])) added
      sample_runtime-IsRuntime
      (new_differ_database-Says sample_runtime old_schema new_schema postgres_flavour
        sample_runtime-IsRuntime)
      refl refl

compare_columns-unkeyed_example : compare_columns sample_runtime (users_differ mysql_flavour) ≡ []
unfolding last_table keyed_table mysql_flavour
compare_columns-unkeyed_example =
    compare_columns-unkeyed sample_runtime (users_differ mysql_flavour) mysql_flavour old_schema
      new_schema sample_runtime-IsRuntime
      (new_differ_database-Says sample_runtime old_schema new_schema mysql_flavour
        sample_runtime-IsRuntime)
      refl

compare_indexes-IsChange_example :
    let td = users_differ postgres_flavour in
    In (drop_index_change "Users" "by_name") (compare_indexes sample_runtime td)
    ↔ IsChange
        (rename_index_change "Users")
        (create_index_change "Users")
        (λ name _. drop_index_change "Users" name)
        (index_map td.prev_table)
        (index_map td.next_table)
        (IsRenamedIndex sample_runtime td)
        (drop_index_change "Users" "by_name")
compare_indexes-IsChange_example =
    compare_indexes-IsChange sample_runtime (users_differ postgres_flavour)
      (drop_index_change "Users" "by_name") sample_runtime-IsRuntime sample_db-IsByStructure

unchanged_indexes_example :
    let td = users_differ postgres_flavour in
    In (create_index_change "Users" "by_name" by_name) (compare_indexes sample_runtime td)
    × In (drop_index_change "Users" "by_name") (compare_indexes sample_runtime td)
unfolding index_map entry put
unchanged_indexes_example =
    unchanged_indexes sample_runtime (users_differ postgres_flavour) "by_name" by_name
      sample_runtime-IsRuntime sample_db-IsByStructure refl refl

compare_foreign_keys-IsChange_example :
    let td = users_differ postgres_flavour in
    In (create_foreign_key_change "Users" "to_team") (compare_foreign_keys sample_runtime td)
    ↔ IsChange
        (rename_foreign_key_change "Users")
        (λ name (_ : ForeignKey). create_foreign_key_change "Users" name)
        (λ name _. drop_foreign_key_change "Users" name)
        (foreign_key_map td.prev_table)
        (foreign_key_map td.next_table)
        (IsRenamedForeignKey sample_runtime td)
        (create_foreign_key_change "Users" "to_team")
compare_foreign_keys-IsChange_example =
    compare_foreign_keys-IsChange sample_runtime (users_differ postgres_flavour)
      (create_foreign_key_change "Users" "to_team") sample_runtime-IsRuntime

compare_schemas-IsFound_example :
    (result : DiffResult) × (compare_schemas sample_runtime postgres_differ old_schema new_schema
      ≡ some result)
    × ((c : Change)
        → In c result.changes
          ↔ IsFound sample_runtime postgres_flavour old_schema new_schema
              (sample_db postgres_flavour)
              c)
compare_schemas-IsFound_example =
    compare_schemas-IsFound sample_runtime postgres_differ old_schema new_schema
      sample_runtime-IsRuntime

abbrev sample_generator : MigrationGenerator
sample_generator = record {
  generate_migration_sql = λ diff schema. ok "UP";
  generate_rollback_sql = λ diff schema. err "no";
}

abbrev sample_planner : Planner
sample_planner = record { provider = "postgres"; generator = sample_generator }

abbrev sample_diff : DiffResult
sample_diff = record {
  tables_to_create = [];
  tables_to_alter = [];
  tables_to_drop = [];
  changes = added ∷ [];
}

abbrev sample_schema : DatabaseSchema
sample_schema = record {
  tables = [];
  enums = [];
  views = [];
  sequences = [];
  check_constraints = [];
  triggers = [];
  stored_procedures = [];
}

plan_migration-planned_example :
    plan_migration sample_planner sample_diff "m" sample_schema
    ≡ planned (ok "UP") (err "no") "m" (added ∷ [])
plan_migration-planned_example = plan_migration-planned sample_planner sample_diff "m" sample_schema
