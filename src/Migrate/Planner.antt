-- ===== src/Migrate/Planner.antt =====
-- The planner of migrations (migrate/planner/planner.go). The generator of the SQL is used through
-- its interface (migrate/sqlgen/generator.go).
pub mod Steps
use prisma_go.Base.{
  ◌==◌, if◌then◌else◌, Bool, true, false, not, ltb, String, ◌<>◌, List, [], ◌∷◌, ◌++◌, length,
  for_each,
}
use prisma_go.Migrate.Schema.{DatabaseSchema}
use prisma_go.Migrate.Flavour.{Result, ok, err}
use prisma_go.Migrate.Change.{Change, type_name}
use prisma_go.Migrate.Differ.{DiffResult}

-- `MigrationGenerator`
pub record MigrationGenerator : Type 0 where
  pub generate_migration_sql : DiffResult → DatabaseSchema → Result String
  pub generate_rollback_sql : DiffResult → DatabaseSchema → Result String

pub record MigrationStep : Type 0 where
  pub type : String
  pub description : String
  pub sql : String
  pub rollback : String
  pub is_safe : Bool
  pub warnings : List String

pub record MigrationPlan : Type 0 where
  pub name : String
  pub steps : List MigrationStep
  pub is_safe : Bool
  pub warnings : List String

pub record Planner : Type 0 where
  pub provider : String
  pub generator : MigrationGenerator

-- `NewPlanner`, with `sqlgen.NewMigrationGenerator`.
unfoldable pub new_planner : (String → Result MigrationGenerator) → String → Result Planner
new_planner new_migration_generator provider = elim (new_migration_generator provider) [
  | err e ↦ err ("failed to create migration generator: " <> e)
  | ok generator ↦ ok (record { provider = provider; generator = generator })
]

-- The step for a change. The first one carries all of the SQL.
unfoldable pub step_for : String → String → List MigrationStep → Change → MigrationStep
unfolding type_name
step_for migration_sql rollback_sql steps change =
    let first = length steps == 0 in
    record {
      type = type_name change.type;
      description = change.description;
      sql = if first then migration_sql else "";
      rollback = if first then rollback_sql else "";
      is_safe = change.is_safe;
      warnings = change.warnings;
    }

-- One round of the loop over the changes.
unfoldable pub add_step : String → String → Change → MigrationPlan → MigrationPlan
unfolding step_for
add_step migration_sql rollback_sql change plan = record plan {
  steps = plan.steps ++ (step_for migration_sql rollback_sql plan.steps change ∷ []);
  is_safe = if not change.is_safe then false else plan.is_safe;
  warnings =
      if ltb 0 (length change.warnings) then plan.warnings ++ change.warnings else plan.warnings;
}

abbrev pub no_op : MigrationStep
no_op = record {
  type = "NoOp";
  description = "No changes detected";
  sql = "-- No changes to apply";
  rollback = "-- No changes to rollback";
  is_safe = true;
  warnings = [];
}

unfoldable pub add_no_op : MigrationPlan → MigrationPlan
add_no_op plan =
    if length plan.steps == 0 then record plan { steps = plan.steps ++ (no_op ∷ []) } else plan

-- `Plan`
unfoldable pub plan_migration :
    Planner → DiffResult → String → DatabaseSchema → Result MigrationPlan
unfolding add_step add_no_op
plan_migration p diff_result migration_name target_schema =
    elim (p.generator.generate_migration_sql diff_result target_schema) [
      | err e ↦ err ("failed to generate migration SQL: " <> e)
      | ok migration_sql ↦ elim (p.generator.generate_rollback_sql diff_result target_schema) [
        | err e ↦ err ("failed to generate rollback SQL: " <> e)
        | ok rollback_sql ↦ ok (
            add_no_op (
              for_each (add_step migration_sql rollback_sql) diff_result.changes
                (record { name = migration_name; steps = []; is_safe = true; warnings = [] })))
      ]
    ]
