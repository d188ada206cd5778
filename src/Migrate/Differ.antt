-- ===== src/Migrate/Differ.antt =====
-- The differ (migrate/diff/differ.go): the changes between two schemas, in their order.

pub mod Complete
use mathlib.Core.Option
use prisma_go.Base.{
  if◌then◌else◌, Bool, true, false, String, ◌<>◌, List, [], ◌∷◌, ◌++◌, Option, none, some, Runtime,
  for_each,
}
use prisma_go.Migrate.Schema.{Table, DatabaseSchema}
use prisma_go.Migrate.Flavour.{DifferFlavour, Result, ok, err, get_flavour}
use prisma_go.Migrate.Change.{create_table, drop_table, redefine_table, Change}
use prisma_go.Migrate.Database.{
  DifferDatabase, TablePair, new_differ_database, created_tables, dropped_tables, table_pairs,
  should_redefine_table,
}
use prisma_go.Migrate.Tables.{zero_change}
use prisma_go.Migrate.Keys.{compare}
use prisma_go.Migrate.Ordering.{order_changes}

-- A change of a table. The field `Model`, which nothing sets or reads, is left out.
pub record TableChange : Type 0 where
  pub name : String
  pub action : String
  pub changes : List Change

pub record DiffResult : Type 0 where
  pub tables_to_create : List TableChange
  pub tables_to_alter : List TableChange
  pub tables_to_drop : List TableChange
  pub changes : List Change

pub record Differ : Type 0 where
  pub provider : String
  pub flavour : DifferFlavour

unfoldable pub new_differ : String → Result Differ
unfolding get_flavour
new_differ provider = elim (get_flavour provider) [
  | err e ↦ err e
  | ok f ↦ ok (record { provider = provider; flavour = f })
]

unfoldable pub create_table_change : String → Change
create_table_change name = record (zero_change create_table name) {
  description = "Create table '" <> (name <> "'");
  is_safe = true;
}

unfoldable pub drop_table_change : String → Change
drop_table_change name = record (zero_change drop_table name) {
  description = "Drop table '" <> (name <> "'");
  is_safe = false;
  warnings = "Dropping table will delete all data" ∷ [];
}

unfoldable pub redefine_table_change : String → Change
redefine_table_change name = record (zero_change redefine_table name) {
  description = "Redefine table '" <> (name <> "' (requires drop and recreate)");
  is_safe = false;
  warnings = "Table redefinition will delete all data" ∷ [];
}

abbrev pub table_change : String → String → List Change → TableChange
table_change name action changes = record { name = name; action = action; changes = changes }

unfoldable pub add_created : Table → DiffResult → DiffResult
unfolding create_table_change
add_created table result = record result {
  tables_to_create = result.tables_to_create ++ (table_change table.name "CREATE" [] ∷ []);
  changes = result.changes ++ (create_table_change table.name ∷ []);
}

unfoldable pub add_dropped : Table → DiffResult → DiffResult
unfolding drop_table_change
add_dropped table result = record result {
  tables_to_drop = result.tables_to_drop ++ (table_change table.name "DROP" [] ∷ []);
  changes = result.changes ++ (drop_table_change table.name ∷ []);
}

-- What `if len(changes) > 0 { … }` does to the result.
unfoldable pub add_altered_if : String → List Change → DiffResult → DiffResult
add_altered_if table_name [] result = result
add_altered_if table_name (c ∷ changes) result = record result {
  tables_to_alter = result.tables_to_alter ++ (table_change table_name "ALTER" (c ∷ changes) ∷ []);
  changes = result.changes ++ (c ∷ changes);
}

unfoldable pub add_altered : Runtime → DifferDatabase → TablePair → DiffResult → DiffResult
unfolding should_redefine_table redefine_table_change compare add_altered_if
add_altered r db pair result = elim pair.table.previous [
  | none ↦ result
  | some prev_table ↦ elim pair.table.next [
    | none ↦ result
    | some next_table ↦
        if should_redefine_table pair.name db
        then record result {
          tables_to_alter = result.tables_to_alter ++ (table_change pair.name "REDEFINE" [] ∷ []);
          changes = result.changes ++ (redefine_table_change pair.name ∷ []);
        }
        else add_altered_if pair.name
            (compare r (record { prev_table = prev_table; next_table = next_table; db = db }))
            result
  ]
]

-- The result before `OrderChanges`.
unfoldable pub collect_changes : Runtime → DifferDatabase → DiffResult
unfolding add_created add_dropped add_altered created_tables dropped_tables table_pairs
collect_changes r db = for_each (add_altered r db) (table_pairs r db) (
    for_each add_dropped (dropped_tables r db) (
      for_each add_created (created_tables r db) (record {
        tables_to_create = [];
        tables_to_alter = [];
        tables_to_drop = [];
        changes = [];
      })))

-- `OrderChanges` runs on fuel, which it is shown to have enough of.
unfoldable pub compare_schemas :
    Runtime → Differ → Option DatabaseSchema → Option DatabaseSchema → Option DiffResult
unfolding new_differ_database collect_changes order_changes
compare_schemas r d source target =
    let result = collect_changes r (new_differ_database r source target d.flavour) in
    Option.map (λ changes. record result { changes = changes }) (order_changes result.changes)
