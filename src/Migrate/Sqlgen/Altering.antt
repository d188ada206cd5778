-- ===== src/Migrate/Sqlgen/Altering.antt =====
-- `generateAlterTable` of PostgreSQL's generator (migrate/sqlgen/postgres.go). The schema is none
-- where the code's is nil. What the code writes to the builder for one change is one text here.
use prisma_go.Base.{
  if◌then◌else◌, Bool, not, ◌&&◌, String, ◌<>◌, str_eq, List, [], ◌∷◌, Option, none, some, for_each,
  Unicode,
}
use prisma_go.Migrate.Schema.{Index, ForeignKey, Table, DatabaseSchema}
use prisma_go.Migrate.Flavour.{bool_eq}
use prisma_go.Migrate.Change.{
  ChangeType, Change, ColumnMetadata, create_table, drop_table, alter_table, redefine_table,
  add_column, drop_column, alter_column, create_index, drop_index, rename_index, create_foreign_key,
  drop_foreign_key, rename_foreign_key,
}
use prisma_go.Migrate.Differ.{TableChange}
use prisma_go.Migrate.Sqlgen.{
  lines, quoted, quote_default_value, generate_column_definition_from_metadata,
  generate_create_index, generate_add_foreign_key,
}

-- `ALTER TABLE \"%s\" ALTER COLUMN \"%s\" …;`
unfoldable pub alter_column_sql : String → String → String → String
unfolding quoted
alter_column_sql table column what =
    lines
      ("ALTER TABLE " ∷ quoted table ∷ " ALTER COLUMN " ∷ quoted column ∷ " " ∷ what ∷ ";\n" ∷ [])

unfoldable pub add_column_sql : Unicode → String → String → Option ColumnMetadata → String
unfolding quoted generate_column_definition_from_metadata
add_column_sql u table column none =
    lines ("ALTER TABLE " ∷ quoted table ∷ " ADD COLUMN " ∷ quoted column ∷ " TEXT;\n" ∷ [])
add_column_sql u table column (some meta) = lines (
    "ALTER TABLE "
    ∷ quoted table
    ∷ " ADD COLUMN "
    ∷ quoted column
    ∷ " "
    ∷ generate_column_definition_from_metadata u meta
    ∷ ";\n"
    ∷ [])

unfoldable pub drop_column_sql : String → String → String
unfolding quoted
drop_column_sql table column =
    lines ("ALTER TABLE " ∷ quoted table ∷ " DROP COLUMN IF EXISTS " ∷ quoted column ∷ ";\n" ∷ [])

unfoldable pub type_sql : String → String → ColumnMetadata → String
unfolding alter_column_sql
type_sql table column meta =
    if not (str_eq meta.old_type "") && not (str_eq meta.old_type meta.type)
    then alter_column_sql table column ("TYPE " <> meta.type)
    else ""

-- The statement that makes a column nullable, or not.
unfoldable pub set_nullable_sql : String → String → Bool → String
unfolding alter_column_sql
set_nullable_sql table column nullable =
    alter_column_sql table column (if nullable then "DROP NOT NULL" else "SET NOT NULL")

unfoldable pub nullable_sql : String → String → Bool → Option Bool → String
unfolding set_nullable_sql
nullable_sql table column nullable none = ""
nullable_sql table column nullable (some old) =
    if bool_eq old nullable then "" else set_nullable_sql table column nullable

-- Without a new default there is a comment, if the old nullability is known.
unfoldable pub no_default_sql : String → String → Option Bool → String
unfolding alter_column_sql
no_default_sql table column none = ""
no_default_sql table column (some old) = "-- " <> alter_column_sql table column "DROP DEFAULT"

unfoldable pub default_sql :
    Unicode → String → String → String → Option Bool → Option String → String
unfolding alter_column_sql quote_default_value no_default_sql
default_sql u table column type old none = no_default_sql table column old
default_sql u table column type old (some value) =
    if str_eq value ""
    then no_default_sql table column old
    else alter_column_sql table column ("SET DEFAULT " <> quote_default_value u value type)

unfoldable pub altered_sql : Unicode → String → Change → Option ColumnMetadata → String
unfolding alter_column_sql type_sql nullable_sql default_sql
altered_sql u table ch (some meta) = lines (
    type_sql table ch.column meta
    ∷ nullable_sql table ch.column meta.nullable meta.old_nullable
    ∷ default_sql u table ch.column meta.type meta.old_nullable meta.default_value
    ∷ [])
altered_sql u table ch none =
    if str_eq ch.description ""
    then lines (
        "-- TODO: Column metadata missing, manual review required for " ∷ table ∷ "." ∷ ch.column
        ∷ "\n" ∷ [])
    else lines (
        "-- Column metadata missing, inferred from description: "
        ∷ ch.description
        ∷ "\n-- "
        ∷ alter_column_sql table ch.column "TYPE TEXT"
        ∷ [])

-- The first table of a name, and the first index and the first foreign key.
unfoldable pub find_table : String → List Table → Option Table
find_table name [] = none
find_table name (t ∷ ts) =
    let rest = find_table name ts in if str_eq t.name name then some t else rest

unfoldable pub find_index : String → List Index → Option Index
find_index name [] = none
find_index name (i ∷ is) =
    let rest = find_index name is in if str_eq i.name name then some i else rest

unfoldable pub find_foreign_key : String → List ForeignKey → Option ForeignKey
find_foreign_key name [] = none
find_foreign_key name (k ∷ ks) =
    let rest = find_foreign_key name ks in if str_eq k.name name then some k else rest

-- `!indexFound`
unfoldable pub index_fallback : String → Change → String
unfolding quoted
index_fallback table ch =
    if str_eq ch.column ""
    then lines ("-- TODO: Index " ∷ ch.index ∷ " definition not found in schema\n" ∷ [])
    else lines (
        "CREATE INDEX "
        ∷ quoted ch.index
        ∷ " ON "
        ∷ quoted table
        ∷ " ("
        ∷ quoted ch.column
        ∷ ");\n"
        ∷ [])

unfoldable pub create_index_sql : String → Change → Option DatabaseSchema → String
unfolding quoted find_table find_index index_fallback generate_create_index
create_index_sql table ch none =
    lines ("-- CREATE INDEX " ∷ quoted ch.index ∷ " ON " ∷ quoted table ∷ " (...);\n" ∷ [])
create_index_sql table ch (some db_schema) = elim (find_table table db_schema.tables) [
  | none ↦ index_fallback table ch
  | some t ↦ elim (find_index ch.index t.indexes) [
    | none ↦ index_fallback table ch
    | some idx ↦ generate_create_index table idx <> "\n"
  ]
]

-- The loop over the tables, which goes on behind the table of the name.
unfoldable pub foreign_key_of_tables : String → String → List Table → String
unfolding find_foreign_key generate_add_foreign_key
foreign_key_of_tables table name [] = ""
foreign_key_of_tables table name (t ∷ ts) =
    let rest = foreign_key_of_tables table name ts in
    let here : String = elim (find_foreign_key name t.foreign_keys) [
      | none ↦ ""
      | some fk ↦ generate_add_foreign_key table fk <> "\n"
    ] in
    if str_eq t.name table then here <> rest else rest

unfoldable pub create_foreign_key_sql : String → Change → Option DatabaseSchema → String
unfolding quoted foreign_key_of_tables
create_foreign_key_sql table ch none = lines (
    "-- ALTER TABLE "
    ∷ quoted table
    ∷ " ADD CONSTRAINT "
    ∷ quoted ch.index
    ∷ " FOREIGN KEY (...) REFERENCES ...;\n"
    ∷ [])
create_foreign_key_sql table ch (some db_schema) =
    foreign_key_of_tables table ch.index db_schema.tables

unfoldable pub drop_index_sql : String → String
unfolding quoted
drop_index_sql index = lines ("DROP INDEX IF EXISTS " ∷ quoted index ∷ ";\n" ∷ [])

unfoldable pub rename_index_sql : String → String → String
unfolding quoted
rename_index_sql from to =
    lines ("ALTER INDEX " ∷ quoted from ∷ " RENAME TO " ∷ quoted to ∷ ";\n" ∷ [])

unfoldable pub drop_constraint_sql : String → String → String
unfolding quoted
drop_constraint_sql table name =
    lines ("ALTER TABLE " ∷ quoted table ∷ " DROP CONSTRAINT IF EXISTS " ∷ quoted name ∷ ";\n" ∷ [])

unfoldable pub rename_constraint_sql : String → String → String → String
unfolding quoted
rename_constraint_sql table from to = lines (
    "ALTER TABLE "
    ∷ quoted table
    ∷ " RENAME CONSTRAINT "
    ∷ quoted from
    ∷ " TO "
    ∷ quoted to
    ∷ ";\n"
    ∷ [])

-- What one round of the loop writes.
unfoldable pub change_sql : Unicode → String → Option DatabaseSchema → ChangeType → Change → String
unfolding add_column_sql drop_column_sql altered_sql create_index_sql create_foreign_key_sql
    drop_index_sql rename_index_sql drop_constraint_sql rename_constraint_sql
change_sql u table db_schema add_column ch = lines (
    "-- Add column "
    ∷ table
    ∷ "."
    ∷ ch.column
    ∷ "\n"
    ∷ add_column_sql u table ch.column ch.column_metadata
    ∷ [])
change_sql u table db_schema drop_column ch = lines (
    "-- WARNING: Dropping column "
    ∷ table
    ∷ "."
    ∷ ch.column
    ∷ " will delete all data!\n"
    ∷ drop_column_sql table ch.column
    ∷ [])
change_sql u table db_schema alter_column ch = lines (
    "-- Alter column "
    ∷ table
    ∷ "."
    ∷ ch.column
    ∷ "\n-- "
    ∷ ch.description
    ∷ "\n"
    ∷ altered_sql u table ch ch.column_metadata
    ∷ [])
change_sql u table db_schema create_index ch =
    lines ("-- Create index " ∷ ch.index ∷ "\n" ∷ create_index_sql table ch db_schema ∷ [])
change_sql u table db_schema drop_index ch =
    lines ("-- Drop index " ∷ ch.index ∷ "\n" ∷ drop_index_sql ch.index ∷ [])
change_sql u table db_schema rename_index ch = lines (
    "-- Rename index "
    ∷ ch.old_name
    ∷ " to "
    ∷ ch.new_name
    ∷ "\n"
    ∷ rename_index_sql ch.old_name ch.new_name
    ∷ [])
change_sql u table db_schema create_foreign_key ch =
    lines
      ("-- Create foreign key " ∷ ch.index ∷ "\n" ∷ create_foreign_key_sql table ch db_schema ∷ [])
change_sql u table db_schema drop_foreign_key ch =
    lines ("-- Drop foreign key " ∷ ch.index ∷ "\n" ∷ drop_constraint_sql table ch.index ∷ [])
change_sql u table db_schema rename_foreign_key ch = lines (
    "-- Rename foreign key "
    ∷ ch.old_name
    ∷ " to "
    ∷ ch.new_name
    ∷ "\n"
    ∷ rename_constraint_sql table ch.old_name ch.new_name
    ∷ [])
change_sql u table db_schema create_table ch = ""
change_sql u table db_schema drop_table ch = ""
change_sql u table db_schema alter_table ch = ""
change_sql u table db_schema redefine_table ch = ""

-- `generateAlterTable`
unfoldable pub generate_alter_table : Unicode → TableChange → Option DatabaseSchema → String
unfolding change_sql
generate_alter_table u change db_schema =
    for_each (λ (ch : Change) sql. sql <> change_sql u change.name db_schema ch.type ch)
      change.changes ""
