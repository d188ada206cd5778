-- ===== src/Migrate/Sqlgen/Actions.antt =====
-- What the migrations of PostgreSQL's generator (migrate/sqlgen/postgres.go) do to a table, and their
-- texts: the specification of the loops over the changes, which uses nothing of their code but the
-- definition of a column and the literal of a default.
use prisma_go.Base.{
  Bool, true, false, String, ◌<>◌, str_eq, if◌then◌else◌, List, [], ◌∷◌, map, Option, none, some,
  Unicode, join,
}
use prisma_go.Migrate.Schema.{Index, ForeignKey}
use prisma_go.Migrate.Change.{
  ChangeType, Change, ColumnMetadata, create_table, drop_table, alter_table, redefine_table,
  add_column, drop_column, alter_column, create_index, drop_index, rename_index, create_foreign_key,
  drop_foreign_key, rename_foreign_key,
}
use prisma_go.Migrate.Sqlgen.{generate_column_definition_from_metadata}

pub data Action : Type 0 where
  adds : String → String → Action
  drops : String → Action
  drops_index : String → Action
  renames_index : String → String → Action
  drops_constraint : String → Action
  renames_constraint : String → String → Action
  sets_type : String → String → Action
  sets_nullable : String → Bool → Action
  sets_default : String → String → Action
  creates_index : Index → Action
  adds_foreign_key : ForeignKey → Action

-- What undoes an action, where no more than its names is needed for that.
abbrev pub inverse : Action → List Action
inverse (adds column definition) = drops column ∷ []
inverse (renames_index from to) = renames_index to from ∷ []
inverse (renames_constraint from to) = renames_constraint to from ∷ []
inverse (drops column) = []
inverse (drops_index name) = []
inverse (drops_constraint name) = []
inverse (sets_type column type) = []
inverse (sets_nullable column nullable) = []
inverse (sets_default column value) = []
inverse (creates_index index) = drops_index index.name ∷ []
inverse (adds_foreign_key key) = drops_constraint key.name ∷ []

abbrev pub name_text : String → String
name_text name = "\"" <> (name <> "\"")

abbrev pub column_text : String → String → String → String
column_text table column what = join "" (
    "ALTER TABLE "
    ∷ name_text table
    ∷ " ALTER COLUMN "
    ∷ name_text column
    ∷ " "
    ∷ what
    ∷ ";\n"
    ∷ [])

abbrev pub names_text : List String → String
names_text names = join ", " (map name_text names)

abbrev pub index_text : String → Index → String
index_text table index =
    join "" (
      "CREATE "
      ∷ (if index.is_unique then "UNIQUE " else "")
      ∷ "INDEX "
      ∷ name_text index.name
      ∷ " ON "
      ∷ name_text table
      ∷ " ("
      ∷ names_text index.columns
      ∷ ");"
      ∷ [])
    <> "\n"

-- What to do with the references to a row, if anything is said of it.
abbrev pub reference_text : String → String → String
reference_text keyword action =
    if str_eq action "" then "" else if str_eq action "NO ACTION" then "" else keyword <> action

abbrev pub foreign_key_text : String → ForeignKey → String
foreign_key_text table key =
    join "" (
      "ALTER TABLE "
      ∷ name_text table
      ∷ " ADD CONSTRAINT "
      ∷ name_text key.name
      ∷ " FOREIGN KEY ("
      ∷ names_text key.columns
      ∷ ") REFERENCES "
      ∷ name_text key.referenced_table
      ∷ " ("
      ∷ names_text key.referenced_columns
      ∷ ")"
      ∷ reference_text " ON UPDATE " key.on_update
      ∷ reference_text " ON DELETE " key.on_delete
      ∷ ";"
      ∷ [])
    <> "\n"

-- The statement of an action on a table.
abbrev pub action_text : String → Action → String
action_text table (adds column definition) = join "" (
    "ALTER TABLE "
    ∷ name_text table
    ∷ " ADD COLUMN "
    ∷ name_text column
    ∷ " "
    ∷ definition
    ∷ ";\n"
    ∷ [])
action_text table (drops column) =
    join ""
      ("ALTER TABLE " ∷ name_text table ∷ " DROP COLUMN IF EXISTS " ∷ name_text column ∷ ";\n" ∷ [])
action_text table (drops_index name) =
    join "" ("DROP INDEX IF EXISTS " ∷ name_text name ∷ ";\n" ∷ [])
action_text table (renames_index from to) =
    join "" ("ALTER INDEX " ∷ name_text from ∷ " RENAME TO " ∷ name_text to ∷ ";\n" ∷ [])
action_text table (drops_constraint name) =
    join "" (
      "ALTER TABLE "
      ∷ name_text table
      ∷ " DROP CONSTRAINT IF EXISTS "
      ∷ name_text name
      ∷ ";\n"
      ∷ [])
action_text table (renames_constraint from to) = join "" (
    "ALTER TABLE "
    ∷ name_text table
    ∷ " RENAME CONSTRAINT "
    ∷ name_text from
    ∷ " TO "
    ∷ name_text to
    ∷ ";\n"
    ∷ [])
action_text table (sets_type column type) = column_text table column ("TYPE " <> type)
action_text table (sets_nullable column true) = column_text table column "DROP NOT NULL"
action_text table (sets_nullable column false) = column_text table column "SET NOT NULL"
action_text table (sets_default column value) = column_text table column ("SET DEFAULT " <> value)
action_text table (creates_index index) = index_text table index
action_text table (adds_foreign_key key) = foreign_key_text table key

abbrev pub actions_text : String → List Action → String
actions_text table actions = join "" (map (action_text table) actions)

-- The definition of a column, `TEXT` if it is not known.
abbrev pub definition_text : Unicode → Option ColumnMetadata → String
definition_text u none = "TEXT"
definition_text u (some meta) = generate_column_definition_from_metadata u meta

-- The action of a change that adds, drops or renames.
abbrev pub action_of : Unicode → ChangeType → Change → List Action
action_of u add_column ch = adds ch.column (definition_text u ch.column_metadata) ∷ []
action_of u drop_column ch = drops ch.column ∷ []
action_of u drop_index ch = drops_index ch.index ∷ []
action_of u rename_index ch = renames_index ch.old_name ch.new_name ∷ []
action_of u drop_foreign_key ch = drops_constraint ch.index ∷ []
action_of u rename_foreign_key ch = renames_constraint ch.old_name ch.new_name ∷ []
action_of u alter_column ch = []
action_of u create_index ch = []
action_of u create_foreign_key ch = []
action_of u create_table ch = []
action_of u drop_table ch = []
action_of u alter_table ch = []
action_of u redefine_table ch = []

-- The comment before it.
abbrev pub heading : String → ChangeType → Change → List String
heading table add_column ch = "-- Add column " ∷ table ∷ "." ∷ ch.column ∷ "\n" ∷ []
heading table drop_column ch =
    "-- WARNING: Dropping column " ∷ table ∷ "." ∷ ch.column ∷ " will delete all data!\n" ∷ []
heading table drop_index ch = "-- Drop index " ∷ ch.index ∷ "\n" ∷ []
heading table rename_index ch = "-- Rename index " ∷ ch.old_name ∷ " to " ∷ ch.new_name ∷ "\n" ∷ []
heading table drop_foreign_key ch = "-- Drop foreign key " ∷ ch.index ∷ "\n" ∷ []
heading table rename_foreign_key ch =
    "-- Rename foreign key " ∷ ch.old_name ∷ " to " ∷ ch.new_name ∷ "\n" ∷ []
heading table alter_column ch =
    "-- Alter column " ∷ table ∷ "." ∷ ch.column ∷ "\n-- " ∷ ch.description ∷ "\n" ∷ []
heading table create_index ch = "-- Create index " ∷ ch.index ∷ "\n" ∷ []
heading table create_foreign_key ch = "-- Create foreign key " ∷ ch.index ∷ "\n" ∷ []
heading table create_table ch = []
heading table drop_table ch = []
heading table alter_table ch = []
heading table redefine_table ch = []
