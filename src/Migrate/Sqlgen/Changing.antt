-- ===== src/Migrate/Sqlgen/Changing.antt =====
-- What is written for a change of a table and to undo it (migrate/sqlgen/postgres.go), from the
-- actions: the specification of the loops over the changes.
use prisma_go.Base.{
  Bool, true, false, String, ◌<>◌, str_eq, if◌then◌else◌, List, [], ◌∷◌, ◌++◌, map, Option, none,
  some, Unicode, join,
}
use prisma_go.Migrate.Schema.{Index, ForeignKey, Table, DatabaseSchema}
use prisma_go.Migrate.Change.{
  ChangeType, Change, ColumnMetadata, drop_column, alter_column, create_index, drop_index,
  create_foreign_key, drop_foreign_key,
}
use prisma_go.Migrate.Sqlgen.{quote_default_value}
use prisma_go.Migrate.Sqlgen.Actions.{
  Action, drops_index, drops_constraint, adds, sets_type, sets_nullable, sets_default,
  creates_index, adds_foreign_key, inverse, column_text, name_text, action_text, actions_text,
  definition_text, action_of, heading,
}

-- How a column is altered: its type, if the old one is known and another; whether it is nullable, if
-- that is known and was not so; and its default.
abbrev pub new_type : String → ColumnMetadata → List Action
new_type column meta =
    if str_eq meta.old_type ""
    then []
    else if str_eq meta.old_type meta.type
    then []
    else sets_type column meta.type ∷ []

abbrev pub new_nullable : String → Bool → Option Bool → List Action
new_nullable column nullable none = []
new_nullable column true (some true) = []
new_nullable column true (some false) = sets_nullable column true ∷ []
new_nullable column false (some true) = sets_nullable column false ∷ []
new_nullable column false (some false) = []

-- The drop of a default is a comment, and only where the old nullability is known.
abbrev pub no_default_text : String → String → Option Bool → String
no_default_text table column none = ""
no_default_text table column (some old) = "-- " <> column_text table column "DROP DEFAULT"

abbrev pub default_text : Unicode → String → String → ColumnMetadata → Option String → String
default_text u table column meta none = no_default_text table column meta.old_nullable
default_text u table column meta (some value) =
    if str_eq value ""
    then no_default_text table column meta.old_nullable
    else action_text table (sets_default column (quote_default_value u value meta.type))

abbrev pub altered_text : Unicode → String → Change → Option ColumnMetadata → String
altered_text u table ch none =
    if str_eq ch.description ""
    then join "" (
        "-- TODO: Column metadata missing, manual review required for " ∷ table ∷ "." ∷ ch.column
        ∷ "\n" ∷ [])
    else join "" (
        "-- Column metadata missing, inferred from description: "
        ∷ ch.description
        ∷ "\n-- "
        ∷ column_text table ch.column "TYPE TEXT"
        ∷ [])
altered_text u table ch (some meta) = join "" (
    actions_text table (new_type ch.column meta)
    ∷ actions_text table (new_nullable ch.column meta.nullable meta.old_nullable)
    ∷ default_text u table ch.column meta meta.default_value
    ∷ [])

-- The first of a name.
abbrev pub first_named : {A : Type 0} → (A → String) → String → List A → Option A
first_named name_of name [] = none
first_named name_of name (x ∷ xs) =
    if str_eq (name_of x) name then some x else first_named name_of name xs

-- An index by its name, and what is written if the schema does not have it.
abbrev pub unknown_index_text : String → Change → String
unknown_index_text table ch =
    if str_eq ch.column ""
    then join "" ("-- TODO: Index " ∷ ch.index ∷ " definition not found in schema\n" ∷ [])
    else join "" (
        "CREATE INDEX "
        ∷ name_text ch.index
        ∷ " ON "
        ∷ name_text table
        ∷ " ("
        ∷ name_text ch.column
        ∷ ");\n"
        ∷ [])

abbrev pub found_index_text : String → Change → Option Index → String
found_index_text table ch none = unknown_index_text table ch
found_index_text table ch (some index) = action_text table (creates_index index)

abbrev pub index_in_text : String → Change → Option Table → String
index_in_text table ch none = unknown_index_text table ch
index_in_text table ch (some t) =
    found_index_text table ch (first_named (λ (i : Index). i.name) ch.index t.indexes)

abbrev pub created_index_text : String → Change → Option DatabaseSchema → String
created_index_text table ch none =
    join "" ("-- CREATE INDEX " ∷ name_text ch.index ∷ " ON " ∷ name_text table ∷ " (...);\n" ∷ [])
created_index_text table ch (some schema) =
    index_in_text table ch (first_named (λ (t : Table). t.name) table schema.tables)

-- A foreign key by its name, in each table of the name.
abbrev pub found_key_text : String → Option ForeignKey → String
found_key_text table none = ""
found_key_text table (some key) = action_text table (adds_foreign_key key)

abbrev pub keys_text : String → String → List Table → String
keys_text table name [] = ""
keys_text table name (t ∷ ts) =
    if str_eq t.name table
    then found_key_text table (first_named (λ (k : ForeignKey). k.name) name t.foreign_keys)
      <> keys_text table name ts
    else keys_text table name ts

abbrev pub created_key_text : String → Change → Option DatabaseSchema → String
created_key_text table ch none = join "" (
    "-- ALTER TABLE "
    ∷ name_text table
    ∷ " ADD CONSTRAINT "
    ∷ name_text ch.index
    ∷ " FOREIGN KEY (...) REFERENCES ...;\n"
    ∷ [])
created_key_text table ch (some schema) = keys_text table ch.index schema.tables

-- What is written for a change.
unfoldable pub change_text : Unicode → String → Option DatabaseSchema → ChangeType → Change → String
change_text u table schema alter_column ch =
    join "" (heading table alter_column ch ++ (altered_text u table ch ch.column_metadata ∷ []))
change_text u table schema create_index ch =
    join "" (heading table create_index ch ++ (created_index_text table ch schema ∷ []))
change_text u table schema create_foreign_key ch =
    join "" (heading table create_foreign_key ch ++ (created_key_text table ch schema ∷ []))
change_text u table schema type ch =
    join "" (heading table type ch ++ map (action_text table) (action_of u type ch))

abbrev pub nullable_again : String → Option Bool → List Action
nullable_again column none = []
nullable_again column (some old) = sets_nullable column old ∷ []

-- What restores a column: its type, and whether it is nullable if that is known.
abbrev pub restoring : String → Option ColumnMetadata → List Action
restoring column none = []
restoring column (some meta) =
    if str_eq meta.old_type ""
    then []
    else sets_type column meta.old_type ∷ nullable_again column meta.old_nullable

-- A dropped column again, or a comment if its definition is not known.
abbrev pub readding : Unicode → String → String → Option ColumnMetadata → String
readding u table column none =
    join ""
      ("-- TODO: Add back dropped column " ∷ table ∷ "." ∷ column ∷ " (metadata missing)\n" ∷ [])
readding u table column (some meta) =
    action_text table (adds column (definition_text u (some meta)))

-- What is written to undo a change, a comment where too little is known for a statement.
unfoldable pub undo_text : Unicode → String → ChangeType → Change → String
undo_text u table create_index ch = action_text table (drops_index ch.index)
undo_text u table create_foreign_key ch = action_text table (drops_constraint ch.index)
undo_text u table alter_column ch = actions_text table (restoring ch.column ch.column_metadata)
undo_text u table drop_column ch = readding u table ch.column ch.column_metadata
undo_text u table drop_index ch = join "" (
    "-- TODO: Recreate dropped index "
    ∷ ch.index
    ∷ " (requires schema history)\n-- CREATE INDEX "
    ∷ name_text ch.index
    ∷ " ON "
    ∷ name_text table
    ∷ " (...);\n"
    ∷ [])
undo_text u table drop_foreign_key ch = join "" (
    "-- TODO: Recreate dropped foreign key "
    ∷ ch.index
    ∷ " (requires schema history)\n-- ALTER TABLE "
    ∷ name_text table
    ∷ " ADD CONSTRAINT "
    ∷ name_text ch.index
    ∷ " FOREIGN KEY (...) REFERENCES ...;\n"
    ∷ [])
undo_text u table type ch =
    join "" (map (λ a. actions_text table (inverse a)) (action_of u type ch))
