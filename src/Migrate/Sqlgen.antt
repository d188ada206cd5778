-- ===== src/Migrate/Sqlgen.antt =====
-- The statements of migrations for PostgreSQL (migrate/sqlgen/postgres.go): the definitions of
-- columns, tables, indexes and foreign keys. A text of parts is one `fmt.Sprintf`.
pub mod Altering
pub mod Reverting
pub mod Postgres
pub mod Quoting
pub mod Outcomes
pub mod Succeeding
pub mod Actions
pub mod Changing
pub mod Writing
pub mod Undoing
mod Tests
use Prim.Native.String.{char_at}
use prisma_go.Base.{
  if◌then◌else◌, Bool, true, false, not, ◌&&◌, ◌||◌, String, ◌<>◌, str_eq, List, [], ◌∷◌, ◌++◌, map,
  Option, none, some, for_each, Unicode, upper_text, contains, has_prefix, has_suffix, replace_char,
  join,
}
use prisma_go.Migrate.Schema.{Column, PrimaryKey, Index, ForeignKey, Table}
use prisma_go.Migrate.Change.{ColumnMetadata}

abbrev pub lines : List String → String
lines parts = join "" parts

-- `\"%s\"`
unfoldable pub quoted : String → String
quoted name = "\"" <> (name <> "\"")

-- Names, each in quotes, with commas between them.
unfoldable pub quoted_names : List String → String
unfolding quoted join
quoted_names names = join ", " (map quoted names)

abbrev pub numeric_types : List String
numeric_types =
    "INTEGER" ∷ "INT" ∷ "BIGINT" ∷ "SMALLINT" ∷ "DECIMAL" ∷ "NUMERIC" ∷ "REAL" ∷ "DOUBLE PRECISION"
    ∷ "FLOAT" ∷ "SERIAL" ∷ "BIGSERIAL" ∷ []

unfoldable pub has_some_prefix : String → List String → Bool
unfolding has_prefix
has_some_prefix s [] = false
has_some_prefix s (t ∷ ts) = has_prefix s t || has_some_prefix s ts

unfoldable pub is_numeric_type : Unicode → String → Bool
unfolding upper_text has_some_prefix
is_numeric_type u col_type = has_some_prefix (upper_text u col_type) numeric_types

-- What `quoteDefaultValue` leaves as it is: a call, a number, a truth value, NULL and the time.
unfoldable pub is_expression : Unicode → String → String → Bool
unfolding contains is_numeric_type upper_text
is_expression u value col_type =
    contains value "("
    || (is_numeric_type u col_type
        || (str_eq value "true"
            || (str_eq value "false"
                || (str_eq (upper_text u value) "NULL"
                    || str_eq (upper_text u value) "CURRENT_TIMESTAMP"))))

unfoldable pub is_quoted : String → Bool
unfolding has_prefix has_suffix
is_quoted value = has_prefix value "'" && has_suffix value "'"

unfoldable pub quote_literal : String → String
unfolding replace_char
quote_literal value = "'" <> (replace_char (char_at "'" 0) "''" value <> "'")

unfoldable pub quote_default_value : Unicode → String → String → String
unfolding is_expression is_quoted quote_literal
quote_default_value u value col_type =
    if is_expression u value col_type
    then value
    else if is_quoted value
    then value
    else quote_literal value

-- ` DEFAULT %s`, for a default that is not nil and not empty.
unfoldable pub default_clause : Unicode → Option String → String → String
unfolding quote_default_value
default_clause u none col_type = ""
default_clause u (some value) col_type =
    if str_eq value "" then "" else " DEFAULT " <> quote_default_value u value col_type

unfoldable pub null_clause : Bool → String
null_clause nullable = if nullable then "" else " NOT NULL"

-- `generateColumnDefinition`
unfoldable pub generate_column_definition : Unicode → Column → String
unfolding quoted null_clause default_clause
generate_column_definition u col = lines (
    quoted col.name
    ∷ " "
    ∷ col.type
    ∷ null_clause col.nullable
    ∷ default_clause u col.default_value col.type
    ∷ [])

-- `generateColumnDefinitionFromMetadata`, which does not read the name.
unfoldable pub generate_column_definition_from_metadata : Unicode → ColumnMetadata → String
unfolding null_clause default_clause
generate_column_definition_from_metadata u meta =
    lines
      (meta.type ∷ null_clause meta.nullable ∷ default_clause u meta.default_value meta.type ∷ [])

-- `generateCreateIndex`
unfoldable pub generate_create_index : String → Index → String
unfolding quoted quoted_names
generate_create_index table_name idx = lines (
    "CREATE "
    ∷ (if idx.is_unique then "UNIQUE " else "")
    ∷ "INDEX "
    ∷ quoted idx.name
    ∷ " ON "
    ∷ quoted table_name
    ∷ " ("
    ∷ quoted_names idx.columns
    ∷ ");"
    ∷ [])

unfoldable pub action_clause : String → String → String
action_clause keyword action =
    if str_eq action "" || str_eq action "NO ACTION" then "" else keyword <> action

-- `generateAddForeignKey`
unfoldable pub generate_add_foreign_key : String → ForeignKey → String
unfolding quoted quoted_names action_clause
generate_add_foreign_key table_name fk = lines (
    "ALTER TABLE "
    ∷ quoted table_name
    ∷ " ADD CONSTRAINT "
    ∷ quoted fk.name
    ∷ " FOREIGN KEY ("
    ∷ quoted_names fk.columns
    ∷ ") REFERENCES "
    ∷ quoted fk.referenced_table
    ∷ " ("
    ∷ quoted_names fk.referenced_columns
    ∷ ")"
    ∷ action_clause " ON UPDATE " fk.on_update
    ∷ action_clause " ON DELETE " fk.on_delete
    ∷ ";"
    ∷ [])

-- The line of the primary key, if it has columns.
unfoldable pub primary_key_lines : Option PrimaryKey → List String
unfolding quoted_names
primary_key_lines none = []
primary_key_lines (some key) = elim key.columns [
  | [] ↦ []
  | c ∷ cs ↦ lines ("  PRIMARY KEY (" ∷ quoted_names (c ∷ cs) ∷ ")" ∷ []) ∷ []
]

-- `generateCreateTableFromTable`, whose error is always nil.
unfoldable pub generate_create_table_from_table : Unicode → Table → String
unfolding quoted generate_column_definition primary_key_lines join generate_create_index
    generate_add_foreign_key
generate_create_table_from_table u table =
    let column_defs =
      map (λ (col : Column). "  " <> generate_column_definition u col) table.columns in
    let created = lines (
      "CREATE TABLE "
      ∷ quoted table.name
      ∷ " (\n"
      ∷ join ",\n" (column_defs ++ primary_key_lines table.primary_key)
      ∷ "\n);"
      ∷ []) in
    let indexed =
      for_each (λ (idx : Index) sql. sql <> ("\n" <> generate_create_index table.name idx))
        table.indexes created in
    for_each (λ (fk : ForeignKey) sql. sql <> ("\n" <> generate_add_foreign_key table.name fk))
      table.foreign_keys indexed
