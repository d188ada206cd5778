-- ===== src/Query/Sqlite.antt =====
-- The SQLite generator (`SQLiteGenerator`, query/sqlgen/sqlgen.go).
--
-- The conditions of SELECT, UPDATE and DELETE are written with the placeholders, the quoting and
-- the JSON operators of PostgreSQL, as the code has it; those of SELECT with CTEs are not.
pub mod Statements
use prisma_go.Base.{
  ℕ, if◌then◌else◌, Bool, true, false, ◌||◌, ◌&&◌, String, ◌<>◌, str_eq, List, [], ◌∷◌, ◌++◌, map,
  Option, none, some, for_each, ℤ, is_positive, is_zero,
}
use prisma_go.Query.Condition.{Dynamic, WhereClause, join}
use prisma_go.Query.Where.{Parts}
use prisma_go.Query.Statement.{
  Query, Cte, OrderBy, Join, start, add_text, query, is_nil, select_columns, select_quoted,
  from_table, add_order_by, add_join, add_ctes, updated_columns, add_columns, add_on_conflict,
}
use prisma_go.Query.Statement.Arguments.{
  add_where, add_delete_where, add_number, add_positive, add_values, add_set,
}
use prisma_go.Query.Postgres
use prisma_go.Query.Statement.Windows.{WindowFunction}
use prisma_go.Query.Postgres.{quote_identifier, dollar}
use prisma_go.Query.Mysql.{question}

-- `quoteIdentifierSQLite`
unfoldable pub quote_identifier_sqlite : String → String
quote_identifier_sqlite name = "\"" <> (name <> "\"")

module _ (dyn : Dynamic) where
  open dyn use {Value, to_upper}

  unfoldable pub generate_select :
      String
      → List String
      → Option (WhereClause Value)
      → List OrderBy
      → Option ℤ
      → Option ℤ
      → Query Value
  unfolding query select_columns from_table start
  generate_select table columns w obs limit offset =
      let from =
        add_text (from_table to_upper quote_identifier_sqlite table)
          (add_text (select_columns to_upper quote_identifier_sqlite columns) start) in
      let filtered = add_where dyn dollar quote_identifier "postgresql" w from in
      let ordered = add_order_by to_upper quote_identifier_sqlite obs filtered in
      let limited =
        add_positive dyn question quote_identifier_sqlite "sqlite" "LIMIT " limit ordered in
      query (add_positive dyn question quote_identifier_sqlite "sqlite" "OFFSET " offset limited)

  unfoldable pub generate_select_with_cte :
      String
      → List String
      → List (Cte Value)
      → List Join
      → Option (WhereClause Value)
      → List OrderBy
      → Option ℤ
      → Option ℤ
      → Query Value
  unfolding query select_quoted from_table start
  generate_select_with_cte table columns ctes joins w obs limit offset =
      let selected =
        add_text (select_quoted to_upper quote_identifier_sqlite columns)
          (add_ctes to_upper quote_identifier_sqlite ctes start) in
      let from = add_text (from_table to_upper quote_identifier_sqlite table) selected in
      let joined = for_each (add_join to_upper quote_identifier_sqlite) joins from in
      let filtered = add_where dyn question quote_identifier_sqlite "sqlite" w joined in
      let ordered = add_order_by to_upper quote_identifier_sqlite obs filtered in
      let limited =
        add_positive dyn question quote_identifier_sqlite "sqlite" "LIMIT " limit ordered in
      query (add_positive dyn question quote_identifier_sqlite "sqlite" "OFFSET " offset limited)

  unfoldable pub generate_insert : String → List String → List Value → Query Value
  unfolding query start
  generate_insert table columns values =
      let into =
        add_columns to_upper quote_identifier_sqlite columns
          (add_text ("INSERT INTO " <> quote_identifier_sqlite table) start) in
      query (add_values dyn question quote_identifier_sqlite "sqlite" values into)

  unfoldable pub generate_upsert :
      String → List String → List Value → List String → List String → Query Value
  unfolding query start
  generate_upsert table columns values update_columns conflict_target =
      let into =
        add_columns to_upper quote_identifier_sqlite columns
          (add_text ("INSERT INTO " <> quote_identifier_sqlite table) start) in
      let inserted = add_values dyn question quote_identifier_sqlite "sqlite" values into in
      query (
        add_on_conflict to_upper quote_identifier_sqlite columns update_columns conflict_target
          inserted)

  -- The map of the columns to set comes in the order in which the runtime goes through it. The
  -- counter of the condition starts at 1 whatever was set.
  unfoldable pub generate_update :
      String → List (String × Value) → Option (WhereClause Value) → Query Value
  unfolding query start
  generate_update table set w =
      let assigned =
        add_set dyn question quote_identifier_sqlite "sqlite" set
          (add_text ("UPDATE " <> quote_identifier_sqlite table) start) in
      query (add_where dyn dollar quote_identifier "postgresql" w (record assigned { next = 1 }))

  unfoldable pub generate_delete : String → Option (WhereClause Value) → Query Value
  unfolding query start
  generate_delete table w = query (
      add_delete_where dyn dollar quote_identifier "postgresql" w
        (add_text ("DELETE FROM " <> quote_identifier_sqlite table) start))

  -- The statement that PostgreSQL's generator writes, with its placeholders and its quoting.
  unfoldable pub generate_select_with_windows :
      String
      → List String
      → List WindowFunction
      → List Join
      → Option (WhereClause Value)
      → List OrderBy
      → Option ℤ
      → Option ℤ
      → Query Value
  generate_select_with_windows table columns window_funcs joins w obs limit offset =
      Postgres.generate_select_with_windows dyn table columns window_funcs joins w obs limit offset
