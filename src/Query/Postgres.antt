-- ===== src/Query/Postgres.antt =====
-- The PostgreSQL generator (`PostgresGenerator`, query/sqlgen/sqlgen.go).
pub mod Statements
pub mod Writes
use prisma_go.Base.{
  ℕ, if◌then◌else◌, String, ◌<>◌, str_eq, List, [], ◌∷◌, ◌++◌, map, Option, none, some, for_each, ℤ,
  decimal,
}
use prisma_go.Query.Condition.{Dynamic, WhereClause}
use prisma_go.Query.Where.{Parts}
use prisma_go.Query.Statement.{
  Query, Cte, OrderBy, Join, AggregateFunction, GroupBy, Having, start, add_text, query,
  select_columns, select_quoted, from_table, add_order_by, add_group_by, add_join, add_ctes,
  aggregate_sql, select_list, add_columns, add_on_conflict,
}
use prisma_go.Query.Statement.Windows.{WindowFunction, window_sql}
use prisma_go.Query.Statement.Arguments.{
  add_where, add_delete_where, add_positive, add_values, add_set, add_having,
}

-- `quoteIdentifier`
unfoldable pub quote_identifier : String → String
quote_identifier name = "\"" <> (name <> "\"")

-- `fmt.Sprintf("$%d", i)`
unfoldable pub dollar : ℕ → String
unfolding decimal
dollar i = "$" <> decimal i

module _ (dyn : Dynamic) where
  open dyn use {Value, to_upper}

  unfoldable pub generate_select :
      String
      → List String
      → Option (WhereClause Value)
      → List OrderBy
      → Option ℤ
      → Option ℤ
      → Query Value
  unfolding query select_columns from_table start
  generate_select table columns w obs limit offset =
      let from =
        add_text (from_table to_upper quote_identifier table)
          (add_text (select_columns to_upper quote_identifier columns) start) in
      let filtered = add_where dyn dollar quote_identifier "postgresql" w from in
      let ordered = add_order_by to_upper quote_identifier obs filtered in
      let limited = add_positive dyn dollar quote_identifier "postgresql" "LIMIT " limit ordered in
      query (add_positive dyn dollar quote_identifier "postgresql" "OFFSET " offset limited)

  unfoldable pub generate_select_with_cte :
      String
      → List String
      → List (Cte Value)
      → List Join
      → Option (WhereClause Value)
      → List OrderBy
      → Option ℤ
      → Option ℤ
      → Query Value
  unfolding query select_quoted from_table start
  generate_select_with_cte table columns ctes joins w obs limit offset =
      let selected =
        add_text (select_quoted to_upper quote_identifier columns)
          (add_ctes to_upper quote_identifier ctes start) in
      let from = add_text (from_table to_upper quote_identifier table) selected in
      let joined = for_each (add_join to_upper quote_identifier) joins from in
      let filtered = add_where dyn dollar quote_identifier "postgresql" w joined in
      let ordered = add_order_by to_upper quote_identifier obs filtered in
      let limited = add_positive dyn dollar quote_identifier "postgresql" "LIMIT " limit ordered in
      query (add_positive dyn dollar quote_identifier "postgresql" "OFFSET " offset limited)

  unfoldable pub generate_select_with_aggregates :
      String
      → List String
      → List AggregateFunction
      → List Join
      → Option (WhereClause Value)
      → Option GroupBy
      → Option (Having Value)
      → List OrderBy
      → Option ℤ
      → Option ℤ
      → Query Value
  unfolding query select_list from_table aggregate_sql start
  generate_select_with_aggregates table columns aggregates joins w group_by having obs limit
        offset =
      let selected =
        add_text
          (select_list to_upper quote_identifier columns
            (map (aggregate_sql to_upper quote_identifier) aggregates))
          start in
      let from = add_text (from_table to_upper quote_identifier table) selected in
      let joined = for_each (add_join to_upper quote_identifier) joins from in
      let filtered = add_where dyn dollar quote_identifier "postgresql" w joined in
      let grouped = add_group_by to_upper quote_identifier group_by filtered in
      let kept = add_having dyn dollar quote_identifier "postgresql" having grouped in
      let ordered = add_order_by to_upper quote_identifier obs kept in
      let limited = add_positive dyn dollar quote_identifier "postgresql" "LIMIT " limit ordered in
      query (add_positive dyn dollar quote_identifier "postgresql" "OFFSET " offset limited)

  unfoldable pub generate_select_with_windows :
      String
      → List String
      → List WindowFunction
      → List Join
      → Option (WhereClause Value)
      → List OrderBy
      → Option ℤ
      → Option ℤ
      → Query Value
  unfolding query select_list from_table window_sql start
  generate_select_with_windows table columns window_funcs joins w obs limit offset =
      let selected =
        add_text
          (select_list to_upper quote_identifier columns
            (map (window_sql to_upper quote_identifier) window_funcs))
          start in
      let from = add_text (from_table to_upper quote_identifier table) selected in
      let joined = for_each (add_join to_upper quote_identifier) joins from in
      let filtered = add_where dyn dollar quote_identifier "postgresql" w joined in
      let ordered = add_order_by to_upper quote_identifier obs filtered in
      let limited = add_positive dyn dollar quote_identifier "postgresql" "LIMIT " limit ordered in
      query (add_positive dyn dollar quote_identifier "postgresql" "OFFSET " offset limited)

  unfoldable pub generate_insert : String → List String → List Value → Query Value
  unfolding query start
  generate_insert table columns values =
      let into =
        add_columns to_upper quote_identifier columns
          (add_text ("INSERT INTO " <> quote_identifier table) start) in
      query
        (add_text "RETURNING *" (add_values dyn dollar quote_identifier "postgresql" values into))

  unfoldable pub generate_upsert :
      String → List String → List Value → List String → List String → Query Value
  unfolding query start
  generate_upsert table columns values update_columns conflict_target =
      let into =
        add_columns to_upper quote_identifier columns
          (add_text ("INSERT INTO " <> quote_identifier table) start) in
      let inserted = add_values dyn dollar quote_identifier "postgresql" values into in
      query (
        add_text "RETURNING *" (
          add_on_conflict to_upper quote_identifier columns update_columns conflict_target
            inserted))

  -- The map of the columns to set comes in the order in which the runtime goes through it.
  unfoldable pub generate_update :
      String → List (String × Value) → Option (WhereClause Value) → Query Value
  unfolding query start
  generate_update table set w =
      let assigned =
        add_set dyn dollar quote_identifier "postgresql" set
          (add_text ("UPDATE " <> quote_identifier table) start) in
      query (add_text "RETURNING *" (add_where dyn dollar quote_identifier "postgresql" w assigned))

  unfoldable pub generate_delete : String → Option (WhereClause Value) → Query Value
  unfolding query start
  generate_delete table w = query (
      add_text "RETURNING *" (
        add_delete_where dyn dollar quote_identifier "postgresql" w
          (add_text ("DELETE FROM " <> quote_identifier table) start)))
