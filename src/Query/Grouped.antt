-- ===== src/Query/Grouped.antt =====
-- `GenerateSelectWithAggregates` of MySQL and SQLite (query/sqlgen/joins.go). The two write the same
-- clauses up to the limit, but for the quoting and the provider; MySQL's OFFSET needs a limit.
pub mod Statements
mod Tests
use prisma_go.Base.{ℕ, String, List, map, Option, for_each, ℤ}
use prisma_go.Query.Condition.{Dynamic, WhereClause}
use prisma_go.Query.Where.{Parts}
use prisma_go.Query.Statement.{
  Query, OrderBy, Join, AggregateFunction, GroupBy, Having, start, add_text, query, from_table,
  add_order_by, add_group_by, add_join, aggregate_sql, select_list,
}
use prisma_go.Query.Statement.Arguments.{add_where, add_positive, add_having}
use prisma_go.Query.Mysql.{quote_identifier_mysql, question, add_offset}
use prisma_go.Query.Sqlite.{quote_identifier_sqlite}

module _ (dyn : Dynamic) where
  open dyn use {Value, to_upper}

  -- The clauses up to the limit.
  unfoldable pub grouped_clauses :
      (String → String)
      → String
      → String
      → List String
      → List AggregateFunction
      → List Join
      → Option (WhereClause Value)
      → Option GroupBy
      → Option (Having Value)
      → List OrderBy
      → Option ℤ
      → Parts Value
      → Parts Value
  unfolding select_list from_table aggregate_sql
  grouped_clauses quote provider table columns aggregates joins w group_by having obs limit p =
      let aggregated = map (aggregate_sql to_upper quote) aggregates in
      let selected = add_text (select_list to_upper quote columns aggregated) p in
      let from = add_text (from_table to_upper quote table) selected in
      let joined = for_each (add_join to_upper quote) joins from in
      let filtered = add_where dyn question quote provider w joined in
      let grouped = add_group_by to_upper quote group_by filtered in
      let kept = add_having dyn question quote provider having grouped in
      let ordered = add_order_by to_upper quote obs kept in
      add_positive dyn question quote provider "LIMIT " limit ordered

  unfoldable pub generate_select_with_aggregates_mysql :
      String
      → List String
      → List AggregateFunction
      → List Join
      → Option (WhereClause Value)
      → Option GroupBy
      → Option (Having Value)
      → List OrderBy
      → Option ℤ
      → Option ℤ
      → Query Value
  unfolding query start grouped_clauses
  generate_select_with_aggregates_mysql table columns aggregates joins w group_by having obs limit
        offset =
      let limited =
        grouped_clauses quote_identifier_mysql "mysql" table columns aggregates joins w group_by
          having obs limit start in
      query (add_offset dyn limit offset limited)

  unfoldable pub generate_select_with_aggregates_sqlite :
      String
      → List String
      → List AggregateFunction
      → List Join
      → Option (WhereClause Value)
      → Option GroupBy
      → Option (Having Value)
      → List OrderBy
      → Option ℤ
      → Option ℤ
      → Query Value
  unfolding query start grouped_clauses
  generate_select_with_aggregates_sqlite table columns aggregates joins w group_by having obs limit
        offset =
      let limited =
        grouped_clauses quote_identifier_sqlite "sqlite" table columns aggregates joins w group_by
          having obs limit start in
      query (add_positive dyn question quote_identifier_sqlite "sqlite" "OFFSET " offset limited)
