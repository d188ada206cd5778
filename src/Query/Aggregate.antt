-- ===== src/Query/Aggregate.antt =====
-- `GenerateAggregate` of the three relational generators (query/sqlgen/aggregations.go), whose code
-- differs in the placeholder, the quoting and the provider of the condition.
pub mod Statements
mod Tests
use prisma_go.Base.{
  ℕ, if◌then◌else◌, String, ◌<>◌, str_eq, List, [], ◌∷◌, ◌++◌, map, Option, none, some,
}
use prisma_go.Query.Condition.{Dynamic, WhereClause, join}
use prisma_go.Query.Statement.{
  Query, AggregateFunction, GroupBy, Having, start, add_text, query, from_table, add_group_by,
}
use prisma_go.Query.Statement.Arguments.{add_where, add_having_always}
use prisma_go.Query.Postgres.{quote_identifier, dollar}
use prisma_go.Query.Mysql.{quote_identifier_mysql, question}
use prisma_go.Query.Sqlite.{quote_identifier_sqlite}

-- An aggregate with its alias, which is written even if it is empty.
unfoldable pub aliased_sql : (String → String) → AggregateFunction → String
aliased_sql quote agg =
    let field = if str_eq agg.field "*" then "*" else quote agg.field in
    agg.function <> ("(" <> (field <> (") AS " <> quote agg.alias)))

unfoldable pub group_fields : Option GroupBy → List String
group_fields none = []
group_fields (some g) = g.fields

-- The aggregates and then the fields of GROUP BY.
unfoldable pub aggregate_list : (String → String) → List AggregateFunction → Option GroupBy → String
unfolding aliased_sql group_fields join
aggregate_list quote aggregates group_by =
    "SELECT " <> join ", " (map (aliased_sql quote) aggregates ++ map quote (group_fields group_by))

module _ (dyn : Dynamic) (ph : ℕ → String) (quote : String → String) (provider : String) where
  open dyn use {Value, to_upper}

  unfoldable pub generate_aggregate_in :
      String
      → List AggregateFunction
      → Option (WhereClause Value)
      → Option GroupBy
      → Option (Having Value)
      → Query Value
  unfolding query start aggregate_list from_table
  generate_aggregate_in table aggregates w group_by having =
      let from =
        add_text (from_table to_upper quote table)
          (add_text (aggregate_list quote aggregates group_by) start) in
      let filtered = add_where dyn ph quote provider w from in
      let grouped = add_group_by to_upper quote group_by filtered in
      query (add_having_always dyn ph quote provider having grouped)

module _ (dyn : Dynamic) where
  open dyn use {Value}

  -- The three generators.
  unfoldable pub generate_aggregate_postgres :
      String
      → List AggregateFunction
      → Option (WhereClause Value)
      → Option GroupBy
      → Option (Having Value)
      → Query Value
  unfolding generate_aggregate_in
  generate_aggregate_postgres = generate_aggregate_in dyn dollar quote_identifier "postgresql"

  unfoldable pub generate_aggregate_mysql :
      String
      → List AggregateFunction
      → Option (WhereClause Value)
      → Option GroupBy
      → Option (Having Value)
      → Query Value
  unfolding generate_aggregate_in
  generate_aggregate_mysql = generate_aggregate_in dyn question quote_identifier_mysql "mysql"

  unfoldable pub generate_aggregate_sqlite :
      String
      → List AggregateFunction
      → Option (WhereClause Value)
      → Option GroupBy
      → Option (Having Value)
      → Query Value
  unfolding generate_aggregate_in
  generate_aggregate_sqlite = generate_aggregate_in dyn question quote_identifier_sqlite "sqlite"
