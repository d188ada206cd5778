-- ===== src/Query/Aggregate/Statements.antt =====
-- The statements of `GenerateAggregate` (query/sqlgen/aggregations.go) against their specification.
use prisma_go.Base.{ℕ, ◌≡◌, refl, String, ◌<>◌, List, [], ◌∷◌, ◌++◌, map, Option, none, some, join}
use prisma_go.Query.Condition.{Dynamic, WhereClause}
use prisma_go.Query.Where.Pieces.{Piece}
use prisma_go.Query.Statement.{AggregateFunction, GroupBy, Having, from_table}
use prisma_go.Query.Statement.Appending.{texts, ◌▸◌, text-Appends, query-Appends}
use prisma_go.Query.Statement.Clauses.{where_parts, where-Appends}
use prisma_go.Query.Statement.Texts.{told-Appends, group_by-Appends}
use prisma_go.Query.Grammar.{names_clause, group_names, aliased_text}
use prisma_go.Query.Statement.Grouping.{having_always_parts, having_always-Appends}
use prisma_go.Query.Postgres.{quote_identifier, dollar}
use prisma_go.Query.Postgres.Statements.{IsStatement}
use prisma_go.Query.Mysql.{quote_identifier_mysql, question}
use prisma_go.Query.Sqlite.{quote_identifier_sqlite}
use prisma_go.Query.Aggregate.{
  aggregate_list, aliased_sql, group_fields, generate_aggregate_in, generate_aggregate_postgres,
  generate_aggregate_mysql, generate_aggregate_sqlite,
}

module _ (dyn : Dynamic) (ph : ℕ → String) (quote : String → String) (provider : String) where
  open dyn use {Value, to_upper}

  unfoldable pub aggregate_parts :
      String
      → List AggregateFunction
      → Option (WhereClause Value)
      → Option GroupBy
      → Option (Having Value)
      → List (List (Piece Value))
  unfolding where_parts having_always_parts texts
  aggregate_parts table aggregates w group_by having =
      texts (
        ("SELECT "
          <> join ", " (map (aliased_text quote) aggregates ++ map quote (group_names group_by)))
        ∷ ("FROM " <> quote table)
        ∷ [])
      ++ (where_parts dyn ph quote provider w
          ++ (texts (names_clause quote "GROUP BY " (group_names group_by))
              ++ having_always_parts dyn ph quote provider having))

  -- The list of the code is the grammar's.
  aggregate_list_lem :
      (aggregates : List AggregateFunction) (group_by : Option GroupBy)
      → aggregate_list quote aggregates group_by
        ≡ "SELECT "
          <> join ", " (map (aliased_text quote) aggregates ++ map quote (group_names group_by))
  unfolding aggregate_list aliased_sql group_fields
  aggregate_list_lem aggregates none = refl
  aggregate_list_lem aggregates (some g) = refl

  generate_aggregate_in-IsStatement :
      (table : String) (aggregates : List AggregateFunction) (w : Option (WhereClause Value))
      (group_by : Option GroupBy) (having : Option (Having Value))
      → IsStatement ph
          (generate_aggregate_in dyn ph quote provider table aggregates w group_by having)
          (aggregate_parts table aggregates w group_by having)
  unfolding generate_aggregate_in aggregate_parts texts from_table
  generate_aggregate_in-IsStatement table aggregates w group_by having = query-Appends ph _ _ (
      told-Appends ph _ _ (aggregate_list_lem aggregates group_by)
      ▸ text-Appends ph (from_table to_upper quote table)
      ▸ where-Appends dyn ph quote provider w
      ▸ group_by-Appends to_upper quote ph group_by
      ▸ having_always-Appends dyn ph quote provider having)

module _ (dyn : Dynamic) where
  open dyn use {Value}

  -- `GenerateAggregate` of the three generators writes the aggregates and the fields of GROUP BY,
  -- and then WHERE, GROUP BY and HAVING, each with the placeholders and the quoting of its
  -- database; the places are numbered through from 1 and the arguments are those of the places in
  -- order. HAVING is written for each list of conditions that is not empty, the comparisons in it
  -- alone. The text of a subquery is copied as it is, with the numbers that its own places have.
  pub generate_aggregates-AreStatements :
      (table : String) (aggregates : List AggregateFunction) (w : Option (WhereClause Value))
      (group_by : Option GroupBy) (having : Option (Having Value))
      → IsStatement dollar (generate_aggregate_postgres dyn table aggregates w group_by having) (
          aggregate_parts dyn dollar quote_identifier "postgresql" table aggregates w group_by
            having)
        × IsStatement question (generate_aggregate_mysql dyn table aggregates w group_by having) (
            aggregate_parts dyn question quote_identifier_mysql "mysql" table aggregates w group_by
              having)
        × IsStatement question (generate_aggregate_sqlite dyn table aggregates w group_by having) (
            aggregate_parts dyn question quote_identifier_sqlite "sqlite" table aggregates w
              group_by having)
  unfolding generate_aggregate_postgres generate_aggregate_mysql generate_aggregate_sqlite
  generate_aggregates-AreStatements table aggregates w group_by having = (
    generate_aggregate_in-IsStatement dyn dollar quote_identifier "postgresql" table aggregates w
        group_by having,
    generate_aggregate_in-IsStatement dyn question quote_identifier_mysql "mysql" table aggregates w
        group_by having,
    generate_aggregate_in-IsStatement dyn question quote_identifier_sqlite "sqlite" table aggregates
        w group_by having,
  )
