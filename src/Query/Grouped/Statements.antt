-- ===== src/Query/Grouped/Statements.antt =====
-- `GenerateSelectWithAggregates` of the three generators (query/sqlgen/sqlgen.go and joins.go)
-- against its specification.
use prisma_go.Base.{String, ◌<>◌, List, [], ◌∷◌, ◌++◌, map, Option, ℤ}
use prisma_go.Query.Condition.{Dynamic, WhereClause}
use prisma_go.Query.Where.Pieces.{Piece}
use prisma_go.Query.Statement.{OrderBy, Join, AggregateFunction, GroupBy, Having, from_table}
use prisma_go.Query.Statement.Clauses.{where_parts, where-Appends, number_parts, positive-Appends}
use prisma_go.Query.Statement.Appending.{texts, Appends, ◌▸◌, text-Appends, query-Appends}
use prisma_go.Query.Statement.Texts.{
  told-Appends, order_by-Appends, group_by-Appends, joins-Appends,
}
use prisma_go.Query.Grammar.{
  select_text, order_clause, names_clause, group_names, join_text, aggregate_text,
}
use prisma_go.Query.Grammar.Agreeing.{select_aggregates_lem}
use prisma_go.Query.Statement.Grouping.{having_parts, having-Appends}
use prisma_go.Query.Postgres.{dollar, generate_select_with_aggregates}
use prisma_go.Query.Postgres.Statements.{
  IsStatement, aggregates_parts, generate_select_with_aggregates-IsStatement,
}
use prisma_go.Query.Mysql.{quote_identifier_mysql, question}
use prisma_go.Query.Mysql.Statements.{offset_parts, offset-Appends}
use prisma_go.Query.Sqlite.{quote_identifier_sqlite}
use prisma_go.Query.Grouped.{
  grouped_clauses, generate_select_with_aggregates_mysql, generate_select_with_aggregates_sqlite,
}

module _ (dyn : Dynamic) where
  open dyn use {Value, to_upper}

  unfoldable pub grouped_parts :
      (String → String)
      → String
      → String
      → List String
      → List AggregateFunction
      → List Join
      → Option (WhereClause Value)
      → Option GroupBy
      → Option (Having Value)
      → List OrderBy
      → Option ℤ
      → List (List (Piece Value))
  unfolding where_parts having_parts number_parts texts
  grouped_parts quote provider table columns aggregates joins w group_by having obs limit =
      texts (
        select_text (map quote columns ++ map (aggregate_text quote) aggregates)
        ∷ ("FROM " <> quote table)
        ∷ [])
      ++ (texts (map (join_text quote to_upper) joins)
          ++ (where_parts dyn question quote provider w
              ++ (texts (names_clause quote "GROUP BY " (group_names group_by))
                  ++ (having_parts dyn question quote provider having
                      ++ (texts (order_clause quote obs)
                          ++ number_parts dyn question quote provider "LIMIT " limit)))))

  grouped-Appends :
      (quote : String → String) (provider table : String) (columns : List String)
      (aggregates : List AggregateFunction) (joins : List Join) (w : Option (WhereClause Value))
      (group_by : Option GroupBy) (having : Option (Having Value)) (obs : List OrderBy)
      (limit : Option ℤ)
      → Appends question
          (grouped_clauses dyn quote provider table columns aggregates joins w group_by having obs
            limit)
          (grouped_parts quote provider table columns aggregates joins w group_by having obs limit)
  unfolding grouped_clauses grouped_parts texts from_table
  grouped-Appends quote provider table columns aggregates joins w group_by having obs limit =
      told-Appends question _ _ (select_aggregates_lem to_upper quote columns aggregates)
      ▸ text-Appends question (from_table to_upper quote table)
      ▸ joins-Appends to_upper quote question joins
      ▸ where-Appends dyn question quote provider w
      ▸ group_by-Appends to_upper quote question group_by
      ▸ having-Appends dyn question quote provider having
      ▸ order_by-Appends to_upper quote question obs
      ▸ positive-Appends dyn question quote provider "LIMIT " limit

  -- The `GenerateSelectWithAggregates` of each of the three generators writes its clauses in the
  -- order of SQL: the joins, WHERE, GROUP BY, HAVING, the order, the limit and the offset. The
  -- places of WHERE, HAVING, LIMIT and OFFSET are numbered through from 1 (on MySQL and SQLite each
  -- is a `?`), and the arguments are those of the places in order. Of the conditions of HAVING the
  -- comparisons are written, and HAVING is left out if there is none. On MySQL an offset with no
  -- limit or a limit of 0 stands behind the greatest limit there is. What is selected is the
  -- columns and then the aggregates, each with its alias if it has one, or `*` if there are none of
  -- either; each join has its type, its alias and its condition. The text of a subquery is copied
  -- as it is, with the numbers that its own places have.
  pub generate_select_with_aggregates-AreStatements :
      (table : String) (columns : List String) (aggregates : List AggregateFunction)
      (joins : List Join) (w : Option (WhereClause Value)) (group_by : Option GroupBy)
      (having : Option (Having Value)) (obs : List OrderBy) (limit offset : Option ℤ)
      → IsStatement dollar
          (generate_select_with_aggregates dyn table columns aggregates joins w group_by having obs
            limit offset)
          (aggregates_parts dyn table columns aggregates joins w group_by having obs limit offset)
        × IsStatement question
            (generate_select_with_aggregates_mysql dyn table columns aggregates joins w group_by
              having obs limit offset)
            (grouped_parts quote_identifier_mysql "mysql" table columns aggregates joins w group_by
                having obs limit
              ++ offset_parts dyn limit offset)
        × IsStatement question
            (generate_select_with_aggregates_sqlite dyn table columns aggregates joins w group_by
              having obs limit offset)
            (grouped_parts quote_identifier_sqlite "sqlite" table columns aggregates joins w
                group_by having obs limit
              ++ number_parts dyn question quote_identifier_sqlite "sqlite" "OFFSET " offset)
  unfolding generate_select_with_aggregates_mysql generate_select_with_aggregates_sqlite
  generate_select_with_aggregates-AreStatements table columns aggregates joins w group_by having obs
        limit offset =
      (
        generate_select_with_aggregates-IsStatement dyn table columns aggregates joins w group_by
            having obs limit offset,
        query-Appends question _ _ (
            grouped-Appends quote_identifier_mysql "mysql" table columns aggregates joins w group_by
              having obs limit
            ▸ offset-Appends dyn limit offset),
        query-Appends question _ _ (
            grouped-Appends quote_identifier_sqlite "sqlite" table columns aggregates joins w
              group_by having obs limit
            ▸ positive-Appends dyn question quote_identifier_sqlite "sqlite" "OFFSET " offset),
      )
