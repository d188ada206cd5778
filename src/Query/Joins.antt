-- ===== src/Query/Joins.antt =====
-- `GenerateSelectWithJoins` of the three relational generators (query/sqlgen/joins.go). The clauses
-- after the list of columns differ in the placeholder, the quoting and the provider; MySQL's list of
-- columns has no table names. The direction of an order is written as it is given.
pub mod Statements
mod Tests
use prisma_go.Base.{
  ℕ, if◌then◌else◌, String, ◌<>◌, str_eq, List, [], ◌∷◌, ◌++◌, map, Option, none, some, for_each, ℤ,
}
use prisma_go.Query.Condition.{Dynamic, WhereClause, join}
use prisma_go.Query.Where.{Parts}
use prisma_go.Query.Statement.{
  Query, OrderBy, Join, start, add_text, query, is_nil, select_quoted, from_table, add_join,
}
use prisma_go.Query.Statement.Arguments.{add_where, add_positive}
use prisma_go.Query.Postgres.{quote_identifier, dollar}
use prisma_go.Query.Mysql.{quote_identifier_mysql, question}
use prisma_go.Query.Sqlite.{quote_identifier_sqlite}

-- The columns of one table with its name, or all of them.
unfoldable pub table_columns : (String → String) → String → List String → List String
unfolding is_nil
table_columns quote table columns =
    if is_nil columns
    then (quote table <> ".*") ∷ []
    else map (λ (column : String). quote table <> ("." <> quote column)) columns

-- The columns of the joined tables, which go by their aliases.
unfoldable pub joined_columns : (String → String) → List Join → List String
unfolding table_columns
joined_columns quote [] = []
joined_columns quote (j ∷ joins) =
    let name = if str_eq j.alias "" then j.table else j.alias in
    table_columns quote name j.columns ++ joined_columns quote joins

unfoldable pub select_joined :
    (String → String) → (String → String) → String → List String → List Join → String
unfolding table_columns joined_columns select_quoted join is_nil
select_joined to_upper quote table columns joins =
    if is_nil joins
    then select_quoted to_upper quote columns
    else "SELECT " <> join ", " (table_columns quote table columns ++ joined_columns quote joins)

unfoldable pub given_order : (String → String) → List OrderBy → String
unfolding join
given_order quote obs =
    "ORDER BY " <> join ", " (map (λ (ob : OrderBy). quote ob.field <> (" " <> ob.direction)) obs)

unfoldable pub add_given_order : {V : Type 0} → (String → String) → List OrderBy → Parts V → Parts V
unfolding given_order is_nil add_text
add_given_order quote obs p = if is_nil obs then p else add_text (given_order quote obs) p

module _ (dyn : Dynamic) (ph : ℕ → String) (quote : String → String) (provider : String) where
  open dyn use {Value, to_upper}

  -- The statement, from its list of columns on.
  unfoldable pub generate_joined :
      String
      → String
      → List Join
      → Option (WhereClause Value)
      → List OrderBy
      → Option ℤ
      → Option ℤ
      → Query Value
  unfolding query start from_table
  generate_joined selected table joins w obs limit offset =
      let from = add_text (from_table to_upper quote table) (add_text selected start) in
      let joined = for_each (add_join to_upper quote) joins from in
      let filtered = add_where dyn ph quote provider w joined in
      let ordered = add_given_order quote obs filtered in
      let limited = add_positive dyn ph quote provider "LIMIT " limit ordered in
      query (add_positive dyn ph quote provider "OFFSET " offset limited)

module _ (dyn : Dynamic) where
  open dyn use {Value, to_upper}

  unfoldable pub generate_joins_postgres :
      String
      → List String
      → List Join
      → Option (WhereClause Value)
      → List OrderBy
      → Option ℤ
      → Option ℤ
      → Query Value
  unfolding generate_joined select_joined
  generate_joins_postgres table columns joins w obs limit offset =
      generate_joined dyn dollar quote_identifier "postgresql"
        (select_joined to_upper quote_identifier table columns joins) table joins w obs limit offset

  unfoldable pub generate_joins_mysql :
      String
      → List String
      → List Join
      → Option (WhereClause Value)
      → List OrderBy
      → Option ℤ
      → Option ℤ
      → Query Value
  unfolding generate_joined select_quoted
  generate_joins_mysql table columns joins w obs limit offset =
      generate_joined dyn question quote_identifier_mysql "mysql"
        (select_quoted to_upper quote_identifier_mysql columns) table joins w obs limit offset

  unfoldable pub generate_joins_sqlite :
      String
      → List String
      → List Join
      → Option (WhereClause Value)
      → List OrderBy
      → Option ℤ
      → Option ℤ
      → Query Value
  unfolding generate_joined select_joined
  generate_joins_sqlite table columns joins w obs limit offset =
      generate_joined dyn question quote_identifier_sqlite "sqlite"
        (select_joined to_upper quote_identifier_sqlite table columns joins) table joins w obs limit
        offset
