-- ===== src/Query/Joins/Statements.antt =====
-- The statements of `GenerateSelectWithJoins` (query/sqlgen/joins.go) against their specification.
use prisma_go.Base.{ℕ, String, List, [], ◌∷◌, ◌++◌, map, Option, ℤ}
use prisma_go.Query.Condition.{Dynamic, WhereClause}
use prisma_go.Query.Where.Pieces.{Piece}
use prisma_go.Query.Statement.{OrderBy, Join, from_table, select_quoted, is_nil}
use prisma_go.Query.Statement.Appending.{
  texts, Appends, ◌▸◌, none-Appends, text-Appends, query-Appends,
}
use prisma_go.Query.Statement.Clauses.{where_parts, where-Appends, number_parts, positive-Appends}
use prisma_go.Query.Statement.Texts.{joins-Appends}
use prisma_go.Query.Grammar.{join_text}
use prisma_go.Query.Postgres.{quote_identifier, dollar}
use prisma_go.Query.Postgres.Statements.{IsStatement}
use prisma_go.Query.Mysql.{quote_identifier_mysql, question}
use prisma_go.Query.Sqlite.{quote_identifier_sqlite}
use prisma_go.Query.Joins.{
  select_joined, given_order, add_given_order, generate_joined, generate_joins_postgres,
  generate_joins_mysql, generate_joins_sqlite,
}

unfoldable pub given_texts : (String → String) → List OrderBy → List String
given_texts quote [] = []
given_texts quote (ob ∷ obs) = given_order quote (ob ∷ obs) ∷ []

given_order-Appends :
    {V : Type 0} (ph : ℕ → String) (quote : String → String) (obs : List OrderBy)
    → Appends {V = V} ph (add_given_order quote obs) (texts (given_texts quote obs))
unfolding add_given_order is_nil texts given_texts
given_order-Appends ph quote [] = none-Appends ph
given_order-Appends ph quote (ob ∷ obs) = text-Appends ph (given_order quote (ob ∷ obs))

module _ (dyn : Dynamic) (ph : ℕ → String) (quote : String → String) (provider : String) where
  open dyn use {Value, to_upper}

  unfoldable pub joined_parts :
      String
      → String
      → List Join
      → Option (WhereClause Value)
      → List OrderBy
      → Option ℤ
      → Option ℤ
      → List (List (Piece Value))
  unfolding where_parts number_parts given_texts texts
  joined_parts selected table joins w obs limit offset =
      texts (selected ∷ from_table to_upper quote table ∷ [])
      ++ (texts (map (join_text quote to_upper) joins)
          ++ (where_parts dyn ph quote provider w
              ++ (texts (given_texts quote obs)
                  ++ (number_parts dyn ph quote provider "LIMIT " limit
                      ++ number_parts dyn ph quote provider "OFFSET " offset))))

  joined-IsStatement :
      (selected table : String) (joins : List Join) (w : Option (WhereClause Value))
      (obs : List OrderBy) (limit offset : Option ℤ)
      → IsStatement ph
          (generate_joined dyn ph quote provider selected table joins w obs limit offset)
          (joined_parts selected table joins w obs limit offset)
  unfolding generate_joined joined_parts texts
  joined-IsStatement selected table joins w obs limit offset = query-Appends ph _ _ (
      text-Appends ph selected
      ▸ text-Appends ph (from_table to_upper quote table)
      ▸ joins-Appends to_upper quote ph joins
      ▸ where-Appends dyn ph quote provider w
      ▸ given_order-Appends ph quote obs
      ▸ positive-Appends dyn ph quote provider "LIMIT " limit
      ▸ positive-Appends dyn ph quote provider "OFFSET " offset)

module _ (dyn : Dynamic) where
  open dyn use {Value, to_upper}

  -- `GenerateSelectWithJoins` of the three generators writes the joins behind the table and then
  -- the condition, the order, the limit and the offset, each with the placeholders and the quoting
  -- of its database; the places are numbered through from 1 and the arguments are those of the
  -- places in order. MySQL's offset stands without a limit if none is given. The text of a subquery
  -- is copied as it is, with the numbers that its own places have.
  pub generate_joins-AreStatements :
      (table : String) (columns : List String) (joins : List Join) (w : Option (WhereClause Value))
      (obs : List OrderBy) (limit offset : Option ℤ)
      → IsStatement dollar (generate_joins_postgres dyn table columns joins w obs limit offset) (
          joined_parts dyn dollar quote_identifier "postgresql"
            (select_joined to_upper quote_identifier table columns joins)
            table
            joins
            w
            obs
            limit
            offset)
        × IsStatement question (generate_joins_mysql dyn table columns joins w obs limit offset) (
            joined_parts dyn question quote_identifier_mysql "mysql"
              (select_quoted to_upper quote_identifier_mysql columns)
              table
              joins
              w
              obs
              limit
              offset)
        × IsStatement question (generate_joins_sqlite dyn table columns joins w obs limit offset) (
            joined_parts dyn question quote_identifier_sqlite "sqlite"
              (select_joined to_upper quote_identifier_sqlite table columns joins)
              table
              joins
              w
              obs
              limit
              offset)
  unfolding generate_joins_postgres generate_joins_mysql generate_joins_sqlite
  generate_joins-AreStatements table columns joins w obs limit offset = (
    joined-IsStatement dyn dollar quote_identifier "postgresql" _ table joins w obs limit offset,
    joined-IsStatement dyn question quote_identifier_mysql "mysql" _ table joins w obs limit offset,
    joined-IsStatement dyn question quote_identifier_sqlite "sqlite" _ table joins w obs limit
        offset,
  )
