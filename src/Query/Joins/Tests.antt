-- ===== src/Query/Joins/Tests.antt =====
-- A run of `GenerateSelectWithJoins` (query/sqlgen/joins.go), and the theorem on it.
use prisma_go.Base.{join, ◌≡◌, List, [], ◌∷◌, none, some, pos}
use prisma_go.Query.Condition.{operator_case}
use prisma_go.Query.Where.Pieces.{render, bound, join_pieces, where_pieces}
use prisma_go.Query.Statement.{from_table, select_quoted}
use prisma_go.Query.Fixtures.{TestValue, int, test, to_posts, grown, by_age}
use prisma_go.Query.Postgres.{dollar, quote_identifier}
use prisma_go.Query.Mysql.{question, quote_identifier_mysql}
use prisma_go.Query.Sqlite.{quote_identifier_sqlite}
use prisma_go.Query.Joins.{
  generate_joins_postgres, generate_joins_mysql, generate_joins_sqlite, given_order, select_joined,
}
use prisma_go.Query.Joins.Statements.{joined_parts, generate_joins-AreStatements}

abbrev two_args : List TestValue
two_args = int (pos 18) ∷ int (pos 5) ∷ []

generate_joins-AreStatements_example :
    let p =
      generate_joins_postgres test "users"
        ("id" ∷ [])
        to_posts
        (some grown)
        by_age
        none
        (some (pos 5)) in
    let m =
      generate_joins_mysql test "users"
        ("id" ∷ [])
        to_posts
        (some grown)
        by_age
        none
        (some (pos 5)) in
    let s =
      generate_joins_sqlite test "users"
        ("id" ∷ [])
        to_posts
        (some grown)
        by_age
        none
        (some (pos 5)) in
    ((p.sql
        ≡ "SELECT \"users\".\"id\", \"p\".* FROM \"users\" LEFT JOIN \"posts\" AS \"p\" ON p.author = users.id WHERE \"age\" > $1 ORDER BY \"age\" desc OFFSET $2")
      × (p.args ≡ two_args))
    × ((m.sql
          ≡ "SELECT `id` FROM `users` LEFT JOIN `posts` AS `p` ON p.author = users.id WHERE `age` > ? ORDER BY `age` desc OFFSET ?")
        × (m.args ≡ two_args))
    × ((s.sql
          ≡ "SELECT \"users\".\"id\", \"p\".* FROM \"users\" LEFT JOIN \"posts\" AS \"p\" ON p.author = users.id WHERE \"age\" > ? ORDER BY \"age\" desc OFFSET ?")
        × (s.args ≡ two_args))
unfolding joined_parts render bound operator_case dollar question quote_identifier
    quote_identifier_mysql quote_identifier_sqlite join_pieces join where_pieces select_joined
    select_quoted from_table given_order
generate_joins-AreStatements_example =
    generate_joins-AreStatements test "users" ("id" ∷ []) to_posts (some grown) by_age none
      (some (pos 5))
