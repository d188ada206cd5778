-- ===== src/Query/Grouped/Tests.antt =====
-- A run of `GenerateSelectWithAggregates` of the three generators, and the theorem on it.
use prisma_go.Base.{join, ◌≡◌, List, [], ◌∷◌, none, some, pos}
use prisma_go.Query.Condition.{operator_case}
use prisma_go.Query.Where.Pieces.{render, bound, join_pieces, where_pieces}
use prisma_go.Query.Fixtures.{TestValue, int, test, counted, popular, to_posts, grown}
use prisma_go.Query.Postgres.{dollar, quote_identifier, generate_select_with_aggregates}
use prisma_go.Query.Postgres.Statements.{aggregates_parts}
use prisma_go.Query.Mysql.{question, quote_identifier_mysql}
use prisma_go.Query.Mysql.Statements.{offset_parts}
use prisma_go.Query.Sqlite.{quote_identifier_sqlite}
use prisma_go.Query.Grouped.{
  generate_select_with_aggregates_mysql, generate_select_with_aggregates_sqlite,
}
use prisma_go.Query.Grouped.Statements.{
  grouped_parts, generate_select_with_aggregates-AreStatements,
}

abbrev three_args : List TestValue
three_args = int (pos 18) ∷ int (pos 2) ∷ int (pos 5) ∷ []

generate_select_with_aggregates-AreStatements_example :
    let p =
      generate_select_with_aggregates test "users"
        ("role" ∷ [])
        counted
        to_posts
        (some grown)
        (some (record { fields = "role" ∷ [] }))
        (some popular)
        []
        none
        (some (pos 5)) in
    let m =
      generate_select_with_aggregates_mysql test "users"
        ("role" ∷ [])
        counted
        to_posts
        (some grown)
        (some (record { fields = "role" ∷ [] }))
        (some popular)
        []
        none
        (some (pos 5)) in
    let s =
      generate_select_with_aggregates_sqlite test "users"
        ("role" ∷ [])
        counted
        to_posts
        (some grown)
        (some (record { fields = "role" ∷ [] }))
        (some popular)
        []
        none
        (some (pos 5)) in
    ((p.sql
        ≡ "SELECT \"role\", COUNT(*) AS \"n\" FROM \"users\" LEFT JOIN \"posts\" AS \"p\" ON p.author = users.id WHERE \"age\" > $1 GROUP BY \"role\" HAVING COUNT(*) > $2 OFFSET $3")
      × (p.args ≡ three_args))
    × ((m.sql
          ≡ "SELECT `role`, COUNT(*) AS `n` FROM `users` LEFT JOIN `posts` AS `p` ON p.author = users.id WHERE `age` > ? GROUP BY `role` HAVING COUNT(*) > ? LIMIT 18446744073709551615 OFFSET ?")
        × (m.args ≡ three_args))
    × ((s.sql
          ≡ "SELECT \"role\", COUNT(*) AS \"n\" FROM \"users\" LEFT JOIN \"posts\" AS \"p\" ON p.author = users.id WHERE \"age\" > ? GROUP BY \"role\" HAVING COUNT(*) > ? OFFSET ?")
        × (s.args ≡ three_args))
unfolding aggregates_parts grouped_parts offset_parts render bound operator_case dollar question
    quote_identifier quote_identifier_mysql quote_identifier_sqlite join_pieces join where_pieces
generate_select_with_aggregates-AreStatements_example =
    generate_select_with_aggregates-AreStatements test "users" ("role" ∷ []) counted to_posts
      (some grown) (some (record { fields = "role" ∷ [] })) (some popular) [] none (some (pos 5))
