-- ===== src/Query/Aggregate/Tests.antt =====
-- Runs of `GenerateAggregate` (query/sqlgen/aggregations.go), and the theorem on one of them.
use prisma_go.Query.Statement.Arguments.{add_having_always, add_where}
use prisma_go.Base.{join, ◌≡◌, refl, List, [], ◌∷◌, none, some, pos}
use prisma_go.Query.Condition.{operator_case, is_comparison}
use prisma_go.Query.Where.Pieces.{render, bound, join_pieces, where_pieces}
use prisma_go.Query.Statement.{add_group_by}
use prisma_go.Query.Fixtures.{TestValue, int, str, test, plain, counted, popular, grown}
use prisma_go.Query.Postgres.{dollar, quote_identifier}
use prisma_go.Query.Mysql.{question, quote_identifier_mysql}
use prisma_go.Query.Sqlite.{quote_identifier_sqlite}
use prisma_go.Query.Aggregate.{
  generate_aggregate_postgres, generate_aggregate_mysql, generate_aggregate_sqlite,
}
use prisma_go.Query.Aggregate.Statements.{aggregate_parts, generate_aggregates-AreStatements}

abbrev two_args : List TestValue
two_args = int (pos 18) ∷ int (pos 2) ∷ []

generate_aggregates-AreStatements_example :
    let p = generate_aggregate_postgres test "users" counted (some grown) none (some popular) in
    let m = generate_aggregate_mysql test "users" counted (some grown) none (some popular) in
    let s = generate_aggregate_sqlite test "users" counted (some grown) none (some popular) in
    ((p.sql ≡ "SELECT COUNT(*) AS \"n\" FROM \"users\" WHERE \"age\" > $1 HAVING COUNT(*) > $2")
      × (p.args ≡ two_args))
    × ((m.sql ≡ "SELECT COUNT(*) AS `n` FROM `users` WHERE `age` > ? HAVING COUNT(*) > ?")
        × (m.args ≡ two_args))
    × ((s.sql ≡ "SELECT COUNT(*) AS \"n\" FROM \"users\" WHERE \"age\" > ? HAVING COUNT(*) > ?")
        × (s.args ≡ two_args))
unfolding aggregate_parts render bound operator_case dollar question quote_identifier
    quote_identifier_mysql quote_identifier_sqlite join_pieces join where_pieces
generate_aggregates-AreStatements_example =
    generate_aggregates-AreStatements test "users" counted (some grown) none (some popular)

-- No comparison: the keyword is left alone at the end.
having_alone_run :
    (generate_aggregate_postgres test "users" counted none none
      (some (record { conditions = plain "x" "LIKE" (str "y") ∷ []; operator = "AND" }))).sql
    ≡ "SELECT COUNT(*) AS \"n\" FROM \"users\" HAVING "
unfolding generate_aggregate_postgres quote_identifier add_having_always add_group_by add_where
    is_comparison
having_alone_run = refl
