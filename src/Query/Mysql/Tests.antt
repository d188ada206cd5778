-- ===== src/Query/Mysql/Tests.antt =====
-- Runs of the MySQL generator (query/sqlgen/sqlgen.go), and the theorems on them.
use prisma_go.Base.{join, ◌≡◌, [], ◌∷◌, none, some, pos}
use prisma_go.Query.Condition.{operator_case}
use prisma_go.Query.Where.Pieces.{bound, render, join_pieces, where_pieces}
use prisma_go.Query.Fixtures.{int, str, test, recent_and_tags, grown}
use prisma_go.Query.Mysql.{
  quote_identifier_mysql, question, generate_select, generate_select_with_cte,
}
use prisma_go.Query.Mysql.Statements.{
  select_parts, query_parts, generate_select-IsMysqlStatement,
  generate_select_with_cte-IsMysqlStatement,
}

generate_select-IsMysqlStatement_example :
    let q = generate_select test "users" [] (some grown) [] (some (pos 0)) (some (pos 5)) in
    (q.sql ≡ "SELECT * FROM `users` WHERE `age` > ? LIMIT 18446744073709551615 OFFSET ?")
    × (q.args ≡ int (pos 18) ∷ int (pos 5) ∷ [])
unfolding select_parts render bound operator_case question quote_identifier_mysql join_pieces join
    where_pieces
generate_select-IsMysqlStatement_example =
    generate_select-IsMysqlStatement test "users" [] (some grown) [] (some (pos 0)) (some (pos 5))

generate_select_with_cte-IsMysqlStatement_example :
    let q =
      generate_select_with_cte test "recent" [] recent_and_tags [] (some grown) [] none none in
    (q.sql
      ≡ "WITH RECURSIVE `recent` AS (SELECT * FROM posts WHERE day > $1), `tags` (`id`, `name`) AS (SELECT * FROM tags WHERE name = ?) SELECT * FROM `recent` WHERE `age` > ?")
    × (q.args ≡ int (pos 7) ∷ str "a" ∷ int (pos 18) ∷ [])
unfolding query_parts render bound operator_case question quote_identifier_mysql join_pieces join
    where_pieces
generate_select_with_cte-IsMysqlStatement_example =
    generate_select_with_cte-IsMysqlStatement test "recent" [] recent_and_tags [] (some grown) []
      none none
