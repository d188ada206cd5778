-- ===== src/Query/Writes/Tests.antt =====
-- Runs of `GenerateUpsert` and `GenerateDelete` (query/sqlgen/sqlgen.go), and the theorems on them.
use prisma_go.Base.{join, ◌≡◌, List, [], ◌∷◌, some, pos, false}
use prisma_go.Query.Condition.{where_clause, no_groups, operator_case, json_dialect, json_filter}
use prisma_go.Query.Where.Pieces.{bound, render, join_pieces, where_pieces, binds}
use prisma_go.Query.Fixtures.{TestValue, int, str, test, tagged}
use prisma_go.Query.Postgres.{dollar, quote_identifier, generate_upsert as generate_upsert_postgres}
use prisma_go.Query.Postgres.Writes.{upsert_parts as postgres_upsert_parts}
use prisma_go.Query.Mysql.{
  question, quote_identifier_mysql, generate_upsert as generate_upsert_mysql,
  generate_delete as generate_delete_mysql,
}
use prisma_go.Query.Mysql.Writes.{
  upsert_parts as mysql_upsert_parts, delete_statement_parts as mysql_delete_parts,
}
use prisma_go.Query.Sqlite.{
  quote_identifier_sqlite, generate_upsert as generate_upsert_sqlite,
  generate_delete as generate_delete_sqlite,
}
use prisma_go.Query.Sqlite.Statements.{
  upsert_parts as sqlite_upsert_parts, delete_statement_parts as sqlite_delete_parts,
}
use prisma_go.Query.Writes.{generate_upserts-AreStatements, generate_deletes_postgres_condition}

abbrev named : List TestValue
named = int (pos 1) ∷ str "a" ∷ []

generate_upserts-AreStatements_example :
    let p = generate_upsert_postgres test "users" ("id" ∷ "name" ∷ []) named [] ("id" ∷ []) in
    let m = generate_upsert_mysql test "users" ("id" ∷ "name" ∷ []) named [] ("id" ∷ []) in
    let s = generate_upsert_sqlite test "users" ("id" ∷ "name" ∷ []) named [] ("id" ∷ []) in
    ((p.sql
        ≡ "INSERT INTO \"users\" (\"id\", \"name\") VALUES ($1, $2) ON CONFLICT (\"id\") DO UPDATE SET \"name\" = EXCLUDED.\"name\" RETURNING *")
      × (p.args ≡ named))
    × ((m.sql
          ≡ "INSERT INTO `users` (`id`, `name`) VALUES (?, ?) ON DUPLICATE KEY UPDATE `name` = VALUES(`name`)")
        × (m.args ≡ named))
    × ((s.sql
          ≡ "INSERT INTO \"users\" (\"id\", \"name\") VALUES (?, ?) ON CONFLICT (\"id\") DO UPDATE SET \"name\" = EXCLUDED.\"name\"")
        × (s.args ≡ named))
unfolding postgres_upsert_parts mysql_upsert_parts sqlite_upsert_parts render bound binds dollar
    question quote_identifier quote_identifier_mysql quote_identifier_sqlite join_pieces join
generate_upserts-AreStatements_example =
    generate_upserts-AreStatements test "users" ("id" ∷ "name" ∷ []) named [] ("id" ∷ [])

-- A JSON filter in a form that only PostgreSQL has.
generate_deletes_postgres_condition_example :
    let has_tag = some (where_clause (tagged ∷ []) no_groups "AND" false) in
    let m = generate_delete_mysql test "users" has_tag in
    let s = generate_delete_sqlite test "users" has_tag in
    ((m.sql ≡ "DELETE FROM `users` WHERE \"tags\" @> $1::jsonb") × (m.args ≡ str "new" ∷ []))
    × ((s.sql ≡ "DELETE FROM \"users\" WHERE \"tags\" @> $1::jsonb") × (s.args ≡ str "new" ∷ []))
unfolding mysql_delete_parts sqlite_delete_parts render bound operator_case dollar quote_identifier
    quote_identifier_mysql quote_identifier_sqlite join_pieces join where_pieces json_dialect
    json_filter
generate_deletes_postgres_condition_example =
    generate_deletes_postgres_condition test "users"
      (some (where_clause (tagged ∷ []) no_groups "AND" false))
