-- ===== src/Query/Tests.antt =====
-- Runs of the generators of query/sqlgen on small inputs, and the theorems on them.
use prisma_go.Base.{
  join, decimal_int, true, ◌≡◌, refl, false, ◌<>◌, List, [], ◌∷◌, ◌++◌, ◌+◌, none, some, pos,
  length, ◌↔◌,
}
use prisma_go.Query.Condition.{where_clause, no_groups, is_empty, operator_case}
use prisma_go.Query.Where.{build_where}
use prisma_go.Query.Where.Pieces.{Piece, bound, render, join_pieces, where_pieces}
use prisma_go.Query.Where.Clause.{build_where-bound, build_where-empty_iff}
use prisma_go.Query.Statement.{cte_args, with_sql}
use prisma_go.Query.Postgres.{
  quote_identifier, dollar, generate_select, generate_select_with_cte, generate_update,
  generate_delete,
}
use prisma_go.Query.Postgres.Statements.{
  select_parts, cte_parts, generate_select-IsStatement, generate_select_with_cte_numbering,
}
use prisma_go.Query.Postgres.{generate_select_with_windows}
use prisma_go.Query.Postgres.Statements.{windows_parts, generate_select_with_windows-IsStatement}
use prisma_go.Query.Fixtures.{
  ranked, TestValue, int, str, test, adults, adults_sql, adults_args, no_values, by_age, recent,
  grown, authors,
}
use prisma_go.Query.Where.Pieces.{binds}
use prisma_go.Query.Postgres.Writes.{
  update_parts, erase_parts, generate_update-IsStatement, generate_delete-IsStatement,
  generate_delete_unguarded,
}

build_where_run :
    build_where test dollar quote_identifier "postgresql" adults 1
    ≡ record { sql = adults_sql; args = adults_args; next = 5 }
unfolding build_where dollar quote_identifier operator_case
build_where_run = refl

-- The place of the subquery keeps its own number, so `$1` stands for two arguments.
build_where-bound_example :
    let b = build_where test dollar quote_identifier "postgresql" authors 1 in
    (b.sql ≡ "\"age\" > $1 AND \"id\" IN (SELECT author FROM posts WHERE day > $1)")
    × (b.args ≡ int (pos 18) ∷ str "x" ∷ [])
    × (b.next ≡ 1 + length b.args)
unfolding where_pieces render bound binds operator_case dollar quote_identifier
build_where-bound_example = build_where-bound test dollar quote_identifier "postgresql" authors 1

-- A condition without a value has no SQL.
build_where-empty_iff_example :
    let b =
      build_where test dollar quote_identifier "postgresql"
        (where_clause no_values no_groups "AND" false)
        3 in
    ((b.sql ≡ "") ↔ (◌≡◌ {A = List (Piece TestValue)} [] []))
    × (b.sql ≡ "" → (b.args ≡ []) × (b.next ≡ 3))
unfolding where_pieces operator_case
build_where-empty_iff_example =
    build_where-empty_iff test dollar quote_identifier "postgresql"
      (where_clause no_values no_groups "AND" false) 3

generate_select-IsStatement_example :
    let q = generate_select test "users" [] (some adults) by_age (some (pos 10)) (some (pos 0)) in
    (q.sql ≡ "SELECT * FROM \"users\" WHERE " <> adults_sql <> " ORDER BY \"age\" DESC LIMIT $5")
    × (q.args ≡ adults_args ++ (int (pos 10) ∷ []))
unfolding select_parts render bound binds operator_case dollar quote_identifier join_pieces join
    where_pieces
generate_select-IsStatement_example =
    generate_select-IsStatement test "users" [] (some adults) by_age (some (pos 10)) (some (pos 0))

-- `$1` is in the text twice, for two different arguments.
generate_select_with_cte_numbering_example :
    let q = generate_select_with_cte test "recent" [] recent [] (some grown) [] none none in
    (q.sql
      ≡ "WITH \"recent\" AS (SELECT * FROM posts WHERE day > $1) SELECT * FROM \"recent\" WHERE \"age\" > $1")
    × (q.args ≡ int (pos 7) ∷ int (pos 18) ∷ [])
unfolding cte_parts render bound operator_case dollar quote_identifier join_pieces join cte_args
    with_sql where_pieces
generate_select_with_cte_numbering_example =
    generate_select_with_cte_numbering test "recent" [] recent [] (some grown) [] none none

generate_select_with_windows-IsStatement_example :
    let q =
      generate_select_with_windows test "users"
        ("id" ∷ [])
        ranked
        []
        (some grown)
        []
        (some (pos 5))
        none in
    (q.sql
      ≡ "SELECT \"id\", RANK() OVER (PARTITION BY \"role\" ORDER BY \"age\" DESC ROWS BETWEEN 2 PRECEDING AND CURRENT ROW) AS \"r\" FROM \"users\" WHERE \"age\" > $1 LIMIT $2")
    × (q.args ≡ int (pos 18) ∷ int (pos 5) ∷ [])
unfolding windows_parts decimal_int render bound operator_case dollar quote_identifier join_pieces
    join where_pieces
generate_select_with_windows-IsStatement_example =
    generate_select_with_windows-IsStatement test "users" ("id" ∷ []) ranked [] (some grown) []
      (some (pos 5)) none

generate_update-IsStatement_example :
    let q =
      generate_update test "users" (("name", str "a") ∷ ("age", int (pos 3)) ∷ []) (some grown) in
    (q.sql ≡ "UPDATE \"users\" SET \"name\" = $1, \"age\" = $2 WHERE \"age\" > $3 RETURNING *")
    × (q.args ≡ str "a" ∷ int (pos 3) ∷ int (pos 18) ∷ [])
unfolding update_parts render bound operator_case dollar quote_identifier join_pieces join
    where_pieces
generate_update-IsStatement_example =
    generate_update-IsStatement test "users" (("name", str "a") ∷ ("age", int (pos 3)) ∷ [])
      (some grown)

generate_delete-IsStatement_example :
    let q = generate_delete test "users" (some (where_clause [] no_groups "AND" true)) in
    (q.sql ≡ "DELETE FROM \"users\" WHERE 1=0 RETURNING *") × (q.args ≡ [])
unfolding erase_parts render bound dollar quote_identifier join_pieces join
generate_delete-IsStatement_example =
    generate_delete-IsStatement test "users" (some (where_clause [] no_groups "AND" true))

generate_delete_unguarded_example :
    let q = generate_delete test "users" (some (where_clause no_values no_groups "AND" false)) in
    (q.sql ≡ "DELETE FROM " <> (quote_identifier "users" <> " RETURNING *")) × (q.args ≡ [])
unfolding is_empty where_pieces operator_case
generate_delete_unguarded_example =
    generate_delete_unguarded test "users" no_values no_groups "AND" false refl refl
