-- ===== src/Query/Builder/Tests.antt =====
-- A run of `WhereBuilder` (query/builder/builder.go), and the theorem on it.
use prisma_go.Base.{String, ◌++◌, ◌≡◌, refl, List, [], ◌∷◌, none, some, false}
use prisma_go.Query.Condition.{Condition, where_clause, no_groups, group, is_empty}
use prisma_go.Query.Builder.{
  WhereBuilder, new_where_builder, plain_condition, equals, set_operator, combine, build,
  build-conditions,
}

abbrev by_id : List (Condition String)
by_id = plain_condition "id" "=" "7" ∷ []

build-conditions_example :
    let simple : WhereBuilder String = record {
      conditions = by_id;
      operator = "OR";
      clause = none;
    } in
    let complex : WhereBuilder String = record {
      conditions = by_id;
      operator = "OR";
      clause = some (where_clause by_id no_groups "AND" false);
    } in
    ((build simple).0 ≡ some (where_clause by_id no_groups "OR" false))
    × ((build complex).0 ≡ some (where_clause (by_id ++ by_id) no_groups "AND" false))
    × ((build (build complex).1).0
        ≡ some (where_clause ((by_id ++ by_id) ++ by_id) no_groups "AND" false))
unfolding is_empty
build-conditions_example = build-conditions by_id "OR" by_id no_groups "AND" false refl

-- The operator of a builder that has groups is not that of its clause.
operator_lost_run :
    (build {V = String} (
      combine "OR"
        (some (equals "a" "1" new_where_builder) ∷ [])
        (set_operator "OR" (equals "b" "2" new_where_builder)))).0
    ≡ some (
        where_clause
          (plain_condition "b" "=" "2" ∷ [])
          (group
            (where_clause []
              (group
                (where_clause (plain_condition "a" "=" "1" ∷ []) no_groups "AND" false)
                no_groups)
              "OR"
              false)
            no_groups)
          "AND"
          false)
unfolding build combine set_operator equals new_where_builder
operator_lost_run = refl
