-- ===== src/Query/Builder.antt =====
-- `WhereBuilder` (query/builder/builder.go, query/builder/complex_where.go) and the methods of
-- `WhereClause` that it uses (query/sqlgen/where.go).
--
-- A method returns the builder that it was called on, which is the new state here. A builder that is
-- given to `AND`, `OR` or `NOT` is not used again; the clause that it has built is a value. A nil of
-- Go's `interface{}`, and a slice and a text as one, are parameters.
mod Tests
use prisma_go.Base.{
  ◌≡◌, refl, sym, ap, ◌∙◌, if◌then◌else◌, Bool, true, false, String, List, [], ◌∷◌, ◌++◌,
  append-nil, append_assoc, Option, none, some, for_each,
}
use prisma_go.Query.Condition.{
  Condition, WhereClause, where_clause, Groups, no_groups, nil_group, group, is_empty,
}

module _ {V : Type 0} where
  -- `NewWhereClause`
  unfoldable pub new_where_clause : WhereClause V
  new_where_clause = where_clause [] no_groups "AND" false

  -- `AddCondition` of a clause.
  unfoldable pub with_condition : Condition V → WhereClause V → WhereClause V
  with_condition c (where_clause conditions groups operator is_not) =
      where_clause (conditions ++ (c ∷ [])) groups operator is_not

  -- `append(w.Groups, group)`
  unfoldable pub append_group : Groups V → WhereClause V → Groups V
  append_group no_groups w = group w no_groups
  append_group (nil_group groups) w = nil_group (append_group groups w)
  append_group (group v groups) w = group v (append_group groups w)

  -- `AddGroup`
  unfoldable pub with_group : WhereClause V → WhereClause V → WhereClause V
  unfolding append_group
  with_group w (where_clause conditions groups operator is_not) =
      where_clause conditions (append_group groups w) operator is_not

  -- `SetOperator`, `SetNot`
  unfoldable pub with_operator : String → WhereClause V → WhereClause V
  with_operator op (where_clause conditions groups operator is_not) =
      where_clause conditions groups op is_not

  unfoldable pub with_not : Bool → WhereClause V → WhereClause V
  with_not b (where_clause conditions groups operator is_not) =
      where_clause conditions groups operator b

  unfoldable pub clause_is_empty : WhereClause V → Bool
  unfolding is_empty
  clause_is_empty (where_clause conditions groups operator is_not) = is_empty conditions groups

-- `WhereBuilder`; `clause` is its field `whereClause`.
pub record WhereBuilder (V : Type 0) : Type 0 where
  pub conditions : List (Condition V)
  pub operator : String
  pub clause : Option (WhereClause V)

module _ {V : Type 0} where
  -- `NewWhereBuilder`, `NewSubWhereBuilder`
  unfoldable pub new_where_builder : WhereBuilder V
  new_where_builder = record { conditions = []; operator = "AND"; clause = none }

  -- A condition with the fields that the method sets, the others the zero value.
  abbrev pub plain_condition : String → String → V → Condition V
  plain_condition field operator value = record {
    field = field;
    operator = operator;
    value = value;
    json_path = "";
    json_type = "";
    is_join_condition = false;
    left_table = "";
    right_table = "";
    is_subquery = false;
  }

  -- `AddSubqueryCondition`, and what each of the methods does with its condition.
  unfoldable pub add_subquery_condition : Condition V → WhereBuilder V → WhereBuilder V
  add_subquery_condition cond w = record w { conditions = w.conditions ++ (cond ∷ []) }

  unfoldable pub equals : String → V → WhereBuilder V → WhereBuilder V
  unfolding add_subquery_condition
  equals field value w = add_subquery_condition (plain_condition field "=" value) w

  unfoldable pub not_equals : String → V → WhereBuilder V → WhereBuilder V
  unfolding add_subquery_condition
  not_equals field value w = add_subquery_condition (plain_condition field "!=" value) w

  unfoldable pub greater_than : String → V → WhereBuilder V → WhereBuilder V
  unfolding add_subquery_condition
  greater_than field value w = add_subquery_condition (plain_condition field ">" value) w

  unfoldable pub less_than : String → V → WhereBuilder V → WhereBuilder V
  unfolding add_subquery_condition
  less_than field value w = add_subquery_condition (plain_condition field "<" value) w

  unfoldable pub greater_or_equal : String → V → WhereBuilder V → WhereBuilder V
  unfolding add_subquery_condition
  greater_or_equal field value w = add_subquery_condition (plain_condition field ">=" value) w

  unfoldable pub less_or_equal : String → V → WhereBuilder V → WhereBuilder V
  unfolding add_subquery_condition
  less_or_equal field value w = add_subquery_condition (plain_condition field "<=" value) w

  -- `In` and `NotIn` of a slice, and `Like` of a text, each as an `interface{}`.
  unfoldable pub is_in : String → V → WhereBuilder V → WhereBuilder V
  unfolding add_subquery_condition
  is_in field values w = add_subquery_condition (plain_condition field "IN" values) w

  unfoldable pub not_in : String → V → WhereBuilder V → WhereBuilder V
  unfolding add_subquery_condition
  not_in field values w = add_subquery_condition (plain_condition field "NOT IN" values) w

  unfoldable pub like : String → V → WhereBuilder V → WhereBuilder V
  unfolding add_subquery_condition
  like field pattern w = add_subquery_condition (plain_condition field "LIKE" pattern) w

  -- `IsNull`, `IsNotNull`; their value is the nil of `interface{}`.
  unfoldable pub is_null : V → String → WhereBuilder V → WhereBuilder V
  unfolding add_subquery_condition
  is_null nil_value field w = add_subquery_condition (plain_condition field "IS NULL" nil_value) w

  unfoldable pub is_not_null : V → String → WhereBuilder V → WhereBuilder V
  unfolding add_subquery_condition
  is_not_null nil_value field w =
      add_subquery_condition (plain_condition field "IS NOT NULL" nil_value) w

  unfoldable pub json_path : String → String → V → WhereBuilder V → WhereBuilder V
  unfolding add_subquery_condition
  json_path field path value w =
      add_subquery_condition
        (record (plain_condition field "JSON_PATH" value) { json_path = path; json_type = "path" })
        w

  unfoldable pub json_contains : String → V → WhereBuilder V → WhereBuilder V
  unfolding add_subquery_condition
  json_contains field value w =
      add_subquery_condition
        (record (plain_condition field "JSON_CONTAINS" value) { json_type = "contains" }) w

  unfoldable pub json_array_contains : String → String → V → WhereBuilder V → WhereBuilder V
  unfolding add_subquery_condition
  json_array_contains field path value w =
      add_subquery_condition
        (record (plain_condition field "JSON_ARRAY_CONTAINS" value) {
          json_path = path;
          json_type = "array_contains";
        })
        w

  unfoldable pub json_has_key : String → V → WhereBuilder V → WhereBuilder V
  unfolding add_subquery_condition
  json_has_key field key w =
      add_subquery_condition
        (record (plain_condition field "JSON_HAS_KEY" key) { json_type = "has_key" }) w

  -- `SetOperator` of the builder.
  unfoldable pub set_operator : String → WhereBuilder V → WhereBuilder V
  set_operator op w = record w { operator = op }

  -- `Build` without a nested clause, or with an empty one.
  unfoldable pub build_simple : List (Condition V) → String → Option (WhereClause V)
  unfolding with_condition with_operator new_where_clause
  build_simple [] operator = none
  build_simple (c ∷ conditions) operator =
      some (for_each with_condition (c ∷ conditions) (with_operator operator new_where_clause))

  -- `Build`: the clause, and the builder, whose nested clause has the conditions as well.
  unfoldable pub build : WhereBuilder V → Option (WhereClause V) × WhereBuilder V
  unfolding build_simple with_condition clause_is_empty
  build w = elim w.clause [
    | none ↦ (build_simple w.conditions w.operator, w)
    | some clause ↦
        let built = for_each with_condition w.conditions clause in
        if clause_is_empty clause
        then (build_simple w.conditions w.operator, w)
        else (some built, record w { clause = some built })
  ]

  -- The loop over the builders that `AND` and `OR` are given. One of them may be nil.
  unfoldable pub add_built : Option (WhereClause V) → WhereClause V → WhereClause V
  unfolding with_group clause_is_empty
  add_built none clause = clause
  add_built (some sub) clause = if clause_is_empty sub then clause else with_group sub clause

  unfoldable pub add_builder : Option (WhereBuilder V) → WhereClause V → WhereClause V
  unfolding add_built build
  add_builder none clause = clause
  add_builder (some b) clause = add_built (build b).0 clause

  -- `if w.whereClause == nil { … }` and the group behind it.
  unfoldable pub nest : WhereClause V → WhereBuilder V → WhereBuilder V
  unfolding with_group new_where_clause
  nest sub w = elim w.clause [
    | none ↦ record w { clause = some (with_group sub new_where_clause) }
    | some clause ↦ record w { clause = some (with_group sub clause) }
  ]

  -- `AND`, `OR`
  unfoldable pub combine : String → List (Option (WhereBuilder V)) → WhereBuilder V → WhereBuilder V
  unfolding add_builder nest with_operator new_where_clause
  combine operator builders w =
      nest (for_each add_builder builders (with_operator operator new_where_clause)) w

  -- `NOT`
  unfoldable pub negate_built : Option (WhereClause V) → WhereBuilder V → WhereBuilder V
  unfolding nest with_not clause_is_empty
  negate_built none w = w
  negate_built (some sub) w = if clause_is_empty sub then w else nest (with_not true sub) w

  unfoldable pub negate : Option (WhereBuilder V) → WhereBuilder V → WhereBuilder V
  unfolding negate_built build
  negate none w = w
  negate (some b) w = negate_built (build b).0 w

  -- The conditions stand behind those that the clause has.
  with_conditions :
      (cs ds : List (Condition V)) (groups : Groups V) (operator : String) (is_not : Bool)
      → for_each with_condition cs (where_clause ds groups operator is_not)
        ≡ where_clause (ds ++ cs) groups operator is_not
  unfolding with_condition
  with_conditions [] ds groups operator is_not =
      ap (λ es. where_clause es groups operator is_not) (sym (append-nil ds))
  with_conditions (c ∷ cs) ds groups operator is_not =
      with_conditions cs (ds ++ (c ∷ [])) groups operator is_not
      ∙ ap (λ es. where_clause es groups operator is_not) (append_assoc ds (c ∷ []) cs)

  built_simple :
      (cs : List (Condition V)) (operator : String)
      → build_simple cs operator
        ≡ (if is_empty cs no_groups then none else some (where_clause cs no_groups operator false))
  unfolding build_simple with_operator new_where_clause is_empty
  built_simple [] operator = refl
  built_simple (c ∷ cs) operator = ap some (with_conditions (c ∷ cs) [] no_groups operator false)

  still_full :
      (cs ds : List (Condition V)) (gs : Groups V)
      → is_empty ds gs ≡ false
      → is_empty (ds ++ cs) gs ≡ false
  unfolding is_empty
  still_full cs (d ∷ ds) gs full = refl
  still_full [] [] gs full = full
  still_full (c ∷ cs) [] gs full = refl

  build_nested :
      (cs : List (Condition V)) (operator : String) (ds : List (Condition V)) (groups : Groups V)
      (nested : String) (is_not : Bool)
      → is_empty ds groups ≡ false
      → build (record {
        conditions = cs;
        operator = operator;
        clause = some (where_clause ds groups nested is_not);
      })
        ≡ (
          some (where_clause (ds ++ cs) groups nested is_not),
          record {
            conditions = cs;
            operator = operator;
            clause = some (where_clause (ds ++ cs) groups nested is_not);
          },
        )
  unfolding build clause_is_empty
  build_nested cs operator ds groups nested is_not full = rw full (
      ap
        (λ (w : WhereClause V).
          (some w, record { conditions = cs; operator = operator; clause = some w }))
        (with_conditions cs ds groups nested is_not))

  -- A builder without groups builds the clause of its conditions and its operator, and no clause if
  -- it has no condition. Of a builder with a nested clause that is not empty, `Build` returns the
  -- nested clause, with its own operator, and the conditions behind those that it has; a second
  -- `Build` of the builder that the first has left has them once more.
  pub build-conditions :
      (cs : List (Condition V)) (operator : String) (ds : List (Condition V)) (groups : Groups V)
      (nested : String) (is_not : Bool)
      → is_empty ds groups ≡ false
      → let simple : WhereBuilder V = record {
        conditions = cs;
        operator = operator;
        clause = none;
      } in
        let complex : WhereBuilder V = record {
          conditions = cs;
          operator = operator;
          clause = some (where_clause ds groups nested is_not);
        } in
        ((build simple).0 ≡ (
          if is_empty cs no_groups then none else some (where_clause cs no_groups operator false)))
        × ((build complex).0 ≡ some (where_clause (ds ++ cs) groups nested is_not))
        × ((build (build complex).1).0
            ≡ some (where_clause ((ds ++ cs) ++ cs) groups nested is_not))
  unfolding build
  build-conditions cs operator ds groups nested is_not full =
      let first = build_nested cs operator ds groups nested is_not full in
      let second =
        build_nested cs operator (ds ++ cs) groups nested is_not (still_full cs ds groups full) in
      (
        built_simple cs operator,
        ap (λ r. r.0) first,
        ap (λ r. (build r.1).0) first ∙ ap (λ r. r.0) second,
      )
