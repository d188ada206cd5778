-- ===== src/Query/Statement/Arguments.antt =====
-- The clauses of a statement that bind arguments (query/sqlgen/sqlgen.go,
-- query/sqlgen/aggregations.go): WHERE, LIMIT and OFFSET, VALUES, SET and HAVING.
use prisma_go.Base.{
  ℕ, ◌+◌, if◌then◌else◌, ◌||◌, String, ◌<>◌, str_eq, List, [], ◌∷◌, ◌++◌, Option, none, some,
  length, for_each, ℤ, is_positive,
}
use prisma_go.Query.Condition.{
  Dynamic, Condition, WhereClause, where_clause, is_empty, Built, join, is_comparison, placeholders,
}
use prisma_go.Query.Where.{Parts, build_where}
use prisma_go.Query.Statement.{Having, is_nil, add_text}

-- The clauses that bind arguments.
module _ (dyn : Dynamic) (ph : ℕ → String) (quote : String → String) (provider : String) where
  open dyn use {Value, of_int}

  -- `WHERE`, from a `*WhereClause` that may be nil.
  unfoldable pub add_where : Option (WhereClause Value) → Parts Value → Parts Value
  unfolding is_empty
  add_where none p = p
  add_where (some (where_clause conditions groups operator is_not)) p =
      let b =
        build_where dyn ph quote provider (where_clause conditions groups operator is_not) p.next in
      if is_empty conditions groups
      then p
      else if str_eq b.sql ""
      then record p { next = b.next }
      else record {
        parts = p.parts ++ (("WHERE " <> b.sql) ∷ []);
        args = p.args ++ b.args;
        next = b.next;
      }

  -- `WHERE` in a DELETE: without one, a condition that is never true.
  unfoldable pub add_delete_where : Option (WhereClause Value) → Parts Value → Parts Value
  unfolding add_where is_empty add_text
  add_delete_where none p = add_text "WHERE 1=0" p
  add_delete_where (some (where_clause conditions groups operator is_not)) p =
      if is_empty conditions groups
      then add_text "WHERE 1=0" p
      else add_where (some (where_clause conditions groups operator is_not)) p

  -- A keyword and a number, at the counter. (The code does not always count on after `OFFSET`,
  -- the last clause, and nothing reads the counter there.)
  unfoldable pub add_number : String → ℤ → Parts Value → Parts Value
  add_number keyword n p = record {
    parts = p.parts ++ ((keyword <> ph p.next) ∷ []);
    args = p.args ++ (of_int n ∷ []);
    next = p.next + 1;
  }

  -- `LIMIT` or `OFFSET`, from an `*int` that may be nil.
  unfoldable pub add_positive : String → Option ℤ → Parts Value → Parts Value
  unfolding add_number is_positive
  add_positive keyword none p = p
  add_positive keyword (some n) p = if is_positive n then add_number keyword n p else p

  unfoldable pub add_values : List Value → Parts Value → Parts Value
  unfolding join is_nil
  add_values values p = if is_nil values then p else record {
    parts =
        p.parts
        ++ (("VALUES (" <> (join ", " (placeholders dyn ph quote provider p.next values) <> ")"))
            ∷ []);
    args = p.args ++ values;
    next = p.next + length values;
  }

  -- The assignments, in the order in which the runtime goes through the map.
  unfoldable pub set_parts : ℕ → List (String × Value) → List String
  set_parts i [] = []
  set_parts i ((column, v) ∷ set) = (quote column <> (" = " <> ph i)) ∷ set_parts (i + 1) set

  unfoldable pub set_args : List (String × Value) → List Value
  set_args [] = []
  set_args ((column, v) ∷ set) = v ∷ set_args set

  unfoldable pub add_set : List (String × Value) → Parts Value → Parts Value
  unfolding set_parts set_args join is_nil
  add_set set p = if is_nil set then p else record {
    parts = p.parts ++ (("SET " <> join ", " (set_parts p.next set)) ∷ []);
    args = p.args ++ set_args set;
    next = p.next + length set;
  }

  -- One condition of `buildHaving`; the operators other than comparisons are left out.
  unfoldable pub add_having_condition : Condition Value → Parts Value → Parts Value
  add_having_condition cond p =
      let compared : Parts Value = record {
        parts = p.parts ++ ((cond.field <> (" " <> (cond.operator <> (" " <> ph p.next)))) ∷ []);
        args = p.args ++ (cond.value ∷ []);
        next = p.next + 1;
      } in
      if is_comparison cond.operator then compared else p

  -- `buildHaving`
  unfoldable pub build_having : Having Value → ℕ → Built Value
  unfolding add_having_condition join is_nil
  build_having having i =
      let op = if str_eq having.operator "OR" || str_eq having.operator "or" then "OR" else "AND" in
      let p =
        for_each add_having_condition having.conditions
          (record { parts = []; args = []; next = i }) in
      if is_nil p.parts
      then record { sql = ""; args = []; next = p.next }
      else record { sql = join (" " <> (op <> " ")) p.parts; args = p.args; next = p.next }

  -- `HAVING`, from a `*Having` that may be nil.
  unfoldable pub add_having : Option (Having Value) → Parts Value → Parts Value
  unfolding build_having is_nil
  add_having none p = p
  add_having (some having) p =
      let b = build_having having p.next in
      if is_nil having.conditions
      then p
      else if str_eq b.sql ""
      then record p { next = b.next }
      else record {
        parts = p.parts ++ (("HAVING " <> b.sql) ∷ []);
        args = p.args ++ b.args;
        next = b.next;
      }

  -- `HAVING` in `GenerateAggregate`, which is written for conditions without any SQL too.
  unfoldable pub add_having_always : Option (Having Value) → Parts Value → Parts Value
  unfolding build_having is_nil
  add_having_always none p = p
  add_having_always (some having) p =
      let b = build_having having p.next in
      if is_nil having.conditions then p else record {
        parts = p.parts ++ (("HAVING " <> b.sql) ∷ []);
        args = p.args ++ b.args;
        next = b.next;
      }
