-- ===== src/Query/Statement.antt =====
-- The clauses of which the generators compose a statement (query/sqlgen/sqlgen.go,
-- query/sqlgen/aggregations.go). The generators repeat this code with another placeholder and
-- another quoting, which are parameters here. Each clause is a step on the slices `parts` and
-- `args` and on the counter `argIndex`.
pub mod Arguments
pub mod Windows
pub mod Appending
pub mod Clauses
pub mod Texts
pub mod Grouping
use prisma_go.Base.{
  ℕ, ◌+◌, if◌then◌else◌, Bool, true, false, ◌||◌, not, String, ◌<>◌, str_eq, List, [], ◌∷◌, ◌++◌,
  map, Option, none, some, length, for_each, ℤ, is_positive, is_zero, decimal_int,
}
use prisma_go.Query.Condition.{
  Dynamic, Condition, WhereClause, where_clause, is_empty, Built, join, comparison, in_list,
  not_in_list, exists_query, not_exists_query, like, is_null, is_not_null, unknown_operator,
  operator_case, placeholders,
}
use prisma_go.Query.Where.{Parts, build_where}

pub record Query (V : Type 0) : Type 0 where
  pub sql : String
  pub args : List V

pub record Cte (V : Type 0) : Type 0 where
  pub name : String
  pub query : Query V
  pub columns : List String
  pub is_recursive : Bool

pub record OrderBy : Type 0 where
  pub field : String
  pub direction : String

pub record Join : Type 0 where
  pub join_type : String
  pub table : String
  pub alias : String
  pub condition : String
  pub columns : List String

pub record AggregateFunction : Type 0 where
  pub function : String
  pub field : String
  pub alias : String

pub record GroupBy : Type 0 where
  pub fields : List String

pub record Having (V : Type 0) : Type 0 where
  pub conditions : List (Condition V)
  pub operator : String

-- `len(xs) == 0`
unfoldable pub is_nil : {A : Type 0} → List A → Bool
is_nil [] = true
is_nil (x ∷ xs) = false

-- The strings that pass a test.
unfoldable pub filter : (String → Bool) → List String → List String
filter f [] = []
filter f (s ∷ rest) = if f s then s ∷ filter f rest else filter f rest

-- `conflictSet[col]`
unfoldable pub has_string : String → List String → Bool
has_string s [] = false
has_string s (t ∷ rest) = str_eq s t || has_string s rest

-- At least one CTE is recursive.
unfoldable pub any_recursive : {V : Type 0} → List (Cte V) → Bool
any_recursive [] = false
any_recursive (cte ∷ ctes) = cte.is_recursive || any_recursive ctes

-- The arguments of the CTEs, one query's after the other's.
unfoldable pub cte_args : {V : Type 0} → List (Cte V) → List V
cte_args [] = []
cte_args (cte ∷ ctes) = cte.query.args ++ cte_args ctes

-- The empty slices, and the counter at 1.
unfoldable pub start : {V : Type 0} → Parts V
start = record { parts = []; args = []; next = 1 }

-- A part without an argument.
unfoldable pub add_text : {V : Type 0} → String → Parts V → Parts V
add_text s p = record p { parts = p.parts ++ (s ∷ []) }

-- `&Query{SQL: strings.Join(parts, " "), Args: args}`
unfoldable pub query : {V : Type 0} → Parts V → Query V
unfolding join
query p = record { sql = join " " p.parts; args = p.args }

-- The clauses that have no argument, which depend on the quoting alone.
module _ (to_upper : String → String) (quote : String → String) where
  unfoldable pub quoted_list : List String → String
  unfolding join
  quoted_list columns = join ", " (map quote columns)

  -- The columns as they are, in `GenerateSelect`.
  unfoldable pub select_columns : List String → String
  unfolding join is_nil
  select_columns columns = if is_nil columns then "SELECT *" else "SELECT " <> join ", " columns

  -- The columns quoted.
  unfoldable pub select_quoted : List String → String
  unfolding quoted_list is_nil
  select_quoted columns = if is_nil columns then "SELECT *" else "SELECT " <> quoted_list columns

  unfoldable pub from_table : String → String
  from_table table = "FROM " <> quote table

  unfoldable pub direction_of : String → String
  direction_of direction =
      if str_eq direction "DESC" || str_eq direction "desc" then "DESC" else "ASC"

  unfoldable pub order_part : OrderBy → String
  unfolding direction_of
  order_part ob = quote ob.field <> (" " <> direction_of ob.direction)

  unfoldable pub order_by : List OrderBy → String
  unfolding order_part join
  order_by obs = "ORDER BY " <> join ", " (map order_part obs)

  unfoldable pub add_order_by : {V : Type 0} → List OrderBy → Parts V → Parts V
  unfolding order_by is_nil add_text
  add_order_by obs p = if is_nil obs then p else add_text (order_by obs) p

  -- `GROUP BY`, from a `*GroupBy` that may be nil.
  unfoldable pub add_group_by : {V : Type 0} → Option GroupBy → Parts V → Parts V
  unfolding quoted_list is_nil add_text
  add_group_by none p = p
  add_group_by (some g) p =
      if is_nil g.fields then p else add_text ("GROUP BY " <> quoted_list g.fields) p

  unfoldable pub join_sql : Join → String
  join_sql j =
      let upper = to_upper j.join_type in
      let join_type = if str_eq upper "" then "LEFT" else upper in
      let alias = if str_eq j.alias "" then "" else " AS " <> quote j.alias in
      let on = if str_eq j.condition "" then "" else " ON " <> j.condition in
      join_type <> (" JOIN " <> (quote j.table <> (alias <> on)))

  unfoldable pub add_join : {V : Type 0} → Join → Parts V → Parts V
  unfolding join_sql add_text
  add_join j p = add_text (join_sql j) p

  unfoldable pub cte_sql : {V : Type 0} → Cte V → String
  unfolding quoted_list is_nil
  cte_sql cte =
      let columns = if is_nil cte.columns then "" else " (" <> (quoted_list cte.columns <> ")") in
      quote cte.name <> (columns <> (" AS (" <> (cte.query.sql <> ")")))

  unfoldable pub with_sql : {V : Type 0} → List (Cte V) → String
  unfolding cte_sql any_recursive join
  with_sql ctes =
      let keyword = if any_recursive ctes then "WITH RECURSIVE" else "WITH" in
      keyword <> (" " <> join ", " (map cte_sql ctes))

  -- `WITH`: the arguments of the CTEs are taken over, and the counter is not moved.
  unfoldable pub add_ctes : {V : Type 0} → List (Cte V) → Parts V → Parts V
  unfolding with_sql cte_args is_nil
  add_ctes ctes p =
      if is_nil ctes
      then p
      else record p { parts = p.parts ++ (with_sql ctes ∷ []); args = p.args ++ cte_args ctes }

  unfoldable pub aggregate_sql : AggregateFunction → String
  aggregate_sql agg =
      let field = if str_eq agg.field "*" then "*" else quote agg.field in
      let call = agg.function <> ("(" <> (field <> ")")) in
      if str_eq agg.alias "" then call else call <> (" AS " <> quote agg.alias)

  -- The columns and then further expressions, or `*`.
  unfoldable pub select_list : List String → List String → String
  unfolding join is_nil
  select_list columns others =
      let select_parts = map quote columns ++ others in
      "SELECT " <> join ", " (if is_nil select_parts then "*" ∷ [] else select_parts)

  unfoldable pub add_columns : {V : Type 0} → List String → Parts V → Parts V
  unfolding quoted_list is_nil add_text
  add_columns columns p =
      if is_nil columns then p else add_text ("(" <> (quoted_list columns <> ")")) p

  -- `ON CONFLICT … DO UPDATE SET`: the given columns, or else those that are not in the target.
  unfoldable pub excluded : String → String
  excluded column = quote column <> (" = EXCLUDED." <> quote column)

  unfoldable pub updated_columns : List String → List String → List String → List String
  unfolding filter has_string is_nil
  updated_columns columns update_columns conflict_target =
      if is_nil update_columns
      then filter (λ column. not (has_string column conflict_target)) columns
      else update_columns

  unfoldable pub add_do_update : {V : Type 0} → List String → Parts V → Parts V
  unfolding excluded add_text join is_nil
  add_do_update updated p =
      if is_nil updated
      then p
      else add_text ("DO UPDATE SET " <> join ", " (map excluded updated)) p

  unfoldable pub add_on_conflict :
      {V : Type 0} → List String → List String → List String → Parts V → Parts V
  unfolding quoted_list updated_columns add_do_update add_text is_nil
  add_on_conflict columns update_columns conflict_target p =
      if is_nil conflict_target
      then p
      else add_do_update (updated_columns columns update_columns conflict_target)
          (add_text ("ON CONFLICT (" <> (quoted_list conflict_target <> ")")) p)
