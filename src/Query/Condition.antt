-- ===== src/Query/Condition.antt =====
-- Conditions and their SQL (query/sqlgen/where.go, query/sqlgen/buildwhere.go).
--
-- A value of Go's `interface{}` is opaque. What the code asks of its dynamic type, and how `fmt`
-- prints it, is a parameter, `Dynamic`. The counter behind `argIndex *int` is passed along.

unfoldable pub use prisma_go.Base.{join}
use prisma_go.Base.{
  ℕ, ◌+◌, if◌then◌else◌, Bool, true, false, ◌||◌, String, ◌<>◌, str_eq, List, [], ◌∷◌, Option, none,
  some, length, ℤ,
}

pub record Dynamic : Type 1 where
  pub Value : Type 0
  -- The type switch on []interface{}, []int, []string, []float64 and []int64.
  pub as_slice : Value → Option (List Value)
  -- The assertion to an interface with GetSQL and GetArgs, and what these return.
  pub as_subquery : Value → Option (String × List Value)
  -- A string and an int as an `interface{}`.
  pub of_string : String → Value
  pub of_int : ℤ → Value
  -- `fmt.Sprintf` of the value with `%s` and with `%v`.
  pub sprint_s : Value → String
  pub sprint_v : Value → String
  -- `strings.ToUpper`, a table of Unicode.
  pub to_upper : String → String

pub record Condition (V : Type 0) : Type 0 where
  pub field : String
  pub operator : String
  pub value : V
  pub json_path : String
  pub json_type : String
  pub is_join_condition : Bool
  pub left_table : String
  pub right_table : String
  pub is_subquery : Bool

-- `*WhereClause` and `[]*WhereClause`. A nested clause may be nil.
mutual
  pub data WhereClause (V : Type 0) : Type 0 where
    where_clause : List (Condition V) → Groups V → String → Bool → WhereClause V

  pub data Groups (V : Type 0) : Type 0 where
    no_groups : Groups V
    nil_group : Groups V → Groups V
    group : WhereClause V → Groups V → Groups V

-- `IsEmpty`
unfoldable pub is_empty : {V : Type 0} → List (Condition V) → Groups V → Bool
is_empty [] no_groups = true
is_empty [] (nil_group _) = false
is_empty [] (group w _) = false
is_empty (c ∷ conditions) _ = false

-- The SQL and the arguments that a builder returns, and the counter as it leaves it.
pub record Built (V : Type 0) : Type 0 where
  pub sql : String
  pub args : List V
  pub next : ℕ

-- The cases of the switch on `cond.Operator`.
pub data OperatorCase : Type 0 where
  comparison in_list not_in_list exists_query not_exists_query like is_null is_not_null :
      OperatorCase
  unknown_operator : OperatorCase

unfoldable pub is_comparison : String → Bool
is_comparison op =
    str_eq op "="
    || (str_eq op "!=" || (str_eq op ">" || (str_eq op "<" || (str_eq op ">=" || str_eq op "<="))))

unfoldable pub operator_case : String → OperatorCase
unfolding is_comparison
operator_case op =
    if is_comparison op
    then comparison
    else if str_eq op "IN"
    then in_list
    else if str_eq op "NOT IN"
    then not_in_list
    else if str_eq op "EXISTS"
    then exists_query
    else if str_eq op "NOT EXISTS"
    then not_exists_query
    else if str_eq op "LIKE"
    then like
    else if str_eq op "IS NULL"
    then is_null
    else if str_eq op "IS NOT NULL"
    then is_not_null
    else unknown_operator

-- The switches on the provider and on `cond.JsonType`.
pub data JsonDialect : Type 0 where
  postgres_json mysql_json sqlite_json no_json : JsonDialect

unfoldable pub json_dialect : String → JsonDialect
json_dialect provider =
    if str_eq provider "postgresql" || str_eq provider "postgres"
    then postgres_json
    else if str_eq provider "mysql"
    then mysql_json
    else if str_eq provider "sqlite"
    then sqlite_json
    else no_json

pub data JsonFilter : Type 0 where
  json_at_path json_contains json_array_contains json_has_key unknown_filter : JsonFilter

unfoldable pub json_filter : String → JsonFilter
json_filter json_type =
    if str_eq json_type "path"
    then json_at_path
    else if str_eq json_type "contains"
    then json_contains
    else if str_eq json_type "array_contains"
    then json_array_contains
    else if str_eq json_type "has_key"
    then json_has_key
    else unknown_filter

-- `convertJsonPathToPostgres`
unfoldable pub convert_json_path_to_postgres : String → String
convert_json_path_to_postgres path = "'" <> (path <> "'")

module _ (dyn : Dynamic) (placeholder : ℕ → String) (quoter : String → String)
    (provider : String) where
  open dyn use {Value, as_slice, as_subquery, of_string, sprint_s, sprint_v}

  abbrev pub nothing : ℕ → Built Value
  nothing i = record { sql = ""; args = []; next = i }

  -- The placeholders of a list of values, counted up from `i`.
  unfoldable pub placeholders : ℕ → List Value → List String
  placeholders i [] = []
  placeholders i (v ∷ vs) = placeholder i ∷ placeholders (i + 1) vs

  -- `IN` and `NOT IN`, whose code differs in the keyword alone.
  unfoldable pub build_in : String → Condition Value → ℕ → Built Value
  unfolding placeholders join
  build_in keyword cond i =
      if cond.is_subquery
      then elim (as_subquery cond.value) [
        | none ↦ nothing i
        | some (query, args) ↦ record {
          sql = quoter cond.field <> (keyword <> (query <> ")"));
          args = args;
          next = i + length args;
        }
      ]
      else elim (as_slice cond.value) [
        | none ↦ nothing i
        | some [] ↦ nothing i
        | some (v ∷ vs) ↦ record {
          sql = quoter cond.field <> (keyword <> (join ", " (placeholders i (v ∷ vs)) <> ")"));
          args = v ∷ vs;
          next = i + length (v ∷ vs);
        }
      ]

  -- `EXISTS` and `NOT EXISTS`.
  unfoldable pub build_exists : String → Condition Value → ℕ → Built Value
  build_exists keyword cond i =
      if cond.is_subquery
      then elim (as_subquery cond.value) [
        | none ↦ nothing i
        | some (query, args) ↦ record {
          sql = keyword <> (query <> ")");
          args = args;
          next = i + length args;
        }
      ]
      else nothing i

  -- One argument, at the counter.
  abbrev one : String → Value → ℕ → Built Value
  one sql v i = record { sql = sql; args = v ∷ []; next = i + 1 }

  abbrev two : String → Value → Value → ℕ → Built Value
  two sql v w i = record { sql = sql; args = v ∷ w ∷ []; next = i + 2 }

  unfoldable pub build_json_postgres : Condition Value → String → ℕ → Built Value
  unfolding convert_json_path_to_postgres
  build_json_postgres cond path i =
      let field = quoter cond.field in
      elim (json_filter cond.json_type) [
        | json_at_path ↦
            one
              (field <> ("->>" <> (convert_json_path_to_postgres path <> (" = " <> placeholder i))))
              cond.value i
        | json_contains ↦ one (field <> (" @> " <> (placeholder i <> "::jsonb"))) cond.value i
        | json_array_contains ↦ one (field <> (" @> " <> (placeholder i <> "::jsonb"))) cond.value i
        | json_has_key ↦ one (field <> (" ? " <> placeholder i)) cond.value i
        | unknown_filter ↦ nothing i
      ]

  unfoldable pub build_json_mysql : Condition Value → String → ℕ → Built Value
  build_json_mysql cond path i =
      let field = quoter cond.field in
      elim (json_filter cond.json_type) [
        | json_at_path ↦
            two
              ("JSON_EXTRACT("
                <> (field <> (", " <> (placeholder i <> (") = " <> placeholder (i + 1))))))
              (of_string path) cond.value i
        | json_contains ↦
            one ("JSON_CONTAINS(" <> (field <> (", " <> (placeholder i <> ")")))) cond.value i
        | json_array_contains ↦
            two
              ("JSON_CONTAINS("
                <> (field <> (", " <> (placeholder i <> (", " <> (placeholder (i + 1) <> ")"))))))
              cond.value (of_string path) i
        | json_has_key ↦
            one ("JSON_CONTAINS_PATH(" <> (field <> (", 'one', " <> (placeholder i <> ")"))))
              (of_string ("$." <> sprint_s cond.value)) i
        | unknown_filter ↦ nothing i
      ]

  unfoldable pub build_json_sqlite : Condition Value → String → ℕ → Built Value
  build_json_sqlite cond path i =
      let field = quoter cond.field in
      elim (json_filter cond.json_type) [
        | json_at_path ↦
            two
              ("json_extract("
                <> (field <> (", " <> (placeholder i <> (") = " <> placeholder (i + 1))))))
              (of_string path) cond.value i
        | json_contains ↦
            one ("json_extract(" <> (field <> (", '$') LIKE " <> placeholder i)))
              (of_string ("%\"" <> (sprint_v cond.value <> "\"%"))) i
        | json_array_contains ↦
            one
              ("EXISTS (SELECT 1 FROM json_each("
                <> (field <> (") WHERE value = " <> (placeholder i <> ")"))))
              cond.value i
        | json_has_key ↦
            one ("json_extract(" <> (field <> (", " <> (placeholder i <> ") IS NOT NULL"))))
              (of_string ("$." <> sprint_s cond.value)) i
        | unknown_filter ↦ nothing i
      ]

  -- `buildJsonCondition`
  unfoldable pub build_json_condition : Condition Value → ℕ → Built Value
  unfolding build_json_postgres build_json_mysql build_json_sqlite
  build_json_condition cond i =
      let path = if str_eq cond.json_path "" then "$" else cond.json_path in
      elim (json_dialect provider) [
        | postgres_json ↦ build_json_postgres cond path i
        | mysql_json ↦ build_json_mysql cond path i
        | sqlite_json ↦ build_json_sqlite cond path i
        | no_json ↦ nothing i
      ]

  -- The switch of `buildCondition`.
  unfoldable pub build_operator : Condition Value → ℕ → Built Value
  unfolding build_in build_exists
  build_operator cond i = elim (operator_case cond.operator) [
    | comparison ↦
        one (quoter cond.field <> (" " <> (cond.operator <> (" " <> placeholder i)))) cond.value i
    | in_list ↦ build_in " IN (" cond i
    | not_in_list ↦ build_in " NOT IN (" cond i
    | exists_query ↦ build_exists "EXISTS (" cond i
    | not_exists_query ↦ build_exists "NOT EXISTS (" cond i
    | like ↦ one (quoter cond.field <> (" LIKE " <> placeholder i)) cond.value i
    | is_null ↦ record { sql = quoter cond.field <> " IS NULL"; args = []; next = i }
    | is_not_null ↦ record { sql = quoter cond.field <> " IS NOT NULL"; args = []; next = i }
    | unknown_operator ↦ nothing i
  ]

  -- `buildCondition`
  unfoldable pub build_condition : Condition Value → ℕ → Built Value
  unfolding build_json_condition build_operator
  build_condition cond i =
      if str_eq cond.json_type "" then build_operator cond i else build_json_condition cond i
