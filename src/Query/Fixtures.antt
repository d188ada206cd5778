-- ===== src/Query/Fixtures.antt =====
-- Values, conditions and queries for the runs in Tests.
use prisma_go.Base.{true, false, String, List, [], ◌∷◌, ◌++◌, map, Option, none, some, ℤ, pos}
use prisma_go.Query.Condition.{Dynamic, Condition, WhereClause, where_clause, no_groups, group}
use prisma_go.Query.Statement.Windows.{WindowFunction}
use prisma_go.Query.Statement.{Cte, OrderBy, Join, AggregateFunction, Having}

-- Some of the values that a query is given.
pub data TestValue : Type 0 where
  int : ℤ → TestValue
  str : String → TestValue
  list : List String → TestValue
  subquery : String → List String → TestValue

abbrev pub as_test_slice : TestValue → Option (List TestValue)
as_test_slice (int n) = none
as_test_slice (str s) = none
as_test_slice (list vs) = some (map str vs)
as_test_slice (subquery s vs) = none

abbrev pub as_test_subquery : TestValue → Option (String × List TestValue)
as_test_subquery (int n) = none
as_test_subquery (str s) = none
as_test_subquery (list vs) = none
as_test_subquery (subquery s vs) = some (s, map str vs)

abbrev pub print_test : TestValue → String
print_test (int n) = "0"
print_test (str s) = s
print_test (list vs) = "[]"
print_test (subquery s vs) = s

abbrev pub test : Dynamic
test = record {
  Value = TestValue;
  as_slice = as_test_slice;
  as_subquery = as_test_subquery;
  of_string = str;
  of_int = int;
  sprint_s = print_test;
  sprint_v = print_test;
  to_upper = λ s. s;
}

abbrev pub plain : String → String → TestValue → Condition TestValue
plain field operator v = record {
  field = field;
  operator = operator;
  value = v;
  json_path = "";
  json_type = "";
  is_join_condition = false;
  left_table = "";
  right_table = "";
  is_subquery = false;
}

-- "age" > 18 AND NOT ("role" IN ('a', 'b') OR "name" LIKE 'x')
abbrev pub adults : WhereClause TestValue
adults =
    where_clause (plain "age" ">" (int (pos 18)) ∷ [])
      (group
        (where_clause
          (plain "role" "IN" (list ("a" ∷ "b" ∷ [])) ∷ plain "name" "LIKE" (str "x") ∷ []) no_groups
          "OR" true)
        no_groups)
      "AND" false

abbrev pub adults_sql : String
adults_sql = "\"age\" > $1 AND (NOT (\"role\" IN ($2, $3) OR \"name\" LIKE $4))"

abbrev pub adults_args : List TestValue
adults_args = int (pos 18) ∷ str "a" ∷ str "b" ∷ str "x" ∷ []

-- A condition that says nothing: an IN with no values.
abbrev pub no_values : List (Condition TestValue)
no_values = plain "id" "IN" (list []) ∷ []

abbrev pub by_age : List OrderBy
by_age = record { field = "age"; direction = "desc" } ∷ []

abbrev pub counted : List AggregateFunction
counted = record { function = "COUNT"; field = "*"; alias = "n" } ∷ []

abbrev pub popular : Having TestValue
popular = record {
  conditions = plain "COUNT(*)" ">" (int (pos 2)) ∷ plain "x" "LIKE" (str "y") ∷ [];
  operator = "AND";
}

abbrev pub to_posts : List Join
to_posts =
    record {
      join_type = "";
      table = "posts";
      alias = "p";
      condition = "p.author = users.id";
      columns = [];
    }
    ∷ []

abbrev pub recent : List (Cte TestValue)
recent =
    record {
      name = "recent";
      query = record { sql = "SELECT * FROM posts WHERE day > $1"; args = int (pos 7) ∷ [] };
      columns = [];
      is_recursive = false;
    }
    ∷ []

-- "age" > 18
abbrev pub grown : WhereClause TestValue
grown = where_clause (plain "age" ">" (int (pos 18)) ∷ []) no_groups "AND" false

-- "tags" contains 'new'
abbrev pub tagged : Condition TestValue
tagged = record (plain "tags" "=" (str "new")) { json_type = "contains" }

-- The place of each row by age, among those of its role.
abbrev pub ranked : List WindowFunction
ranked =
    record {
      function = "RANK";
      field = "";
      alias = "r";
      window = some (record {
        partition_by_fields = "role" ∷ [];
        order_by_fields = by_age;
        frame_spec = some (record {
          frame_type = "ROWS";
          start = some (record { bound_type = "PRECEDING"; offset = some (pos 2) });
          end = some (record { bound_type = "CURRENT ROW"; offset = none });
          exclusion_type = "";
        });
      });
    }
    ∷ []

-- "age" > 18 AND "id" IN (a subquery with an argument of its own)
abbrev pub authors : WhereClause TestValue
authors =
    where_clause
      (plain "age" ">" (int (pos 18))
        ∷ record (plain "id" "IN" (subquery "SELECT author FROM posts WHERE day > $1" ("x" ∷ []))) {
          is_subquery = true;
        }
        ∷ [])
      no_groups "AND" false

-- A second query, with an argument, behind another.
abbrev pub recent_and_tags : List (Cte TestValue)
recent_and_tags =
    recent
    ++ (record {
      name = "tags";
      query = record { sql = "SELECT * FROM tags WHERE name = ?"; args = str "a" ∷ [] };
      columns = "id" ∷ "name" ∷ [];
      is_recursive = true;
    }
        ∷ [])
