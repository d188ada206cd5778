-- ===== src/Query/Mysql.antt =====
-- The MySQL generator (`MySQLGenerator`, query/sqlgen/sqlgen.go).
--
-- The conditions of UPDATE and DELETE are written with the placeholders and the quoting of
-- PostgreSQL, as the code has it.
pub mod Statements
pub mod Writes
mod Tests
use prisma_go.Base.{
  ℕ, if◌then◌else◌, Bool, true, false, ◌||◌, ◌&&◌, String, ◌<>◌, str_eq, List, [], ◌∷◌, ◌++◌, map,
  Option, none, some, for_each, ℤ, is_positive, is_zero,
}
use prisma_go.Query.Condition.{Dynamic, WhereClause, join}
use prisma_go.Query.Where.{Parts}
use prisma_go.Query.Statement.{
  Query, Cte, OrderBy, Join, start, add_text, query, is_nil, select_columns, select_quoted,
  from_table, add_order_by, add_join, add_ctes, updated_columns, add_columns, add_on_conflict,
}
use prisma_go.Query.Statement.Arguments.{
  add_where, add_delete_where, add_number, add_positive, add_values, add_set,
}
use prisma_go.Query.Postgres
use prisma_go.Query.Statement.Windows.{WindowFunction}
use prisma_go.Query.Postgres.{quote_identifier, dollar}

-- `quoteIdentifierMySQL`
unfoldable pub quote_identifier_mysql : String → String
quote_identifier_mysql name = "`" <> (name <> "`")

-- The placeholder, which has no number. (The counter is passed along where the code keeps none.)
unfoldable pub question : ℕ → String
question i = "?"

-- `limit == nil || *limit == 0`
unfoldable pub no_limit : Option ℤ → Bool
unfolding is_zero
no_limit none = true
no_limit (some n) = is_zero n

-- `VALUES(…)` stands for the value that the insertion had.
unfoldable pub inserted_value : String → String
unfolding quote_identifier_mysql
inserted_value column =
    quote_identifier_mysql column <> (" = VALUES(" <> (quote_identifier_mysql column <> ")"))

-- The list of `ON DUPLICATE KEY UPDATE`.
unfoldable pub add_duplicate_update : {V : Type 0} → List String → Parts V → Parts V
unfolding inserted_value add_text join is_nil
add_duplicate_update updated p =
    if is_nil updated
    then p
    else add_text ("ON DUPLICATE KEY UPDATE " <> join ", " (map inserted_value updated)) p

module _ (dyn : Dynamic) where
  open dyn use {Value, to_upper}

  -- `OFFSET`, for which MySQL requires a limit.
  unfoldable pub add_offset : Option ℤ → Option ℤ → Parts Value → Parts Value
  unfolding no_limit is_positive add_text
  add_offset limit none p = p
  add_offset limit (some n) p =
      let limited = if no_limit limit then add_text "LIMIT 18446744073709551615" p else p in
      if is_positive n
      then add_number dyn question quote_identifier_mysql "mysql" "OFFSET " n limited
      else p

  unfoldable pub generate_select :
      String
      → List String
      → Option (WhereClause Value)
      → List OrderBy
      → Option ℤ
      → Option ℤ
      → Query Value
  unfolding query select_columns from_table start
  generate_select table columns w obs limit offset =
      let from =
        add_text (from_table to_upper quote_identifier_mysql table)
          (add_text (select_columns to_upper quote_identifier_mysql columns) start) in
      let filtered = add_where dyn question quote_identifier_mysql "mysql" w from in
      let ordered = add_order_by to_upper quote_identifier_mysql obs filtered in
      let limited =
        add_positive dyn question quote_identifier_mysql "mysql" "LIMIT " limit ordered in
      query (add_offset limit offset limited)

  unfoldable pub generate_select_with_cte :
      String
      → List String
      → List (Cte Value)
      → List Join
      → Option (WhereClause Value)
      → List OrderBy
      → Option ℤ
      → Option ℤ
      → Query Value
  unfolding query select_quoted from_table start
  generate_select_with_cte table columns ctes joins w obs limit offset =
      let selected =
        add_text (select_quoted to_upper quote_identifier_mysql columns)
          (add_ctes to_upper quote_identifier_mysql ctes start) in
      let from = add_text (from_table to_upper quote_identifier_mysql table) selected in
      let joined = for_each (add_join to_upper quote_identifier_mysql) joins from in
      let filtered = add_where dyn question quote_identifier_mysql "mysql" w joined in
      let ordered = add_order_by to_upper quote_identifier_mysql obs filtered in
      let limited =
        add_positive dyn question quote_identifier_mysql "mysql" "LIMIT " limit ordered in
      query (add_offset limit offset limited)

  unfoldable pub generate_insert : String → List String → List Value → Query Value
  unfolding query start
  generate_insert table columns values =
      let into =
        add_columns to_upper quote_identifier_mysql columns
          (add_text ("INSERT INTO " <> quote_identifier_mysql table) start) in
      query (add_values dyn question quote_identifier_mysql "mysql" values into)

  unfoldable pub generate_upsert :
      String → List String → List Value → List String → List String → Query Value
  unfolding query start updated_columns is_nil
  generate_upsert table columns values update_columns conflict_target =
      let into =
        add_columns to_upper quote_identifier_mysql columns
          (add_text ("INSERT INTO " <> quote_identifier_mysql table) start) in
      let inserted = add_values dyn question quote_identifier_mysql "mysql" values into in
      let updated =
        updated_columns to_upper quote_identifier_mysql columns update_columns conflict_target in
      query (
        if is_nil conflict_target && is_nil update_columns
        then inserted
        else add_duplicate_update updated inserted)

  -- The map of the columns to set comes in the order in which the runtime goes through it. The
  -- counter of the condition starts at 1 whatever was set.
  unfoldable pub generate_update :
      String → List (String × Value) → Option (WhereClause Value) → Query Value
  unfolding query start
  generate_update table set w =
      let assigned =
        add_set dyn question quote_identifier_mysql "mysql" set
          (add_text ("UPDATE " <> quote_identifier_mysql table) start) in
      query (add_where dyn dollar quote_identifier "postgresql" w (record assigned { next = 1 }))

  unfoldable pub generate_delete : String → Option (WhereClause Value) → Query Value
  unfolding query start
  generate_delete table w = query (
      add_delete_where dyn dollar quote_identifier "postgresql" w
        (add_text ("DELETE FROM " <> quote_identifier_mysql table) start))

  -- The statement that PostgreSQL's generator writes, with its placeholders and its quoting.
  unfoldable pub generate_select_with_windows :
      String
      → List String
      → List WindowFunction
      → List Join
      → Option (WhereClause Value)
      → List OrderBy
      → Option ℤ
      → Option ℤ
      → Query Value
  generate_select_with_windows table columns window_funcs joins w obs limit offset =
      Postgres.generate_select_with_windows dyn table columns window_funcs joins w obs limit offset
