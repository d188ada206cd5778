-- ===== src/Query/Postgres/Statements.antt =====
-- The statements of the PostgreSQL generator against their specifications: the clauses in order,
-- with the places numbered from 1 over the whole statement, and the arguments in their order.
use prisma_go.Base.{
  ℕ, ◌≡◌, refl, sym, ap, append-nil, str_append-nil, String, ◌<>◌, List, [], ◌∷◌, ◌++◌, map, Option,
  ℤ,
}
use prisma_go.Query.Condition.{Dynamic, WhereClause}
use prisma_go.Query.Where.Pieces.{Piece, bound, render, join_pieces}
use prisma_go.Query.Statement.{
  Query, Cte, OrderBy, Join, AggregateFunction, GroupBy, Having, start, from_table, add_ctes,
  with_sql, cte_args, is_nil,
}
use prisma_go.Query.Statement.Clauses.{where_parts, where-Appends, number_parts, positive-Appends}
use prisma_go.Query.Statement.Appending.{texts, ◌▸◌, text-Appends, query-Appends, query_after}
use prisma_go.Query.Where.Writing.{Writes, nothing-Writes, render_each, bound_each}
use prisma_go.Query.Statement.Windows.{WindowFunction}
use prisma_go.Query.Statement.Texts.{
  told-Appends, order_by-Appends, group_by-Appends, joins-Appends,
}
use prisma_go.Query.Grammar.{
  select_text, order_clause, names_clause, group_names, join_text, aggregate_text, window_text,
}
use prisma_go.Query.Grammar.Agreeing.{select_columns_lem, select_quoted_lem, select_aggregates_lem}
use prisma_go.Query.Grammar.Windows.{select_windows_lem}
use prisma_go.Query.Statement.Grouping.{having_parts, having-Appends}
use prisma_go.Query.Postgres.{
  quote_identifier, dollar, generate_select, generate_select_with_cte, generate_select_with_windows,
  generate_select_with_aggregates,
}

-- The SQL and the arguments of a query are those of the parts, joined by spaces.
abbrev pub IsStatement : {V : Type 0} → (ℕ → String) → Query V → List (List (Piece V)) → Type 0
IsStatement ph q parts =
    (q.sql ≡ render ph 1 (join_pieces " " parts)) × (q.args ≡ bound (join_pieces " " parts))

module _ (dyn : Dynamic) where
  open dyn use {Value, to_upper}

  -- The clauses of a SELECT from ORDER BY on.
  unfoldable pub tail_parts : List OrderBy → Option ℤ → Option ℤ → List (List (Piece Value))
  unfolding number_parts texts
  tail_parts obs limit offset =
      texts (order_clause quote_identifier obs)
      ++ (number_parts dyn dollar quote_identifier "postgresql" "LIMIT " limit
          ++ number_parts dyn dollar quote_identifier "postgresql" "OFFSET " offset)

  unfoldable pub select_parts :
      String
      → List String
      → Option (WhereClause Value)
      → List OrderBy
      → Option ℤ
      → Option ℤ
      → List (List (Piece Value))
  unfolding tail_parts where_parts texts
  select_parts table columns w obs limit offset =
      texts (select_text columns ∷ ("FROM " <> quote_identifier table) ∷ [])
      ++ (where_parts dyn dollar quote_identifier "postgresql" w ++ tail_parts obs limit offset)

  -- PostgreSQL's `GenerateSelect` writes the columns, the table, the condition, the order, the
  -- limit and the offset, in this order; its places are numbered from 1 on over all the clauses,
  -- and its arguments are those of the places in order. A limit or an offset that is nil, zero or
  -- negative is left out, as is a condition that says nothing. The text of a subquery is copied as
  -- it is, with the numbers that its own places have.
  pub generate_select-IsStatement :
      (table : String) (columns : List String) (w : Option (WhereClause Value)) (obs : List OrderBy)
      (limit offset : Option ℤ)
      → IsStatement dollar
          (generate_select dyn table columns w obs limit offset)
          (select_parts table columns w obs limit offset)
  unfolding generate_select select_parts tail_parts texts from_table
  generate_select-IsStatement table columns w obs limit offset = query-Appends dollar _ _ (
      told-Appends dollar _ _ (select_columns_lem to_upper quote_identifier columns)
      ▸ text-Appends dollar (from_table to_upper quote_identifier table)
      ▸ where-Appends dyn dollar quote_identifier "postgresql" w
      ▸ order_by-Appends to_upper quote_identifier dollar obs
      ▸ positive-Appends dyn dollar quote_identifier "postgresql" "LIMIT " limit
      ▸ positive-Appends dyn dollar quote_identifier "postgresql" "OFFSET " offset)

  unfoldable pub aggregates_parts :
      String
      → List String
      → List AggregateFunction
      → List Join
      → Option (WhereClause Value)
      → Option GroupBy
      → Option (Having Value)
      → List OrderBy
      → Option ℤ
      → Option ℤ
      → List (List (Piece Value))
  unfolding tail_parts where_parts having_parts texts
  aggregates_parts table columns aggregates joins w group_by having obs limit offset =
      texts (
        select_text
          (map quote_identifier columns ++ map (aggregate_text quote_identifier) aggregates)
        ∷ ("FROM " <> quote_identifier table)
        ∷ [])
      ++ (texts (map (join_text quote_identifier to_upper) joins)
          ++ (where_parts dyn dollar quote_identifier "postgresql" w
              ++ (texts (names_clause quote_identifier "GROUP BY " (group_names group_by))
                  ++ (having_parts dyn dollar quote_identifier "postgresql" having
                      ++ tail_parts obs limit offset))))

  -- `GenerateSelectWithAggregates` writes its clauses in the order of SQL: the joins, WHERE,
  -- GROUP BY, HAVING, the order, the limit and the offset. The places of WHERE, HAVING, LIMIT and
  -- OFFSET are numbered through from 1, and the arguments are those of the places in order. Of the
  -- conditions of HAVING the comparisons are written, and HAVING is left out if there is none.
  pub generate_select_with_aggregates-IsStatement :
      (table : String) (columns : List String) (aggregates : List AggregateFunction)
      (joins : List Join) (w : Option (WhereClause Value)) (group_by : Option GroupBy)
      (having : Option (Having Value)) (obs : List OrderBy) (limit offset : Option ℤ)
      → IsStatement dollar
          (generate_select_with_aggregates dyn table columns aggregates joins w group_by having obs
            limit offset)
          (aggregates_parts table columns aggregates joins w group_by having obs limit offset)
  unfolding generate_select_with_aggregates aggregates_parts tail_parts texts from_table
  generate_select_with_aggregates-IsStatement table columns aggregates joins w group_by having obs
        limit offset =
      query-Appends dollar _ _ (
        told-Appends dollar _ _ (select_aggregates_lem to_upper quote_identifier columns aggregates)
        ▸ text-Appends dollar (from_table to_upper quote_identifier table)
        ▸ joins-Appends to_upper quote_identifier dollar joins
        ▸ where-Appends dyn dollar quote_identifier "postgresql" w
        ▸ group_by-Appends to_upper quote_identifier dollar group_by
        ▸ having-Appends dyn dollar quote_identifier "postgresql" having
        ▸ order_by-Appends to_upper quote_identifier dollar obs
        ▸ positive-Appends dyn dollar quote_identifier "postgresql" "LIMIT " limit
        ▸ positive-Appends dyn dollar quote_identifier "postgresql" "OFFSET " offset)

  unfoldable pub windows_parts :
      String
      → List String
      → List WindowFunction
      → List Join
      → Option (WhereClause Value)
      → List OrderBy
      → Option ℤ
      → Option ℤ
      → List (List (Piece Value))
  unfolding tail_parts where_parts texts
  windows_parts table columns window_funcs joins w obs limit offset =
      texts (
        select_text
          (map quote_identifier columns ++ map (window_text quote_identifier) window_funcs)
        ∷ ("FROM " <> quote_identifier table)
        ∷ [])
      ++ (texts (map (join_text quote_identifier to_upper) joins)
          ++ (where_parts dyn dollar quote_identifier "postgresql" w
              ++ tail_parts obs limit offset))

  -- The `GenerateSelectWithWindows` of PostgreSQL writes the columns and then the window functions,
  -- each with its call, its PARTITION BY, ORDER BY and frame, and its alias, or `*` if there are
  -- none of either. The functions have no arguments; the places of WHERE, LIMIT and OFFSET are
  -- numbered through from 1, and the arguments are those of the places in order. The text of a
  -- subquery is copied as it is, with the numbers that its own places have.
  pub generate_select_with_windows-IsStatement :
      (table : String) (columns : List String) (window_funcs : List WindowFunction)
      (joins : List Join) (w : Option (WhereClause Value)) (obs : List OrderBy)
      (limit offset : Option ℤ)
      → IsStatement dollar
          (generate_select_with_windows dyn table columns window_funcs joins w obs limit offset)
          (windows_parts table columns window_funcs joins w obs limit offset)
  unfolding generate_select_with_windows windows_parts tail_parts texts from_table
  generate_select_with_windows-IsStatement table columns window_funcs joins w obs limit offset =
      query-Appends dollar _ _ (
        told-Appends dollar _ _ (select_windows_lem to_upper quote_identifier columns window_funcs)
        ▸ text-Appends dollar (from_table to_upper quote_identifier table)
        ▸ joins-Appends to_upper quote_identifier dollar joins
        ▸ where-Appends dyn dollar quote_identifier "postgresql" w
        ▸ order_by-Appends to_upper quote_identifier dollar obs
        ▸ positive-Appends dyn dollar quote_identifier "postgresql" "LIMIT " limit
        ▸ positive-Appends dyn dollar quote_identifier "postgresql" "OFFSET " offset)

  unfoldable pub with_texts : List (Cte Value) → List String
  with_texts [] = []
  with_texts (cte ∷ ctes) = with_sql to_upper quote_identifier (cte ∷ ctes) ∷ []

  unfoldable pub cte_parts :
      String
      → List String
      → List (Cte Value)
      → List Join
      → Option (WhereClause Value)
      → List OrderBy
      → Option ℤ
      → Option ℤ
      → List (List (Piece Value))
  unfolding with_texts tail_parts where_parts texts
  cte_parts table columns ctes joins w obs limit offset =
      texts (with_texts ctes)
      ++ (texts
            (select_text (map quote_identifier columns) ∷ ("FROM " <> quote_identifier table) ∷ [])
          ++ (texts (map (join_text quote_identifier to_upper) joins)
              ++ (where_parts dyn dollar quote_identifier "postgresql" w
                  ++ tail_parts obs limit offset)))

  ctes-Writes :
      (ctes : List (Cte Value))
      → Writes dollar
          (cte_args ctes)
          (add_ctes to_upper quote_identifier ctes start)
          1
          (texts (with_texts ctes))
  unfolding add_ctes start with_texts texts cte_args is_nil render bound render_each bound_each
  ctes-Writes [] = nothing-Writes dollar 1
  ctes-Writes (cte ∷ ctes) = record {
    parts =
        ap (λ (s : String). s ∷ [])
          (sym (str_append-nil (with_sql to_upper quote_identifier (cte ∷ ctes))));
    args = sym (append-nil (cte_args (cte ∷ ctes)));
    next = refl;
  }

  -- `GenerateSelectWithCTE` puts the arguments of the CTEs first, but numbers the places of the
  -- query behind them from 1 on: the place `$1` of the query stands for the first argument of the
  -- CTEs, if they have any, and each place for an argument that is as many too early.
  pub generate_select_with_cte_numbering :
      (table : String) (columns : List String) (ctes : List (Cte Value)) (joins : List Join)
      (w : Option (WhereClause Value)) (obs : List OrderBy) (limit offset : Option ℤ)
      → let q = generate_select_with_cte dyn table columns ctes joins w obs limit offset in
        let parts = cte_parts table columns ctes joins w obs limit offset in
        (q.sql ≡ render dollar 1 (join_pieces " " parts))
        × (q.args ≡ cte_args ctes ++ bound (join_pieces " " parts))
  unfolding generate_select_with_cte cte_parts tail_parts texts from_table
  generate_select_with_cte_numbering table columns ctes joins w obs limit offset =
      query_after dollar (cte_args ctes) (add_ctes to_upper quote_identifier ctes start) _
        (texts (with_texts ctes)) _ (ctes-Writes ctes)
        (told-Appends dollar _ _ (select_quoted_lem to_upper quote_identifier columns)
          ▸ text-Appends dollar (from_table to_upper quote_identifier table)
          ▸ joins-Appends to_upper quote_identifier dollar joins
          ▸ where-Appends dyn dollar quote_identifier "postgresql" w
          ▸ order_by-Appends to_upper quote_identifier dollar obs
          ▸ positive-Appends dyn dollar quote_identifier "postgresql" "LIMIT " limit
          ▸ positive-Appends dyn dollar quote_identifier "postgresql" "OFFSET " offset)
