-- ===== src/Query/Mysql/Statements.antt =====
-- The statements of the MySQL generator against their specifications.
use prisma_go.Base.{
  ℕ, ◌+◌, length, if◌then◌else◌, is_positive, is_zero, pos, negsuc, zero, suc, ◌≡◌, refl, sym, ap,
  ap₂, append-nil, str_append-nil, ◌∙◌, String, ◌<>◌, List, [], ◌∷◌, ◌++◌, map, Option, none, some,
  ℤ,
}
use prisma_go.Query.Condition.{Dynamic, WhereClause}
use prisma_go.Query.Where.Pieces.{Piece, text, bind, bound, render, join_pieces, embed}
use prisma_go.Query.Statement.{
  Query, Cte, OrderBy, Join, start, add_text, from_table, add_ctes, with_sql, cte_args, is_nil,
}
use prisma_go.Query.Statement.Clauses.{
  where_parts, where-Appends, number_parts, number-Appends, positive-Appends,
}
use prisma_go.Query.Statement.Appending.{
  texts, Appends, ◌▸◌, none-Appends, text-Appends, query-Appends, query_after,
}
use prisma_go.Query.Where.Writing.{Writes, nothing-Writes, render_each, bound_each}
use prisma_go.Query.Statement.Texts.{told-Appends, order_by-Appends, joins-Appends}
use prisma_go.Query.Grammar.{select_text, order_clause, join_text, greatest_limit, with_clause}
use prisma_go.Query.Grammar.Agreeing.{select_columns_lem, select_quoted_lem}
use prisma_go.Query.Grammar.Ctes.{with_pieces, with_sql_lem, cte_args_lem}
use prisma_go.Query.Where.Binding.{render-append, bound-append}
use prisma_go.Query.Postgres.Statements.{IsStatement}
use prisma_go.Query.Mysql.{
  quote_identifier_mysql, question, no_limit, add_offset, generate_select, generate_select_with_cte,
}

-- The numbers of the places do not show.
render-question :
    {V : Type 0} (i j : ℕ) (ps : List (Piece V)) → render question i ps ≡ render question j ps
unfolding render question
render-question i j [] = refl
render-question i j (text s ∷ ps) = ap (◌<>◌ s) (render-question i j ps)
render-question i j (bind v ∷ ps) = ap (◌<>◌ "?") (render-question (i + 1) (j + 1) ps)
render-question i j (embed s vs ∷ ps) =
    ap (◌<>◌ s) (render-question (i + length vs) (j + length vs) ps)

module _ (dyn : Dynamic) where
  open dyn use {Value, to_upper, of_int}

  -- OFFSET, after the greatest limit there is if no limit was written.
  unfoldable pub offset_parts : Option ℤ → Option ℤ → List (List (Piece Value))
  unfolding texts
  offset_parts limit none = []
  offset_parts limit (some (pos zero)) = []
  offset_parts limit (some (pos (suc n))) =
      texts (greatest_limit limit) ++ ((text "OFFSET " ∷ bind (of_int (pos (suc n))) ∷ []) ∷ [])
  offset_parts limit (some (negsuc n)) = []

  limited-Appends :
      (limit : Option ℤ)
      → Appends {V = Value} question
          (λ p. if no_limit limit then add_text "LIMIT 18446744073709551615" p else p)
          (texts (greatest_limit limit))
  unfolding no_limit is_zero texts
  limited-Appends none = text-Appends question "LIMIT 18446744073709551615"
  limited-Appends (some (pos zero)) = text-Appends question "LIMIT 18446744073709551615"
  limited-Appends (some (pos (suc n))) = none-Appends question
  limited-Appends (some (negsuc n)) = none-Appends question

  pub offset-Appends :
      (limit offset : Option ℤ)
      → Appends question (add_offset dyn limit offset) (offset_parts limit offset)
  unfolding add_offset offset_parts is_positive
  offset-Appends limit none = none-Appends question
  offset-Appends limit (some (pos zero)) = none-Appends question
  offset-Appends limit (some (pos (suc n))) =
      limited-Appends limit
      ▸ number-Appends dyn question quote_identifier_mysql "mysql" "OFFSET " (pos (suc n))
  offset-Appends limit (some (negsuc n)) = none-Appends question

  unfoldable pub select_parts :
      String
      → List String
      → Option (WhereClause Value)
      → List OrderBy
      → Option ℤ
      → Option ℤ
      → List (List (Piece Value))
  unfolding number_parts where_parts offset_parts texts
  select_parts table columns w obs limit offset =
      texts (select_text columns ∷ ("FROM " <> quote_identifier_mysql table) ∷ [])
      ++ (where_parts dyn question quote_identifier_mysql "mysql" w
          ++ (texts (order_clause quote_identifier_mysql obs)
              ++ (number_parts dyn question quote_identifier_mysql "mysql" "LIMIT " limit
                  ++ offset_parts limit offset)))

  -- MySQL's `GenerateSelect` writes a `?` for each argument, in the order of the arguments. With a
  -- positive offset and no limit, or a limit of 0, it writes the greatest limit there is before the
  -- offset; with a negative limit the offset stands alone. The text of a subquery is copied as it
  -- is.
  pub generate_select-IsMysqlStatement :
      (table : String) (columns : List String) (w : Option (WhereClause Value)) (obs : List OrderBy)
      (limit offset : Option ℤ)
      → IsStatement question
          (generate_select dyn table columns w obs limit offset)
          (select_parts table columns w obs limit offset)
  unfolding generate_select select_parts texts from_table
  generate_select-IsMysqlStatement table columns w obs limit offset = query-Appends question _ _ (
      told-Appends question _ _ (select_columns_lem to_upper quote_identifier_mysql columns)
      ▸ text-Appends question (from_table to_upper quote_identifier_mysql table)
      ▸ where-Appends dyn question quote_identifier_mysql "mysql" w
      ▸ order_by-Appends to_upper quote_identifier_mysql question obs
      ▸ positive-Appends dyn question quote_identifier_mysql "mysql" "LIMIT " limit
      ▸ offset-Appends limit offset)

  unfoldable pub query_parts :
      String
      → List String
      → List Join
      → Option (WhereClause Value)
      → List OrderBy
      → Option ℤ
      → Option ℤ
      → List (List (Piece Value))
  unfolding number_parts where_parts offset_parts texts
  query_parts table columns joins w obs limit offset =
      texts (
        select_text (map quote_identifier_mysql columns)
        ∷ ("FROM " <> quote_identifier_mysql table)
        ∷ [])
      ++ (texts (map (join_text quote_identifier_mysql to_upper) joins)
          ++ (where_parts dyn question quote_identifier_mysql "mysql" w
              ++ (texts (order_clause quote_identifier_mysql obs)
                  ++ (number_parts dyn question quote_identifier_mysql "mysql" "LIMIT " limit
                      ++ offset_parts limit offset))))

  with_texts : List (Cte Value) → List String
  with_texts [] = []
  with_texts (cte ∷ ctes) = with_sql to_upper quote_identifier_mysql (cte ∷ ctes) ∷ []

  ctes-Writes :
      (ctes : List (Cte Value))
      → Writes question
          (cte_args ctes)
          (add_ctes to_upper quote_identifier_mysql ctes start)
          1
          (texts (with_texts ctes))
  unfolding add_ctes start with_texts texts cte_args is_nil render bound render_each bound_each
  ctes-Writes [] = nothing-Writes question 1
  ctes-Writes (cte ∷ ctes) = record {
    parts =
        ap (λ (s : String). s ∷ [])
          (sym (str_append-nil (with_sql to_upper quote_identifier_mysql (cte ∷ ctes))));
    args = sym (append-nil (cte_args (cte ∷ ctes)));
    next = refl;
  }

  -- The arguments of the CTEs, moved from before the statement to their places in it.
  ctes_embedded :
      (ctes : List (Cte Value)) (q : Query Value) (r : List (Piece Value))
      (rs : List (List (Piece Value)))
      → (q.sql ≡ render question 1 (join_pieces " " (texts (with_texts ctes) ++ (r ∷ rs))))
        × (q.args ≡ cte_args ctes ++ bound (join_pieces " " (texts (with_texts ctes) ++ (r ∷ rs))))
      → IsStatement question q (with_clause quote_identifier_mysql ctes ++ (r ∷ rs))
  unfolding with_texts texts join_pieces render bound cte_args
  ctes_embedded [] q r rs h = h
  ctes_embedded (cte ∷ ctes) q r rs h =
      let rest = join_pieces " " (r ∷ rs) in
      let front : List (Piece Value) =
        with_pieces to_upper quote_identifier_mysql question (cte ∷ ctes) in
      (
        h.0
            ∙ ap₂ (λ (s t : String). s <> (" " <> t))
                (with_sql_lem to_upper quote_identifier_mysql question 1 (cte ∷ ctes))
                (render-question 1 _ rest)
            ∙ sym (render-append question 1 front (text " " ∷ rest)),
        h.1
            ∙ ap (λ (vs : List Value). vs ++ bound rest)
                (cte_args_lem to_upper quote_identifier_mysql question (cte ∷ ctes))
            ∙ sym (bound-append front (text " " ∷ rest)),
      )

  -- MySQL's `GenerateSelectWithCTE` writes the CTEs before the query, in their order, each with its
  -- columns and the text of its own query as it is, and RECURSIVE if one of them is. The arguments
  -- are those of the CTEs in the same order, and then those of the query behind them, for each of
  -- which there is a `?` at its place; the text of a subquery is copied as it is.
  pub generate_select_with_cte-IsMysqlStatement :
      (table : String) (columns : List String) (ctes : List (Cte Value)) (joins : List Join)
      (w : Option (WhereClause Value)) (obs : List OrderBy) (limit offset : Option ℤ)
      → IsStatement question
          (generate_select_with_cte dyn table columns ctes joins w obs limit offset)
          (with_clause quote_identifier_mysql ctes
            ++ query_parts table columns joins w obs limit offset)
  unfolding generate_select_with_cte query_parts texts from_table
  generate_select_with_cte-IsMysqlStatement table columns ctes joins w obs limit offset =
      ctes_embedded ctes _ _ _ (
        query_after question (cte_args ctes) (add_ctes to_upper quote_identifier_mysql ctes start) _
          (texts (with_texts ctes)) _ (ctes-Writes ctes)
          (told-Appends question _ _ (select_quoted_lem to_upper quote_identifier_mysql columns)
            ▸ text-Appends question (from_table to_upper quote_identifier_mysql table)
            ▸ joins-Appends to_upper quote_identifier_mysql question joins
            ▸ where-Appends dyn question quote_identifier_mysql "mysql" w
            ▸ order_by-Appends to_upper quote_identifier_mysql question obs
            ▸ positive-Appends dyn question quote_identifier_mysql "mysql" "LIMIT " limit
            ▸ offset-Appends limit offset))
