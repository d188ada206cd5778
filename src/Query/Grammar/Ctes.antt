-- ===== src/Query/Grammar/Ctes.antt =====
-- The CTEs that the code of query/sqlgen writes are those of the grammar, with their arguments.
use prisma_go.Base.{
  ℕ, ◌+◌, ◌≡◌, refl, sym, ap, ap₂, ◌∙◌, if◌then◌else◌, inl, inr, String, ◌<>◌, List, [], ◌∷◌, ◌++◌,
  map, append-nil, str_append_assoc, join, length, Bool-cases,
}
use prisma_go.Query.Where.Pieces.{Piece, text, bound, render, join_pieces}
use prisma_go.Query.Where.Writing.{render_each, bound_each, bound-join_pieces, render-join_pieces}
use prisma_go.Query.Statement.{Cte, any_recursive, cte_args, cte_sql, with_sql, quoted_list, is_nil}
use prisma_go.Query.Grammar.{cte_columns, cte_pieces, with_keyword}

module _ (to_upper : String → String) (quote : String → String) where
  columns_lem :
      (columns : List String)
      → (if is_nil columns then "" else " (" <> (quoted_list to_upper quote columns <> ")"))
        ≡ cte_columns quote columns
  unfolding is_nil quoted_list
  columns_lem [] = refl
  columns_lem (c ∷ cs) = refl

module _ {V : Type 0} (to_upper : String → String) (quote : String → String) (ph : ℕ → String) where
  cte_sql_lem :
      (i : ℕ) (cte : Cte V) → cte_sql to_upper quote cte ≡ render ph i (cte_pieces quote cte)
  unfolding cte_sql render
  cte_sql_lem i cte =
      ap (λ (c : String). quote cte.name <> (c <> (" AS (" <> (cte.query.sql <> ")"))))
        (columns_lem to_upper quote cte.columns)
      ∙ sym (
          str_append_assoc (quote cte.name) (cte_columns quote cte.columns <> " AS (") _
          ∙ ap (◌<>◌ (quote cte.name)) (str_append_assoc (cte_columns quote cte.columns) " AS (" _))

  ctes_sql_lem :
      (i : ℕ) (ctes : List (Cte V))
      → map (cte_sql to_upper quote) ctes ≡ render_each ph i (map (cte_pieces quote) ctes)
  unfolding render_each
  ctes_sql_lem i [] = refl
  ctes_sql_lem i (cte ∷ ctes) =
      ap₂ (λ (t : String) (ts : List String). t ∷ ts) (cte_sql_lem i cte)
        (ctes_sql_lem (i + length (bound (cte_pieces quote cte))) ctes)

  ctes_args_lem : (ctes : List (Cte V)) → cte_args ctes ≡ bound_each (map (cte_pieces quote) ctes)
  unfolding cte_args bound_each bound
  ctes_args_lem [] = refl
  ctes_args_lem (cte ∷ ctes) =
      ap₂ (λ (us vs : List V). us ++ vs) (sym (append-nil cte.query.args)) (ctes_args_lem ctes)

  keyword_lem :
      (ctes : List (Cte V))
      → (if any_recursive ctes then "WITH RECURSIVE" else "WITH") ≡ with_keyword quote ctes
  unfolding any_recursive
  keyword_lem [] = refl
  keyword_lem (cte ∷ ctes) = elim (Bool-cases cte.is_recursive) [
    | inl e ↦ rw e refl
    | inr e ↦ rw e (keyword_lem ctes)
  ]

  -- The pieces of all CTEs.
  abbrev pub with_pieces : List (Cte V) → List (Piece V)
  with_pieces ctes =
      text (with_keyword quote ctes <> " ") ∷ join_pieces ", " (map (cte_pieces quote) ctes)

  pub with_sql_lem :
      (i : ℕ) (ctes : List (Cte V)) → with_sql to_upper quote ctes ≡ render ph i (with_pieces ctes)
  unfolding with_sql render
  with_sql_lem i ctes =
      ap₂ (λ (k t : String). k <> (" " <> t)) (keyword_lem ctes)
        (ap (join ", ") (ctes_sql_lem i ctes)
          ∙ sym (render-join_pieces ph ", " i (map (cte_pieces quote) ctes)))
      ∙ sym (str_append_assoc (with_keyword quote ctes) " " _)

  pub cte_args_lem : (ctes : List (Cte V)) → cte_args ctes ≡ bound (with_pieces ctes)
  unfolding bound
  cte_args_lem ctes =
      ctes_args_lem ctes ∙ sym (bound-join_pieces ", " (map (cte_pieces quote) ctes))
