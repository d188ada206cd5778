-- ===== src/Query/Mysql/Writes.antt =====
-- Upsert and DELETE of the MySQL generator against their specifications.
use prisma_go.Base.{◌&&◌, if◌then◌else◌, String, ◌<>◌, List, [], ◌∷◌, ◌++◌, map, Option}
use prisma_go.Query.Condition.{Dynamic, WhereClause, join}
use prisma_go.Query.Where.Pieces.{Piece}
use prisma_go.Query.Statement.{updated_columns, is_nil}
use prisma_go.Query.Statement.Clauses.{
  values_parts, values-Appends, delete_parts, delete_where-Appends,
}
use prisma_go.Query.Statement.Appending.{
  texts, Appends, ◌▸◌, none-Appends, text-Appends, query-Appends,
}
use prisma_go.Query.Statement.Texts.{columns-Appends}
use prisma_go.Query.Grammar.{
  columns_clause, columns_to_update, update_duplicate_clause, on_duplicate_clause,
}
use prisma_go.Query.Grammar.Agreeing.{updated_columns_lem}
use prisma_go.Query.Postgres.{quote_identifier, dollar}
use prisma_go.Query.Postgres.Statements.{IsStatement}
use prisma_go.Query.Mysql.{
  quote_identifier_mysql, question, inserted_value, add_duplicate_update, generate_upsert,
  generate_delete,
}

module _ (dyn : Dynamic) where
  open dyn use {Value, to_upper}

  unfoldable pub delete_statement_parts :
      String → Option (WhereClause Value) → List (List (Piece Value))
  unfolding delete_parts texts
  delete_statement_parts table w =
      texts (("DELETE FROM " <> quote_identifier_mysql table) ∷ [])
      ++ delete_parts dyn dollar quote_identifier "postgresql" w

  -- MySQL's `GenerateDelete` writes its condition with the placeholders `$1`, `$2`, … and with the
  -- quoting and the JSON operators of PostgreSQL.
  pub generate_delete_dollars :
      (table : String) (w : Option (WhereClause Value))
      → IsStatement dollar (generate_delete dyn table w) (delete_statement_parts table w)
  unfolding generate_delete delete_statement_parts texts
  generate_delete_dollars table w = query-Appends dollar _ _ (
      text-Appends dollar ("DELETE FROM " <> quote_identifier_mysql table)
      ▸ delete_where-Appends dyn dollar quote_identifier "postgresql" w)

  duplicate-Appends :
      (updated : List String)
      → Appends {V = Value} question
          (add_duplicate_update updated)
          (texts (update_duplicate_clause quote_identifier_mysql updated))
  unfolding add_duplicate_update texts is_nil inserted_value
  duplicate-Appends [] = none-Appends question
  duplicate-Appends (c ∷ cs) =
      text-Appends question ("ON DUPLICATE KEY UPDATE " <> join ", " (map inserted_value (c ∷ cs)))

  on_duplicate-Appends :
      (columns update_columns target : List String)
      → Appends {V = Value} question
          (λ p.
            if is_nil target && is_nil update_columns
            then p
            else add_duplicate_update
                (updated_columns to_upper quote_identifier_mysql columns update_columns target)
                p)
          (texts (on_duplicate_clause quote_identifier_mysql columns update_columns target))
  unfolding is_nil
  on_duplicate-Appends columns [] [] = unfold texts in none-Appends question
  on_duplicate-Appends columns [] (t ∷ ts) =
      rw (updated_columns_lem to_upper quote_identifier_mysql columns [] (t ∷ ts))
        (duplicate-Appends (columns_to_update columns [] (t ∷ ts)))
  on_duplicate-Appends columns (u ∷ us) [] =
      rw (updated_columns_lem to_upper quote_identifier_mysql columns (u ∷ us) [])
        (duplicate-Appends (u ∷ us))
  on_duplicate-Appends columns (u ∷ us) (t ∷ ts) =
      rw (updated_columns_lem to_upper quote_identifier_mysql columns (u ∷ us) (t ∷ ts))
        (duplicate-Appends (u ∷ us))

  unfoldable pub upsert_parts :
      String → List String → List Value → List String → List String → List (List (Piece Value))
  unfolding values_parts texts
  upsert_parts table columns values update_columns conflict_target =
      texts (("INSERT INTO " <> quote_identifier_mysql table) ∷ [])
      ++ (texts (columns_clause quote_identifier_mysql columns)
          ++ (values_parts dyn question quote_identifier_mysql "mysql" values
              ++ texts (
                  on_duplicate_clause quote_identifier_mysql columns update_columns
                    conflict_target)))

  -- MySQL's `GenerateUpsert` writes the insertion and, if it has a conflict target or columns to
  -- update, `ON DUPLICATE KEY UPDATE` for the columns to update, or else for the inserted columns
  -- that are not in the conflict target.
  pub generate_upsert-IsMysqlStatement :
      (table : String) (columns : List String) (values : List Value)
      (update_columns conflict_target : List String)
      → IsStatement question
          (generate_upsert dyn table columns values update_columns conflict_target)
          (upsert_parts table columns values update_columns conflict_target)
  unfolding generate_upsert upsert_parts texts
  generate_upsert-IsMysqlStatement table columns values update_columns conflict_target =
      query-Appends question _ _ (
        text-Appends question ("INSERT INTO " <> quote_identifier_mysql table)
        ▸ columns-Appends to_upper quote_identifier_mysql question columns
        ▸ values-Appends dyn question quote_identifier_mysql "mysql" values
        ▸ on_duplicate-Appends columns update_columns conflict_target)
