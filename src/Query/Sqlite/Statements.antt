-- ===== src/Query/Sqlite/Statements.antt =====
-- The statements of the SQLite generator against their specifications.
use prisma_go.Base.{String, ◌<>◌, List, [], ◌∷◌, ◌++◌, Option}
use prisma_go.Query.Condition.{Dynamic, WhereClause}
use prisma_go.Query.Where.Pieces.{Piece}
use prisma_go.Query.Statement.Clauses.{
  values_parts, values-Appends, delete_parts, delete_where-Appends,
}
use prisma_go.Query.Statement.Appending.{texts, ◌▸◌, text-Appends, query-Appends}
use prisma_go.Query.Statement.Texts.{columns-Appends, on_conflict-Appends}
use prisma_go.Query.Grammar.{columns_clause, on_conflict_clause}
use prisma_go.Query.Postgres.{quote_identifier, dollar}
use prisma_go.Query.Postgres.Statements.{IsStatement}
use prisma_go.Query.Mysql.{question}
use prisma_go.Query.Sqlite.{quote_identifier_sqlite, generate_upsert, generate_delete}

module _ (dyn : Dynamic) where
  open dyn use {Value, to_upper}

  unfoldable pub upsert_parts :
      String → List String → List Value → List String → List String → List (List (Piece Value))
  unfolding values_parts texts
  upsert_parts table columns values update_columns conflict_target =
      texts (("INSERT INTO " <> quote_identifier_sqlite table) ∷ [])
      ++ (texts (columns_clause quote_identifier_sqlite columns)
          ++ (values_parts dyn question quote_identifier_sqlite "sqlite" values
              ++ texts (
                  on_conflict_clause quote_identifier_sqlite columns update_columns
                    conflict_target)))

  -- SQLite's `GenerateUpsert` writes the insertion with a `?` for each value, and then what to do
  -- on a conflict, as PostgreSQL's does.
  pub generate_upsert-IsSqliteStatement :
      (table : String) (columns : List String) (values : List Value)
      (update_columns conflict_target : List String)
      → IsStatement question
          (generate_upsert dyn table columns values update_columns conflict_target)
          (upsert_parts table columns values update_columns conflict_target)
  unfolding generate_upsert upsert_parts texts
  generate_upsert-IsSqliteStatement table columns values update_columns conflict_target =
      query-Appends question _ _ (
        text-Appends question ("INSERT INTO " <> quote_identifier_sqlite table)
        ▸ columns-Appends to_upper quote_identifier_sqlite question columns
        ▸ values-Appends dyn question quote_identifier_sqlite "sqlite" values
        ▸ on_conflict-Appends to_upper quote_identifier_sqlite question columns update_columns
            conflict_target)

  unfoldable pub delete_statement_parts :
      String → Option (WhereClause Value) → List (List (Piece Value))
  unfolding delete_parts texts
  delete_statement_parts table w =
      texts (("DELETE FROM " <> quote_identifier_sqlite table) ∷ [])
      ++ delete_parts dyn dollar quote_identifier "postgresql" w

  -- SQLite's `GenerateDelete` writes its condition as PostgreSQL's does, JSON operators included.
  pub generate_delete_postgres_condition :
      (table : String) (w : Option (WhereClause Value))
      → IsStatement dollar (generate_delete dyn table w) (delete_statement_parts table w)
  unfolding generate_delete delete_statement_parts texts
  generate_delete_postgres_condition table w = query-Appends dollar _ _ (
      text-Appends dollar ("DELETE FROM " <> quote_identifier_sqlite table)
      ▸ delete_where-Appends dyn dollar quote_identifier "postgresql" w)
