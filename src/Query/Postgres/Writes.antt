-- ===== src/Query/Postgres/Writes.antt =====
-- INSERT, upsert, UPDATE and DELETE of the PostgreSQL generator against their specifications.
use prisma_go.Base.{
  Bool, false, ◌≡◌, refl, str_append_assoc, ◌∙◌, String, ◌<>◌, List, [], ◌∷◌, ◌++◌, Option, some,
}
use prisma_go.Query.Condition.{Dynamic, Condition, WhereClause, Groups, where_clause, is_empty}
use prisma_go.Query.Where.Pieces.{Piece, bound, render, join_pieces, where_pieces}
use prisma_go.Query.Statement.{add_on_conflict, is_nil}
use prisma_go.Query.Statement.Clauses.{
  where_parts, where-Appends, values_parts, values-Appends, assigned_parts, set-Appends,
  delete_parts, delete_where-Appends, delete_parts-kept,
}
use prisma_go.Query.Statement.Appending.{headed, texts, ◌▸◌, text-Appends, query-Appends}
use prisma_go.Query.Statement.Texts.{columns-Appends, on_conflict-Appends}
use prisma_go.Query.Grammar.{columns_clause, on_conflict_clause}
use prisma_go.Query.Postgres.{
  quote_identifier, dollar, generate_insert, generate_upsert, generate_update, generate_delete,
}
use prisma_go.Query.Postgres.Statements.{IsStatement}

module _ (dyn : Dynamic) where
  open dyn use {Value, to_upper}

  unfoldable pub upsert_parts :
      String → List String → List Value → List String → List String → List (List (Piece Value))
  unfolding values_parts texts
  upsert_parts table columns values update_columns conflict_target =
      texts (("INSERT INTO " <> quote_identifier table) ∷ [])
      ++ (texts (columns_clause quote_identifier columns)
          ++ (values_parts dyn dollar quote_identifier "postgresql" values
              ++ (texts (on_conflict_clause quote_identifier columns update_columns conflict_target)
                  ++ texts ("RETURNING *" ∷ []))))

  -- `GenerateUpsert` writes the insertion, with a place for each value, and then what to do on a
  -- conflict: nothing at all without a conflict target, else an update of the given columns, or,
  -- when none are given, of the inserted columns that are not in the target.
  pub generate_upsert-IsStatement :
      (table : String) (columns : List String) (values : List Value)
      (update_columns conflict_target : List String)
      → IsStatement dollar
          (generate_upsert dyn table columns values update_columns conflict_target)
          (upsert_parts table columns values update_columns conflict_target)
  unfolding generate_upsert upsert_parts texts
  generate_upsert-IsStatement table columns values update_columns conflict_target =
      query-Appends dollar _ _ (
        text-Appends dollar ("INSERT INTO " <> quote_identifier table)
        ▸ columns-Appends to_upper quote_identifier dollar columns
        ▸ values-Appends dyn dollar quote_identifier "postgresql" values
        ▸ on_conflict-Appends to_upper quote_identifier dollar columns update_columns
            conflict_target
        ▸ text-Appends dollar "RETURNING *")

  -- `GenerateUpsert` without a conflict target is `GenerateInsert`.
  pub generate_upsert-generate_insert :
      (table : String) (columns : List String) (values : List Value) (update_columns : List String)
      → generate_upsert dyn table columns values update_columns []
        ≡ generate_insert dyn table columns values
  unfolding generate_upsert generate_insert add_on_conflict is_nil
  generate_upsert-generate_insert table columns values update_columns = refl

  unfoldable pub update_parts :
      String → List (String × Value) → Option (WhereClause Value) → List (List (Piece Value))
  unfolding assigned_parts where_parts texts
  update_parts table set w =
      texts (("UPDATE " <> quote_identifier table) ∷ [])
      ++ (assigned_parts dyn dollar quote_identifier "postgresql" set
          ++ (where_parts dyn dollar quote_identifier "postgresql" w ++ texts ("RETURNING *" ∷ [])))

  -- `GenerateUpdate` numbers the assigned values first and the places of the condition after them,
  -- in whichever order the columns to set come, and lists the arguments in the same order. The text
  -- of a subquery is copied as it is, with the numbers that its own places have.
  pub generate_update-IsStatement :
      (table : String) (set : List (String × Value)) (w : Option (WhereClause Value))
      → IsStatement dollar (generate_update dyn table set w) (update_parts table set w)
  unfolding generate_update update_parts texts
  generate_update-IsStatement table set w = query-Appends dollar _ _ (
      text-Appends dollar ("UPDATE " <> quote_identifier table)
      ▸ set-Appends dyn dollar quote_identifier "postgresql" set
      ▸ where-Appends dyn dollar quote_identifier "postgresql" w
      ▸ text-Appends dollar "RETURNING *")

  unfoldable pub erase_parts : String → Option (WhereClause Value) → List (List (Piece Value))
  unfolding delete_parts texts
  erase_parts table w =
      texts (("DELETE FROM " <> quote_identifier table) ∷ [])
      ++ (delete_parts dyn dollar quote_identifier "postgresql" w ++ texts ("RETURNING *" ∷ []))

  -- `GenerateDelete` writes the condition it is given, and WHERE 1=0 for one that is nil or without
  -- conditions and groups; of a condition that has some but says nothing, no WHERE is written. The
  -- text of a subquery is copied as it is, with the numbers that its own places have.
  pub generate_delete-IsStatement :
      (table : String) (w : Option (WhereClause Value))
      → IsStatement dollar (generate_delete dyn table w) (erase_parts table w)
  unfolding generate_delete erase_parts texts
  generate_delete-IsStatement table w = query-Appends dollar _ _ (
      text-Appends dollar ("DELETE FROM " <> quote_identifier table)
      ▸ delete_where-Appends dyn dollar quote_identifier "postgresql" w
      ▸ text-Appends dollar "RETURNING *")

  -- `GenerateDelete` on a condition that has conditions or groups but says nothing (an `IN` with no
  -- values, an unknown operator) writes no WHERE, so the statement deletes every row.
  pub generate_delete_unguarded :
      (table : String) (conditions : List (Condition Value)) (nested : Groups Value)
      (operator : String) (is_not : Bool)
      → is_empty conditions nested ≡ false
      → where_pieces dyn quote_identifier "postgresql"
          (where_clause conditions nested operator is_not)
        ≡ []
      → let q = generate_delete dyn table (some (where_clause conditions nested operator is_not)) in
        (q.sql ≡ "DELETE FROM " <> (quote_identifier table <> " RETURNING *")) × (q.args ≡ [])
  unfolding erase_parts where_parts headed texts join_pieces render bound
  generate_delete_unguarded table conditions nested operator is_not some_condition silent =
      let w = where_clause conditions nested operator is_not in
      let h = generate_delete-IsStatement table (some w) in
      let h' =
        rw
          (
            delete_parts-kept dyn dollar quote_identifier "postgresql" conditions nested operator
                is_not some_condition,
            silent,
          )
          at h in
      (h'.0 ∙ str_append_assoc "DELETE FROM " (quote_identifier table) " RETURNING *", h'.1)
