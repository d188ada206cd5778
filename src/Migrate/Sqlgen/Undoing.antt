-- ===== src/Migrate/Sqlgen/Undoing.antt =====
-- The statements of a migration of a table, and of its rollback, are those of the actions
-- (`generateAlterTable` and `generateRollbackAlterTable`, migrate/sqlgen/postgres.go).
use prisma_go.Base.{
  ◌≡◌, refl, sym, ap, ap₂, ◌∙◌, Bool, true, false, String, ◌<>◌, List, [], ◌∷◌, map, Option, none,
  some, for_each, Unicode, join, str_nil-append, str_append-nil, str_append_assoc, str_eq,
  Bool-cases, inl, inr,
}
use mathlib.Core.List.{reverse, reverse-cons, map-append}
use prisma_go.Migrate.Schema.{DatabaseSchema}
use prisma_go.Migrate.Change.{
  ChangeType, Change, ColumnMetadata, create_table, drop_table, alter_table, redefine_table,
  add_column, drop_column, alter_column, create_index, drop_index, rename_index, create_foreign_key,
  drop_foreign_key, rename_foreign_key,
}
use prisma_go.Migrate.Differ.{table_change}
use prisma_go.Migrate.Sqlgen.{quoted}
use prisma_go.Migrate.Sqlgen.Altering.{
  alter_column_sql, add_column_sql, drop_column_sql, drop_index_sql, rename_index_sql,
  drop_constraint_sql, rename_constraint_sql, set_nullable_sql, change_sql, generate_alter_table,
}
use prisma_go.Migrate.Sqlgen.Writing.{
  join-cons, join-concat, altered_lem, created_index_lem, created_key_lem,
}
use prisma_go.Migrate.Sqlgen.Reverting.{
  restore_column_sql, restore_type_sql, restore_nullable_sql, rollback_sql, rollback_from_last,
  generate_rollback_alter_table,
}
use prisma_go.Migrate.Sqlgen.Actions.{
  action_text, adds, sets_type, sets_nullable, actions_text, definition_text,
}
use prisma_go.Migrate.Sqlgen.Changing.{nullable_again, readding, restoring, change_text, undo_text}

added_lem :
    (u : Unicode) (table column : String) (metadata : Option ColumnMetadata)
    → add_column_sql u table column metadata
      ≡ action_text table (adds column (definition_text u metadata))
unfolding add_column_sql quoted join
added_lem u table column none = refl
added_lem u table column (some meta) = refl

change_lem :
    (u : Unicode) (table : String) (schema : Option DatabaseSchema) (type : ChangeType)
    (ch : Change)
    → change_sql u table schema type ch ≡ change_text u table schema type ch
unfolding change_sql change_text drop_column_sql drop_index_sql rename_index_sql drop_constraint_sql
    rename_constraint_sql quoted join
change_lem u table schema add_column ch = rw (added_lem u table ch.column ch.column_metadata) refl
change_lem u table schema drop_column ch = refl
change_lem u table schema alter_column ch = rw (altered_lem u table ch ch.column_metadata) refl
change_lem u table schema create_index ch = rw (created_index_lem table ch schema) refl
change_lem u table schema drop_index ch = refl
change_lem u table schema rename_index ch = refl
change_lem u table schema create_foreign_key ch = rw (created_key_lem table ch schema) refl
change_lem u table schema drop_foreign_key ch = refl
change_lem u table schema rename_foreign_key ch = refl
change_lem u table schema create_table ch = refl
change_lem u table schema drop_table ch = refl
change_lem u table schema alter_table ch = refl
change_lem u table schema redefine_table ch = refl

type_lem :
    (table column type : String) (old : Option Bool)
    → alter_column_sql table column ("TYPE " <> type) <> restore_nullable_sql table column old
      ≡ actions_text table (sets_type column type ∷ nullable_again column old)
unfolding alter_column_sql restore_nullable_sql set_nullable_sql quoted join
type_lem table column type none = str_append-nil _
type_lem table column type (some true) =
    ap (◌<>◌ (action_text table (sets_type column type)))
      (sym (str_nil-append (action_text table (sets_nullable column true))))
type_lem table column type (some false) =
    ap (◌<>◌ (action_text table (sets_type column type)))
      (sym (str_nil-append (action_text table (sets_nullable column false))))

restored_lem :
    (table column : String) (metadata : Option ColumnMetadata)
    → restore_type_sql table column metadata ≡ actions_text table (restoring column metadata)
unfolding restore_type_sql join
restored_lem table column none = refl
restored_lem table column (some meta) = elim (Bool-cases (str_eq meta.old_type "")) [
  | inl e ↦ rw e refl
  | inr e ↦ rw e (type_lem table column meta.old_type meta.old_nullable)
]

readded_lem :
    (u : Unicode) (table column : String) (metadata : Option ColumnMetadata)
    → restore_column_sql u table column metadata ≡ readding u table column metadata
unfolding restore_column_sql
readded_lem u table column none = refl
readded_lem u table column (some meta) = added_lem u table column (some meta)

rollback_lem :
    (u : Unicode) (table : String) (type : ChangeType) (ch : Change)
    → rollback_sql u table type ch ≡ undo_text u table type ch
unfolding rollback_sql undo_text drop_column_sql drop_index_sql rename_index_sql drop_constraint_sql
    rename_constraint_sql quoted join
rollback_lem u table add_column ch = refl
rollback_lem u table drop_column ch = readded_lem u table ch.column ch.column_metadata
rollback_lem u table alter_column ch = restored_lem table ch.column ch.column_metadata
rollback_lem u table create_index ch = refl
rollback_lem u table drop_index ch = refl
rollback_lem u table rename_index ch = refl
rollback_lem u table create_foreign_key ch = refl
rollback_lem u table drop_foreign_key ch = refl
rollback_lem u table rename_foreign_key ch = refl
rollback_lem u table create_table ch = refl
rollback_lem u table drop_table ch = refl
rollback_lem u table alter_table ch = refl
rollback_lem u table redefine_table ch = refl

changes_lem :
    (u : Unicode) (table : String) (schema : Option DatabaseSchema) (cs : List Change)
    (sql : String)
    → for_each (λ (c : Change) s. s <> change_sql u table schema c.type c) cs sql
      ≡ sql <> join "" (map (λ (c : Change). change_text u table schema c.type c) cs)
changes_lem u table schema [] sql = unfold join in sym (str_append-nil sql)
changes_lem u table schema (c ∷ cs) sql =
    changes_lem u table schema cs (sql <> change_sql u table schema c.type c)
    ∙ str_append_assoc sql (change_sql u table schema c.type c) _
    ∙ ap (◌<>◌ sql) (
        ap
          (λ (t : String).
            t <> join "" (map (λ (d : Change). change_text u table schema d.type d) cs))
          (change_lem u table schema c.type c)
        ∙ sym (join-cons (change_text u table schema c.type c) _))

rollbacks_lem :
    (u : Unicode) (table : String) (cs : List Change)
    → rollback_from_last u table cs ""
      ≡ join "" (map (λ (c : Change). undo_text u table c.type c) (reverse cs))
unfolding rollback_from_last
rollbacks_lem u table [] = unfold join in refl
rollbacks_lem u table (c ∷ cs) =
    let f : Change → String = λ d. undo_text u table d.type d in
    ap₂ (λ (s t : String). s <> t) (rollbacks_lem u table cs) (rollback_lem u table c.type c)
    ∙ sym (join-concat (map f (reverse cs)) (f c))
    ∙ ap (join "") (sym (map-append f (reverse cs) (c ∷ [])))
    ∙ ap (λ (ds : List Change). join "" (map f ds)) (sym (reverse-cons c cs))

-- `generateAlterTable` writes for each change of a table, in their order, a comment and what does
-- it: a column is added, dropped or altered (its type, its nullability and its default, as far as
-- the metadata tell them), an index or a foreign key is created as the schema has it, dropped or
-- renamed. An index that the schema lacks is created from the column of the change, or left to a
-- comment; a foreign key that it lacks is left out. `generateRollbackAlterTable` writes what undoes
-- each change, from the last to the first: it drops what was added or created, renames back what
-- was renamed, adds a dropped column and restores the type and nullability of an altered one as far
-- as the metadata tell them, and writes a comment for a dropped index or foreign key. The
-- definition of a column and the literal of a default are those of the code.
pub generate_alter_table-undone :
    (u : Unicode) (table action : String) (cs : List Change) (schema : Option DatabaseSchema)
    → let change = table_change table action cs in
      (generate_alter_table u change schema
        ≡ join "" (map (λ (c : Change). change_text u table schema c.type c) cs))
      × (generate_rollback_alter_table u change
          ≡ join "" (map (λ (c : Change). undo_text u table c.type c) (reverse cs)))
unfolding generate_alter_table generate_rollback_alter_table
generate_alter_table-undone u table action cs schema =
    (changes_lem u table schema cs "" ∙ str_nil-append _, rollbacks_lem u table cs)
