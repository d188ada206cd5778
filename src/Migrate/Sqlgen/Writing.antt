-- ===== src/Migrate/Sqlgen/Writing.antt =====
-- The statements that alter a column or create an index or a foreign key (`generateAlterTable`,
-- migrate/sqlgen/postgres.go) are those of the actions.
use prisma_go.Base.{
  ◌≡◌, refl, sym, ap, ◌∙◌, if◌then◌else◌, Bool, true, false, String, ◌<>◌, List, [], ◌∷◌, ◌++◌,
  Option, none, some, Unicode, join, str_nil-append, str_append-nil, str_append_assoc, str_eq,
  Bool-cases, inl, inr,
}
use prisma_go.Migrate.Schema.{Index, ForeignKey, Table, DatabaseSchema}
use prisma_go.Migrate.Change.{Change, ColumnMetadata}
use prisma_go.Migrate.Sqlgen.{
  quoted, quoted_names, action_clause, generate_create_index, generate_add_foreign_key,
}
use prisma_go.Migrate.Sqlgen.Altering.{
  alter_column_sql, set_nullable_sql, type_sql, nullable_sql, no_default_sql, default_sql,
  altered_sql, find_table, find_index, find_foreign_key, index_fallback, create_index_sql,
  foreign_key_of_tables, create_foreign_key_sql,
}
use prisma_go.Migrate.Sqlgen.Actions.{actions_text, reference_text, index_text, foreign_key_text}
use prisma_go.Migrate.Sqlgen.Changing.{
  new_type, new_nullable, no_default_text, default_text, altered_text, first_named,
  unknown_index_text, found_index_text, index_in_text, created_index_text, found_key_text,
  keys_text, created_key_text,
}

pub join-cons : (x : String) (xs : List String) → join "" (x ∷ xs) ≡ x <> join "" xs
unfolding join
join-cons x [] = sym (str_append-nil x)
join-cons x (y ∷ ys) = ap (◌<>◌ x) (str_nil-append _)

pub join-concat : (xs : List String) (y : String) → join "" (xs ++ (y ∷ [])) ≡ join "" xs <> y
join-concat [] y = unfold join in sym (str_nil-append y)
join-concat (x ∷ xs) y =
    join-cons x (xs ++ (y ∷ []))
    ∙ ap (◌<>◌ x) (join-concat xs y)
    ∙ sym (str_append_assoc x (join "" xs) y)
    ∙ ap (λ (s : String). s <> y) (sym (join-cons x xs))

type_sql_lem :
    (table column : String) (meta : ColumnMetadata)
    → type_sql table column meta ≡ actions_text table (new_type column meta)
unfolding type_sql alter_column_sql quoted join
type_sql_lem table column meta = elim (Bool-cases (str_eq meta.old_type "")) [
  | inl e ↦ rw e refl
  | inr e ↦ elim (Bool-cases (str_eq meta.old_type meta.type)) [
    | inl f ↦ rw (e, f) refl
    | inr f ↦ rw (e, f) refl
  ]
]

nullable_sql_lem :
    (table column : String) (nullable : Bool) (old : Option Bool)
    → nullable_sql table column nullable old ≡ actions_text table (new_nullable column nullable old)
unfolding nullable_sql set_nullable_sql alter_column_sql quoted join
nullable_sql_lem table column nullable none = refl
nullable_sql_lem table column true (some true) = refl
nullable_sql_lem table column true (some false) = refl
nullable_sql_lem table column false (some true) = refl
nullable_sql_lem table column false (some false) = refl

no_default_lem :
    (table column : String) (old : Option Bool)
    → no_default_sql table column old ≡ no_default_text table column old
unfolding no_default_sql alter_column_sql quoted join
no_default_lem table column none = refl
no_default_lem table column (some old) = refl

default_sql_lem :
    (u : Unicode) (table column : String) (meta : ColumnMetadata) (value : Option String)
    → default_sql u table column meta.type meta.old_nullable value
      ≡ default_text u table column meta value
unfolding default_sql alter_column_sql quoted join
default_sql_lem u table column meta none = no_default_lem table column meta.old_nullable
default_sql_lem u table column meta (some value) = elim (Bool-cases (str_eq value "")) [
  | inl e ↦ rw e (no_default_lem table column meta.old_nullable)
  | inr e ↦ rw e refl
]

pub altered_lem :
    (u : Unicode) (table : String) (ch : Change) (metadata : Option ColumnMetadata)
    → altered_sql u table ch metadata ≡ altered_text u table ch metadata
unfolding altered_sql
altered_lem u table ch none = unfold alter_column_sql in unfold quoted in unfold join in refl
altered_lem u table ch (some meta) =
    rw
      (
        type_sql_lem table ch.column meta,
        nullable_sql_lem table ch.column meta.nullable meta.old_nullable,
        default_sql_lem u table ch.column meta meta.default_value,
      )
      refl

table_lem :
    (name : String) (ts : List Table)
    → find_table name ts ≡ first_named (λ (t : Table). t.name) name ts
unfolding find_table
table_lem name [] = refl
table_lem name (t ∷ ts) =
    ap (λ rest. if str_eq t.name name then some t else rest) (table_lem name ts)

index_lem :
    (name : String) (is : List Index)
    → find_index name is ≡ first_named (λ (i : Index). i.name) name is
unfolding find_index
index_lem name [] = refl
index_lem name (i ∷ is) =
    ap (λ rest. if str_eq i.name name then some i else rest) (index_lem name is)

foreign_key_lem :
    (name : String) (ks : List ForeignKey)
    → find_foreign_key name ks ≡ first_named (λ (k : ForeignKey). k.name) name ks
unfolding find_foreign_key
foreign_key_lem name [] = refl
foreign_key_lem name (k ∷ ks) =
    ap (λ rest. if str_eq k.name name then some k else rest) (foreign_key_lem name ks)

index_text_lem :
    (table : String) (index : Index)
    → generate_create_index table index <> "\n" ≡ index_text table index
unfolding generate_create_index quoted quoted_names
index_text_lem table index = refl

reference_lem :
    (keyword action : String) → action_clause keyword action ≡ reference_text keyword action
unfolding action_clause
reference_lem keyword action = elim (Bool-cases (str_eq action "")) [
  | inl e ↦ rw e refl
  | inr e ↦ rw e refl
]

key_text_lem :
    (table : String) (key : ForeignKey)
    → generate_add_foreign_key table key <> "\n" ≡ foreign_key_text table key
unfolding generate_add_foreign_key quoted quoted_names
key_text_lem table key =
    rw (reference_lem " ON UPDATE " key.on_update, reference_lem " ON DELETE " key.on_delete) refl

fallback_lem :
    (table : String) (ch : Change) → index_fallback table ch ≡ unknown_index_text table ch
unfolding index_fallback quoted
fallback_lem table ch = refl

found_lem :
    (table : String) (ch : Change) (found : Option Index)
    → (elim found as (λ _. String) [
      | none ↦ index_fallback table ch
      | some idx ↦ generate_create_index table idx <> "\n"
    ])
      ≡ found_index_text table ch found
found_lem table ch none = fallback_lem table ch
found_lem table ch (some index) = index_text_lem table index

index_in_lem :
    (table : String) (ch : Change) (found : Option Table)
    → (elim found as (λ _. String) [
      | none ↦ index_fallback table ch
      | some t ↦ elim (find_index ch.index t.indexes) [
        | none ↦ index_fallback table ch
        | some idx ↦ generate_create_index table idx <> "\n"
      ]
    ])
      ≡ index_in_text table ch found
index_in_lem table ch none = fallback_lem table ch
index_in_lem table ch (some t) =
    rw (index_lem ch.index t.indexes)
      (found_lem table ch (first_named (λ (i : Index). i.name) ch.index t.indexes))

pub created_index_lem :
    (table : String) (ch : Change) (schema : Option DatabaseSchema)
    → create_index_sql table ch schema ≡ created_index_text table ch schema
unfolding create_index_sql quoted
created_index_lem table ch none = refl
created_index_lem table ch (some schema) =
    rw (table_lem table schema.tables)
      (index_in_lem table ch (first_named (λ (t : Table). t.name) table schema.tables))

found_key_lem :
    (table : String) (found : Option ForeignKey)
    → (elim found as (λ _. String) [
      | none ↦ ""
      | some fk ↦ generate_add_foreign_key table fk <> "\n"
    ])
      ≡ found_key_text table found
found_key_lem table none = refl
found_key_lem table (some key) = key_text_lem table key

keys_lem :
    (table name : String) (ts : List Table)
    → foreign_key_of_tables table name ts ≡ keys_text table name ts
unfolding foreign_key_of_tables
keys_lem table name [] = refl
keys_lem table name (t ∷ ts) =
    rw (keys_lem table name ts, foreign_key_lem name t.foreign_keys)
      (ap
        (λ (here : String).
          if str_eq t.name table then here <> keys_text table name ts else keys_text table name ts)
        (found_key_lem table (first_named (λ (k : ForeignKey). k.name) name t.foreign_keys)))

pub created_key_lem :
    (table : String) (ch : Change) (schema : Option DatabaseSchema)
    → create_foreign_key_sql table ch schema ≡ created_key_text table ch schema
unfolding create_foreign_key_sql quoted
created_key_lem table ch none = refl
created_key_lem table ch (some schema) = keys_lem table ch.index schema.tables
