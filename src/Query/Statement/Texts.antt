-- ===== src/Query/Statement/Texts.antt =====
-- The clauses of a statement (query/sqlgen) that are text alone: what is appended is the grammar's.
use prisma_go.Base.{
  ℕ, ◌≡◌, sym, subst, String, ◌<>◌, List, [], ◌∷◌, map, Option, none, some, for_each, join,
}
use prisma_go.Query.Statement.{
  OrderBy, GroupBy, Join, join_sql, quoted_list, updated_columns, excluded, add_do_update,
  add_on_conflict, order_by, is_nil, add_text, add_order_by, add_group_by, add_columns, add_join,
}
use prisma_go.Query.Statement.Appending.{texts, Appends, ◌▸◌, none-Appends, text-Appends}
use prisma_go.Query.Grammar.{
  names_clause, columns_clause, order_clause, group_names, join_text, do_update_clause,
  on_conflict_clause, columns_to_update,
}
use prisma_go.Query.Grammar.Agreeing.{order_by_lem, updated_columns_lem}

-- A text that is the same as another.
pub told-Appends :
    {V : Type 0} (ph : ℕ → String) (s t : String)
    → s ≡ t
    → Appends {V = V} ph (add_text s) (texts (t ∷ []))
unfolding texts
told-Appends {V} ph s t e =
    subst (λ u. Appends {V = V} ph (add_text s) (texts (u ∷ []))) e (text-Appends ph s)

module _ (to_upper : String → String) (quote : String → String) {V : Type 0} (ph : ℕ → String) where
  pub order_by-Appends :
      (obs : List OrderBy)
      → Appends {V = V} ph (add_order_by to_upper quote obs) (texts (order_clause quote obs))
  unfolding add_order_by is_nil texts
  order_by-Appends [] = none-Appends ph
  order_by-Appends (ob ∷ obs) =
      subst (λ ts. Appends {V = V} ph (add_text (order_by to_upper quote (ob ∷ obs))) (texts ts))
        (order_by_lem to_upper quote ob obs) (text-Appends ph (order_by to_upper quote (ob ∷ obs)))

  fields-Appends :
      (fields : List String)
      → Appends {V = V} ph
          (add_group_by to_upper quote (some (record { fields = fields })))
          (texts (names_clause quote "GROUP BY " fields))
  unfolding add_group_by texts is_nil quoted_list
  fields-Appends [] = none-Appends ph
  fields-Appends (x ∷ xs) = text-Appends ph ("GROUP BY " <> quoted_list to_upper quote (x ∷ xs))

  pub group_by-Appends :
      (g : Option GroupBy)
      → Appends {V = V} ph
          (add_group_by to_upper quote g)
          (texts (names_clause quote "GROUP BY " (group_names g)))
  unfolding add_group_by texts
  group_by-Appends none = none-Appends ph
  group_by-Appends (some g) = fields-Appends g.fields

  pub columns-Appends :
      (columns : List String)
      → Appends {V = V} ph
          (add_columns to_upper quote columns)
          (texts (columns_clause quote columns))
  unfolding add_columns is_nil texts quoted_list
  columns-Appends [] = none-Appends ph
  columns-Appends (c ∷ cs) = text-Appends ph ("(" <> (quoted_list to_upper quote (c ∷ cs) <> ")"))

  pub joins-Appends :
      (joins : List Join)
      → Appends {V = V} ph
          (λ p. for_each (add_join to_upper quote) joins p)
          (texts (map (join_text quote to_upper) joins))
  unfolding add_join texts join_sql
  joins-Appends [] = none-Appends ph
  joins-Appends (j ∷ js) = text-Appends ph (join_sql to_upper quote j) ▸ joins-Appends js

  do_update-Appends :
      (updated : List String)
      → Appends {V = V} ph
          (add_do_update to_upper quote updated)
          (texts (do_update_clause quote updated))
  unfolding add_do_update texts is_nil excluded
  do_update-Appends [] = none-Appends ph
  do_update-Appends (c ∷ cs) =
      text-Appends ph ("DO UPDATE SET " <> join ", " (map (excluded to_upper quote) (c ∷ cs)))

  updated-Appends :
      (columns update_columns target : List String)
      → Appends {V = V} ph
          (add_do_update to_upper quote
            (updated_columns to_upper quote columns update_columns target))
          (texts (do_update_clause quote (columns_to_update columns update_columns target)))
  updated-Appends columns update_columns target =
      subst
        (λ us.
          Appends {V = V} ph (add_do_update to_upper quote us)
            (texts (do_update_clause quote (columns_to_update columns update_columns target))))
        (sym (updated_columns_lem to_upper quote columns update_columns target))
        (do_update-Appends (columns_to_update columns update_columns target))

  pub on_conflict-Appends :
      (columns update_columns conflict_target : List String)
      → Appends {V = V} ph
          (add_on_conflict to_upper quote columns update_columns conflict_target)
          (texts (on_conflict_clause quote columns update_columns conflict_target))
  unfolding add_on_conflict texts is_nil quoted_list
  on_conflict-Appends columns update_columns [] = none-Appends ph
  on_conflict-Appends columns update_columns (c ∷ cs) =
      text-Appends ph ("ON CONFLICT (" <> (quoted_list to_upper quote (c ∷ cs) <> ")"))
      ▸ updated-Appends columns update_columns (c ∷ cs)
