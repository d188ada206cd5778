-- ===== src/Query/Grammar/Agreeing.antt =====
-- The texts that the code of query/sqlgen writes are those of the grammar.
use prisma_go.Base.{
  ◌≡◌, refl, sym, ap, ap₂, ◌∙◌, if◌then◌else◌, not, String, ◌<>◌, str_eq, List, [], ◌∷◌, ◌++◌, map,
  arith, inl, inr, Bool-cases, str_append-nil, join,
}
use prisma_go.Query.Statement.{
  OrderBy, AggregateFunction, is_nil, filter, has_string, select_columns, select_quoted,
  select_list, order_part, order_by, direction_of, aggregate_sql, updated_columns, quoted_list,
}
use prisma_go.Query.Grammar.{
  one_of, select_text, without, columns_to_update, order_item, order_clause, aggregate_text,
}

has_string_lem : (s : String) (names : List String) → has_string s names ≡ one_of s names
unfolding has_string
has_string_lem s [] = refl
has_string_lem s (n ∷ ns) = ground (arith, has_string_lem s ns)

filter_lem :
    (names columns : List String)
    → filter (λ column. not (has_string column names)) columns ≡ without names columns
unfolding filter has_string
filter_lem names [] = refl
filter_lem names (c ∷ cs) = ground (arith, filter_lem names cs, has_string_lem c names)

module _ (to_upper : String → String) (quote : String → String) where
  pub select_columns_lem :
      (columns : List String) → select_columns to_upper quote columns ≡ select_text columns
  unfolding select_columns is_nil
  select_columns_lem [] = refl
  select_columns_lem (c ∷ cs) = refl

  pub select_quoted_lem :
      (columns : List String)
      → select_quoted to_upper quote columns ≡ select_text (map quote columns)
  unfolding select_quoted quoted_list is_nil
  select_quoted_lem [] = refl
  select_quoted_lem (c ∷ cs) = refl

  select_parts_lem :
      (parts : List String)
      → "SELECT " <> join ", " (if is_nil parts then "*" ∷ [] else parts) ≡ select_text parts
  unfolding is_nil join
  select_parts_lem [] = refl
  select_parts_lem (p ∷ ps) = refl

  pub select_list_lem :
      (columns others : List String)
      → select_list to_upper quote columns others ≡ select_text (map quote columns ++ others)
  unfolding select_list
  select_list_lem columns others = select_parts_lem (map quote columns ++ others)

  direction_lem :
      (d : String)
      → " " <> direction_of to_upper quote d
        ≡ (if one_of d ("DESC" ∷ "desc" ∷ []) then " DESC" else " ASC")
  unfolding direction_of
  direction_lem d = elim (Bool-cases (str_eq d "DESC")) [
    | inl e ↦ rw e refl
    | inr e ↦ elim (Bool-cases (str_eq d "desc")) [
      | inl f ↦ rw (e, f) refl
      | inr f ↦ rw (e, f) refl
    ]
  ]

  order_parts_lem :
      (obs : List OrderBy) → map (order_part to_upper quote) obs ≡ map (order_item quote) obs
  unfolding order_part
  order_parts_lem [] = refl
  order_parts_lem (ob ∷ obs) =
      ap₂ (λ (s : String) (ss : List String). (quote ob.field <> s) ∷ ss)
        (direction_lem ob.direction) (order_parts_lem obs)

  pub order_by_lem :
      (ob : OrderBy) (obs : List OrderBy)
      → order_by to_upper quote (ob ∷ obs) ∷ [] ≡ order_clause quote (ob ∷ obs)
  unfolding order_by
  order_by_lem ob obs =
      ap (λ parts. ("ORDER BY " <> join ", " parts) ∷ []) (order_parts_lem (ob ∷ obs))

  aggregate_sql_lem :
      (agg : AggregateFunction) → aggregate_sql to_upper quote agg ≡ aggregate_text quote agg
  unfolding aggregate_sql
  aggregate_sql_lem agg = elim (Bool-cases (str_eq agg.alias "")) [
    | inl e ↦ rw e (sym (str_append-nil _))
    | inr e ↦ rw e refl
  ]

  pub updated_columns_lem :
      (columns update_columns target : List String)
      → updated_columns to_upper quote columns update_columns target
        ≡ columns_to_update columns update_columns target
  unfolding updated_columns is_nil
  updated_columns_lem columns [] target = filter_lem target columns
  updated_columns_lem columns (u ∷ us) target = refl

  aggregates_lem :
      (aggregates : List AggregateFunction)
      → map (aggregate_sql to_upper quote) aggregates ≡ map (aggregate_text quote) aggregates
  aggregates_lem [] = refl
  aggregates_lem (agg ∷ aggs) =
      ap₂ (λ (t : String) (ts : List String). t ∷ ts) (aggregate_sql_lem agg) (aggregates_lem aggs)

  pub select_aggregates_lem :
      (columns : List String) (aggregates : List AggregateFunction)
      → select_list to_upper quote columns (map (aggregate_sql to_upper quote) aggregates)
        ≡ select_text (map quote columns ++ map (aggregate_text quote) aggregates)
  select_aggregates_lem columns aggregates =
      select_list_lem columns (map (aggregate_sql to_upper quote) aggregates)
      ∙ ap (λ others. select_text (map quote columns ++ others)) (aggregates_lem aggregates)
