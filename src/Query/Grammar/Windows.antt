-- ===== src/Query/Grammar/Windows.antt =====
-- The window functions that the code of query/sqlgen writes are those of the grammar.
use prisma_go.Base.{
  ◌≡◌, refl, sym, ap, ap₂, ◌∙◌, if◌then◌else◌, ◌||◌, Bool, true, false, String, ◌<>◌, str_eq,
  eq_iff, List, [], ◌∷◌, ◌++◌, map, Option, none, some, ℤ, arith, inl, inr, Bool-cases, decimal_int,
  join,
}
use prisma_go.Query.Statement.{OrderBy, is_nil, select_list, order_by, quoted_list}
use prisma_go.Query.Statement.Windows.{
  FrameBound, WindowFrame, WindowDefinition, WindowFunction, offset_bound, build_frame_bound,
  frame_sql, call_sql, window_parts, build_window_function, window_sql,
}
use prisma_go.Query.Grammar.{
  one_of, given, select_text, order_clause, bound_text, bounds_text, frame_clause, call_text,
  over_text, window_text, names_clause,
}
use prisma_go.Query.Grammar.Agreeing.{select_list_lem, order_by_lem}

three_lem :
    (a b c : Bool)
    → (a || (b || c)) ≡ (if a then true else if b then true else if c then true else false)
three_lem true b c = refl
three_lem false true c = refl
three_lem false false true = refl
three_lem false false false = refl

four_lem :
    (a b c d : Bool)
    → (a || (b || (c || d)))
      ≡ (if a then true else if b then true else if c then true else if d then true else false)
four_lem true b c d = refl
four_lem false b c d = three_lem b c d

-- A call by its four tests: a function that ranks, one of a row, no field, and all rows.
call_tests :
    (ranks of_row nothing all : Bool) (plain on_field on_rows : String)
    → (nothing ≡ true → all ≡ false)
    → (if ranks
        then plain
        else if of_row
        then (if nothing then "" else on_field)
        else if all
        then on_rows
        else if nothing
        then ""
        else on_field)
      ≡ (if ranks
          then plain
          else if nothing
          then ""
          else if all
          then (if of_row then on_field else on_rows)
          else on_field)
call_tests true of_row nothing all plain on_field on_rows h = refl
call_tests false true true all plain on_field on_rows h = refl
call_tests false true false true plain on_field on_rows h = refl
call_tests false true false false plain on_field on_rows h = refl
call_tests false false true true plain on_field on_rows h = absurd (ground (arith, h refl))
call_tests false false true false plain on_field on_rows h = refl
call_tests false false false true plain on_field on_rows h = refl
call_tests false false false false plain on_field on_rows h = refl

module _ (to_upper : String → String) (quote : String → String) where
  bound_case :
      (t : String) (o : Option ℤ)
      → build_frame_bound (record { bound_type = t; offset = o })
        ≡ bound_text (record { bound_type = t; offset = o })
  unfolding build_frame_bound offset_bound
  bound_case t none = elim (Bool-cases (str_eq t "PRECEDING")) [
    | inl e ↦ rw e (sym ((eq_iff t "PRECEDING").0 e))
    | inr e ↦ elim (Bool-cases (str_eq t "FOLLOWING")) [
      | inl f ↦ rw (e, f) (sym ((eq_iff t "FOLLOWING").0 f))
      | inr f ↦ rw (e, f) refl
    ]
  ]
  bound_case t (some n) = elim (Bool-cases (str_eq t "PRECEDING")) [
    | inl e ↦ rw e (ap (λ u. decimal_int n <> (" " <> u)) (sym ((eq_iff t "PRECEDING").0 e)))
    | inr e ↦ elim (Bool-cases (str_eq t "FOLLOWING")) [
      | inl f ↦ rw (e, f) (ap (λ u. decimal_int n <> (" " <> u)) (sym ((eq_iff t "FOLLOWING").0 f)))
      | inr f ↦ rw (e, f) refl
    ]
  ]

  frame_bound_lem : (b : FrameBound) → build_frame_bound b ≡ bound_text b
  frame_bound_lem b = bound_case b.bound_type b.offset

  frame_case :
      (frame_type exclusion : String) (start end : Option FrameBound)
      → frame_sql
          (record { frame_type = frame_type; start = start; end = end; exclusion_type = exclusion })
        ≡ frame_type <> (bounds_text start end <> given exclusion (" " <> exclusion))
  unfolding frame_sql
  frame_case frame_type exclusion none end = refl
  frame_case frame_type exclusion (some s) none = rw (frame_bound_lem s) refl
  frame_case frame_type exclusion (some s) (some e) = rw (frame_bound_lem s, frame_bound_lem e) refl

  frame_lem :
      (frame : Option WindowFrame)
      → (elim frame as (λ _. List String) [ none ↦ [] | some f ↦ frame_sql f ∷ [] ])
        ≡ frame_clause frame
  frame_lem none = refl
  frame_lem (some f) =
      ap (λ (t : String). t ∷ []) (frame_case f.frame_type f.exclusion_type f.start f.end)

  call_lem :
      (wf : WindowFunction) → call_sql to_upper quote wf ≡ call_text quote wf.function wf.field
  unfolding call_sql
  call_lem wf =
      rw
        (
          three_lem (str_eq wf.function "ROW_NUMBER") (str_eq wf.function "RANK")
              (str_eq wf.function "DENSE_RANK"),
          four_lem (str_eq wf.function "LAG") (str_eq wf.function "LEAD")
              (str_eq wf.function "FIRST_VALUE") (str_eq wf.function "LAST_VALUE"),
        )
        (call_tests (one_of wf.function ("ROW_NUMBER" ∷ "RANK" ∷ "DENSE_RANK" ∷ []))
          (one_of wf.function ("LAG" ∷ "LEAD" ∷ "FIRST_VALUE" ∷ "LAST_VALUE" ∷ []))
          (str_eq wf.field "") (str_eq wf.field "*") (wf.function <> "()")
          (wf.function <> ("(" <> (quote wf.field <> ")"))) (wf.function <> "(*)")
          (λ e. ap (λ (t : String). str_eq t "*") ((eq_iff wf.field "").0 e)))

  partition_lem :
      (names : List String)
      → (if is_nil names then [] else ("PARTITION BY " <> quoted_list to_upper quote names) ∷ [])
        ≡ names_clause quote "PARTITION BY " names
  unfolding is_nil quoted_list
  partition_lem [] = refl
  partition_lem (n ∷ ns) = refl

  order_lem :
      (obs : List OrderBy)
      → (if is_nil obs then [] else order_by to_upper quote obs ∷ []) ≡ order_clause quote obs
  unfolding is_nil
  order_lem [] = refl
  order_lem (ob ∷ obs) = order_by_lem to_upper quote ob obs

  window_parts_lem :
      (w : WindowDefinition)
      → window_parts to_upper quote w
        ≡ names_clause quote "PARTITION BY " w.partition_by_fields
          ++ (order_clause quote w.order_by_fields ++ frame_clause w.frame_spec)
  unfolding window_parts
  window_parts_lem w =
      ap₂ (◌++◌ {A = String}) (partition_lem w.partition_by_fields)
        (ap₂ (◌++◌ {A = String}) (order_lem w.order_by_fields) (frame_lem w.frame_spec))

  over_lem :
      (w : Option WindowDefinition)
      → (elim w as (λ _. String) [
        | none ↦ ""
        | some d ↦ " OVER (" <> (join " " (window_parts to_upper quote d) <> ")")
      ])
        ≡ over_text quote w
  over_lem none = refl
  over_lem (some d) = ap (λ ps. " OVER (" <> (join " " ps <> ")")) (window_parts_lem d)

  window_sql_lem : (wf : WindowFunction) → window_sql to_upper quote wf ≡ window_text quote wf
  unfolding window_sql build_window_function
  window_sql_lem wf =
      ap₂ (λ (c o : String). (c <> o) <> given wf.alias (" AS " <> quote wf.alias)) (call_lem wf)
        (over_lem wf.window)

  windows_lem :
      (funcs : List WindowFunction)
      → map (window_sql to_upper quote) funcs ≡ map (window_text quote) funcs
  windows_lem [] = refl
  windows_lem (wf ∷ wfs) =
      ap₂ (λ (t : String) (ts : List String). t ∷ ts) (window_sql_lem wf) (windows_lem wfs)

  pub select_windows_lem :
      (columns : List String) (funcs : List WindowFunction)
      → select_list to_upper quote columns (map (window_sql to_upper quote) funcs)
        ≡ select_text (map quote columns ++ map (window_text quote) funcs)
  select_windows_lem columns funcs =
      select_list_lem to_upper quote columns (map (window_sql to_upper quote) funcs)
      ∙ ap (λ others. select_text (map quote columns ++ others)) (windows_lem funcs)
