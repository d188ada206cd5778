-- ===== src/Query/Statement/Windows.antt =====
-- Window functions (`buildWindowFunction`, `buildFrameBound`, query/sqlgen/sqlgen.go). They have no
-- arguments, and the counter they are given is not used.
use prisma_go.Base.{
  if◌then◌else◌, ◌||◌, String, ◌<>◌, str_eq, List, [], ◌∷◌, ◌++◌, Option, none, some, ℤ,
  decimal_int,
}
use prisma_go.Query.Condition.{join}
use prisma_go.Query.Statement.{OrderBy, is_nil, quoted_list, order_by}

pub record FrameBound : Type 0 where
  pub bound_type : String
  pub offset : Option ℤ

pub record WindowFrame : Type 0 where
  pub frame_type : String
  pub start : Option FrameBound
  pub end : Option FrameBound
  pub exclusion_type : String

pub record WindowDefinition : Type 0 where
  pub partition_by_fields : List String
  pub order_by_fields : List OrderBy
  pub frame_spec : Option WindowFrame

pub record WindowFunction : Type 0 where
  pub function : String
  pub field : String
  pub alias : String
  pub window : Option WindowDefinition

-- A bound with an offset, which may be nil.
unfoldable pub offset_bound : String → Option ℤ → String
unfolding decimal_int
offset_bound direction none = direction
offset_bound direction (some n) = decimal_int n <> (" " <> direction)

-- `buildFrameBound`; every other type stands for itself.
unfoldable pub build_frame_bound : FrameBound → String
unfolding offset_bound
build_frame_bound b =
    if str_eq b.bound_type "PRECEDING"
    then offset_bound "PRECEDING" b.offset
    else if str_eq b.bound_type "FOLLOWING"
    then offset_bound "FOLLOWING" b.offset
    else b.bound_type

unfoldable pub frame_sql : WindowFrame → String
unfolding build_frame_bound
frame_sql f =
    let bounds : String = elim f.start [
      | none ↦ ""
      | some s ↦ elim f.end [
        | none ↦ " " <> build_frame_bound s
        | some e ↦ " BETWEEN " <> (build_frame_bound s <> (" AND " <> build_frame_bound e))
      ]
    ] in
    let exclusion = if str_eq f.exclusion_type "" then "" else " " <> f.exclusion_type in
    f.frame_type <> (bounds <> exclusion)

module _ (to_upper : String → String) (quote : String → String) where
  -- The call; a function that needs a field and has none is left out.
  unfoldable pub call_sql : WindowFunction → String
  call_sql wf =
      let on_field =
        if str_eq wf.field "" then "" else wf.function <> ("(" <> (quote wf.field <> ")")) in
      if str_eq wf.function "ROW_NUMBER"
        || (str_eq wf.function "RANK" || str_eq wf.function "DENSE_RANK")
      then wf.function <> "()"
      else if str_eq wf.function "LAG"
          || (str_eq wf.function "LEAD"
              || (str_eq wf.function "FIRST_VALUE" || str_eq wf.function "LAST_VALUE"))
      then on_field
      else if str_eq wf.field "*"
      then wf.function <> "(*)"
      else on_field

  unfoldable pub window_parts : WindowDefinition → List String
  unfolding frame_sql quoted_list order_by is_nil
  window_parts w =
      let partition =
        if is_nil w.partition_by_fields
        then []
        else ("PARTITION BY " <> quoted_list to_upper quote w.partition_by_fields) ∷ [] in
      let order =
        if is_nil w.order_by_fields then [] else order_by to_upper quote w.order_by_fields ∷ [] in
      let frame : List String = elim w.frame_spec [ none ↦ [] | some f ↦ frame_sql f ∷ [] ] in
      partition ++ (order ++ frame)

  -- `buildWindowFunction`
  unfoldable pub build_window_function : WindowFunction → String
  unfolding call_sql window_parts join
  build_window_function wf =
      let over : String = elim wf.window [
        | none ↦ ""
        | some w ↦ " OVER (" <> (join " " (window_parts w) <> ")")
      ] in
      call_sql wf <> over

  -- The function with its alias, in the list of a SELECT.
  unfoldable pub window_sql : WindowFunction → String
  unfolding build_window_function
  window_sql wf =
      let alias = if str_eq wf.alias "" then "" else " AS " <> quote wf.alias in
      build_window_function wf <> alias
