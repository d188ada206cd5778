-- ===== src/Query/Grammar.antt =====
-- The texts of the clauses of a statement, as SQL has them: the specification of what the generators
-- (query/sqlgen) write. Nothing of their code is used here.
pub mod Agreeing
pub mod Ctes
pub mod Windows
use prisma_go.Base.{
  if◌then◌else◌, Bool, true, false, String, ◌<>◌, str_eq, List, [], ◌∷◌, ◌++◌, map, Option, none,
  some, ℤ, pos, negsuc, zero, suc, decimal_int, join,
}
use prisma_go.Query.Where.Pieces.{Piece, text, embed, join_pieces}
use prisma_go.Query.Statement.{Cte, OrderBy, Join, AggregateFunction, GroupBy}
use prisma_go.Query.Statement.Windows.{FrameBound, WindowFrame, WindowDefinition, WindowFunction}

abbrev pub one_of : String → List String → Bool
one_of s [] = false
one_of s (t ∷ ts) = if str_eq s t then true else one_of s ts

-- The operators of the comparisons.
abbrev pub comparisons : List String
comparisons = "=" ∷ "!=" ∷ ">" ∷ "<" ∷ ">=" ∷ "<=" ∷ []

-- A text that goes with a name, and stands only if there is a name.
abbrev pub given : String → String → String
given name with_name = if str_eq name "" then "" else with_name

-- What a SELECT lists, or all columns.
abbrev pub select_text : List String → String
select_text [] = "SELECT *"
select_text (p ∷ ps) = "SELECT " <> join ", " (p ∷ ps)

-- The columns without those that are in a list.
abbrev pub without : List String → List String → List String
without names [] = []
without names (c ∷ cs) = if one_of c names then without names cs else c ∷ without names cs

-- The columns that an upsert updates: the given ones, or the inserted ones that are not in the
-- conflict target.
abbrev pub columns_to_update : List String → List String → List String → List String
columns_to_update columns [] target = without target columns
columns_to_update columns (u ∷ us) target = u ∷ us

abbrev pub group_names : Option GroupBy → List String
group_names none = []
group_names (some g) = g.fields

-- The bounds of a frame.
abbrev pub bound_text : FrameBound → String
bound_text b = elim b.offset [
  | none ↦ b.bound_type
  | some n ↦
      if one_of b.bound_type ("PRECEDING" ∷ "FOLLOWING" ∷ [])
      then decimal_int n <> (" " <> b.bound_type)
      else b.bound_type
]

abbrev pub bounds_text : Option FrameBound → Option FrameBound → String
bounds_text none _ = ""
bounds_text (some s) none = " " <> bound_text s
bounds_text (some s) (some e) = " BETWEEN " <> (bound_text s <> (" AND " <> bound_text e))

abbrev pub frame_clause : Option WindowFrame → List String
frame_clause none = []
frame_clause (some f) =
    (f.frame_type
      <> (bounds_text f.start f.end <> given f.exclusion_type (" " <> f.exclusion_type)))
    ∷ []

-- MySQL has no OFFSET without a limit: the greatest there is stands for none, or for 0.
abbrev pub greatest_limit : Option ℤ → List String
greatest_limit none = "LIMIT 18446744073709551615" ∷ []
greatest_limit (some (pos zero)) = "LIMIT 18446744073709551615" ∷ []
greatest_limit (some (pos (suc n))) = []
greatest_limit (some (negsuc n)) = []

module _ (quote : String → String) where
  abbrev pub names_text : List String → String
  names_text names = join ", " (map quote names)

  -- A clause of names, if there is one.
  abbrev pub names_clause : String → List String → List String
  names_clause keyword [] = []
  names_clause keyword (n ∷ ns) = (keyword <> names_text (n ∷ ns)) ∷ []

  abbrev pub columns_clause : List String → List String
  columns_clause [] = []
  columns_clause (c ∷ cs) = ("(" <> (names_text (c ∷ cs) <> ")")) ∷ []

  abbrev pub order_item : OrderBy → String
  order_item ob =
      quote ob.field <> (if one_of ob.direction ("DESC" ∷ "desc" ∷ []) then " DESC" else " ASC")

  abbrev pub order_clause : List OrderBy → List String
  order_clause [] = []
  order_clause (ob ∷ obs) = ("ORDER BY " <> join ", " (map order_item (ob ∷ obs))) ∷ []

  abbrev pub join_text : (String → String) → Join → String
  join_text to_upper j =
      (if str_eq (to_upper j.join_type) "" then "LEFT" else to_upper j.join_type)
      <> (" JOIN "
          <> (quote j.table
              <> (given j.alias (" AS " <> quote j.alias)
                  <> given j.condition (" ON " <> j.condition))))

  -- An aggregate of a SELECT, with its alias if it has one.
  abbrev argument_text : String → String
  argument_text field = if str_eq field "*" then "*" else quote field

  abbrev pub aggregate_text : AggregateFunction → String
  aggregate_text agg =
      (agg.function <> ("(" <> (argument_text agg.field <> ")")))
      <> given agg.alias (" AS " <> quote agg.alias)

  -- An aggregate that always has an alias.
  abbrev pub aliased_text : AggregateFunction → String
  aliased_text agg =
      agg.function <> ("(" <> (argument_text agg.field <> (") AS " <> quote agg.alias)))

  -- A call of a window function: those that rank take nothing, the others a field, and only an
  -- aggregate can be of all rows.
  abbrev pub call_text : String → String → String
  call_text function field =
      if one_of function ("ROW_NUMBER" ∷ "RANK" ∷ "DENSE_RANK" ∷ [])
      then function <> "()"
      else given field (
          if str_eq field "*"
          then if one_of function ("LAG" ∷ "LEAD" ∷ "FIRST_VALUE" ∷ "LAST_VALUE" ∷ [])
            then function <> ("(" <> (quote field <> ")"))
            else function <> "(*)"
          else function <> ("(" <> (quote field <> ")")))

  abbrev pub over_text : Option WindowDefinition → String
  over_text none = ""
  over_text (some w) =
      " OVER ("
      <> (join " " (
            names_clause "PARTITION BY " w.partition_by_fields
            ++ (order_clause w.order_by_fields ++ frame_clause w.frame_spec))
          <> ")")

  abbrev pub window_text : WindowFunction → String
  window_text wf =
      (call_text wf.function wf.field <> over_text wf.window)
      <> given wf.alias (" AS " <> quote wf.alias)

  abbrev pub cte_columns : List String → String
  cte_columns [] = ""
  cte_columns (c ∷ cs) = " (" <> (names_text (c ∷ cs) <> ")")

  abbrev pub do_update_clause : List String → List String
  do_update_clause [] = []
  do_update_clause (c ∷ cs) =
      ("DO UPDATE SET " <> join ", " (map (λ d. quote d <> (" = EXCLUDED." <> quote d)) (c ∷ cs)))
      ∷ []

  -- MySQL's: nothing without a conflict target and columns to update.
  abbrev pub update_duplicate_clause : List String → List String
  update_duplicate_clause [] = []
  update_duplicate_clause (c ∷ cs) =
      ("ON DUPLICATE KEY UPDATE "
        <> join ", " (map (λ d. quote d <> (" = VALUES(" <> (quote d <> ")"))) (c ∷ cs)))
      ∷ []

  abbrev pub on_duplicate_clause : List String → List String → List String → List String
  on_duplicate_clause columns [] [] = []
  on_duplicate_clause columns [] (t ∷ ts) =
      update_duplicate_clause (columns_to_update columns [] (t ∷ ts))
  on_duplicate_clause columns (u ∷ us) target = update_duplicate_clause (u ∷ us)

  abbrev pub on_conflict_clause : List String → List String → List String → List String
  on_conflict_clause columns update_columns [] = []
  on_conflict_clause columns update_columns (t ∷ ts) =
      ("ON CONFLICT (" <> (names_text (t ∷ ts) <> ")"))
      ∷ do_update_clause (columns_to_update columns update_columns (t ∷ ts))

-- The CTEs of a statement, each with the arguments of its own query.
module _ {V : Type 0} (quote : String → String) where
  abbrev pub cte_pieces : Cte V → List (Piece V)
  cte_pieces cte =
      text (quote cte.name <> (cte_columns quote cte.columns <> " AS ("))
      ∷ embed cte.query.sql cte.query.args
      ∷ text ")"
      ∷ []

  -- `WITH`, or `WITH RECURSIVE` if one of the CTEs is.
  abbrev pub with_keyword : List (Cte V) → String
  with_keyword [] = "WITH"
  with_keyword (cte ∷ ctes) = if cte.is_recursive then "WITH RECURSIVE" else with_keyword ctes

  abbrev pub with_clause : List (Cte V) → List (List (Piece V))
  with_clause [] = []
  with_clause (cte ∷ ctes) =
      (text (with_keyword (cte ∷ ctes) <> " ") ∷ join_pieces ", " (map cte_pieces (cte ∷ ctes)))
      ∷ []
