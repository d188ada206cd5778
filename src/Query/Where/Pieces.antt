-- ===== src/Query/Where/Pieces.antt =====
-- The specification of a WHERE clause: pieces of text, and the places where an argument is bound,
-- each with its argument. It has no counter: a place gets its number from where it stands.
use prisma_go.Base.{
  ℕ, ◌+◌, if◌then◌else◌, Bool, ◌||◌, String, ◌<>◌, str_eq, List, [], ◌∷◌, ◌++◌, none, some, length,
}
use prisma_go.Query.Condition.{
  Dynamic, Condition, WhereClause, where_clause, Groups, no_groups, nil_group, group, comparison,
  in_list, not_in_list, exists_query, not_exists_query, like, is_null, is_not_null,
  unknown_operator, operator_case, postgres_json, mysql_json, sqlite_json, no_json, json_dialect,
  json_at_path, json_contains, json_array_contains, json_has_key, unknown_filter, json_filter,
}

pub data Piece (V : Type 0) : Type 0 where
  text : String → Piece V
  -- A place for one argument.
  bind : V → Piece V
  -- The text of a subquery, which stands for the places of its own arguments.
  embed : String → List V → Piece V

module _ {V : Type 0} where
  -- The arguments, in the order of their places.
  unfoldable pub bound : List (Piece V) → List V
  bound [] = []
  bound (text s ∷ ps) = bound ps
  bound (bind v ∷ ps) = v ∷ bound ps
  bound (embed s vs ∷ ps) = vs ++ bound ps

  -- The SQL, with the places numbered from left to right, from `i` on. The text of a subquery is
  -- copied as it is, with the numbers that its own places have; the numbers go on behind it by the
  -- number of its arguments.
  unfoldable pub render : (ℕ → String) → ℕ → List (Piece V) → String
  render placeholder i [] = ""
  render placeholder i (text s ∷ ps) = s <> render placeholder i ps
  render placeholder i (bind v ∷ ps) = placeholder i <> render placeholder (i + 1) ps
  render placeholder i (embed s vs ∷ ps) = s <> render placeholder (i + length vs) ps

  -- Lists of pieces with a separator between them.
  unfoldable pub join_pieces : String → List (List (Piece V)) → List (Piece V)
  join_pieces sep [] = []
  join_pieces sep (ps ∷ []) = ps
  join_pieces sep (ps ∷ qs ∷ rest) = ps ++ (text sep ∷ join_pieces sep (qs ∷ rest))

  -- What is not there is left out.
  unfoldable pub present : List (Piece V) → List (List (Piece V))
  present [] = []
  present (p ∷ ps) = (p ∷ ps) ∷ []

module _ (dyn : Dynamic) (quoter : String → String) (provider : String) where
  open dyn use {Value, as_slice, as_subquery, of_string, sprint_s, sprint_v}

  -- v₁, v₂, …
  unfoldable pub binds : List Value → List (Piece Value)
  binds [] = []
  binds (v ∷ []) = bind v ∷ []
  binds (v ∷ w ∷ vs) = bind v ∷ text ", " ∷ binds (w ∷ vs)

  unfoldable pub in_pieces : String → Condition Value → List (Piece Value)
  in_pieces keyword cond =
      if cond.is_subquery
      then elim (as_subquery cond.value) [
        | none ↦ []
        | some (query, args) ↦
            text (quoter cond.field) ∷ text keyword ∷ embed query args ∷ text ")" ∷ []
      ]
      else elim (as_slice cond.value) [
        | none ↦ []
        | some [] ↦ []
        | some (v ∷ vs) ↦
            text (quoter cond.field) ∷ text keyword ∷ (binds (v ∷ vs) ++ (text ")" ∷ []))
      ]

  unfoldable pub exists_pieces : String → Condition Value → List (Piece Value)
  exists_pieces keyword cond =
      if cond.is_subquery
      then elim (as_subquery cond.value) [
        | none ↦ []
        | some (query, args) ↦ text keyword ∷ embed query args ∷ text ")" ∷ []
      ]
      else []

  unfoldable pub json_pieces : Condition Value → List (Piece Value)
  json_pieces cond =
      let field = text (quoter cond.field) in
      let path = if str_eq cond.json_path "" then "$" else cond.json_path in
      let v = bind cond.value in
      elim (json_dialect provider) [
        | postgres_json ↦ elim (json_filter cond.json_type) [
          | json_at_path ↦
              field ∷ text "->>" ∷ text "'" ∷ text path ∷ text "'" ∷ text " = " ∷ v ∷ []
          | json_contains ↦ field ∷ text " @> " ∷ v ∷ text "::jsonb" ∷ []
          | json_array_contains ↦ field ∷ text " @> " ∷ v ∷ text "::jsonb" ∷ []
          | json_has_key ↦ field ∷ text " ? " ∷ v ∷ []
          | unknown_filter ↦ []
        ]
        | mysql_json ↦ elim (json_filter cond.json_type) [
          | json_at_path ↦
              text "JSON_EXTRACT("
              ∷ field
              ∷ text ", "
              ∷ bind (of_string path)
              ∷ text ") = "
              ∷ v
              ∷ []
          | json_contains ↦ text "JSON_CONTAINS(" ∷ field ∷ text ", " ∷ v ∷ text ")" ∷ []
          | json_array_contains ↦
              text "JSON_CONTAINS("
              ∷ field
              ∷ text ", "
              ∷ v
              ∷ text ", "
              ∷ bind (of_string path)
              ∷ text ")"
              ∷ []
          | json_has_key ↦
              text "JSON_CONTAINS_PATH("
              ∷ field
              ∷ text ", 'one', "
              ∷ bind (of_string ("$." <> sprint_s cond.value))
              ∷ text ")"
              ∷ []
          | unknown_filter ↦ []
        ]
        | sqlite_json ↦ elim (json_filter cond.json_type) [
          | json_at_path ↦
              text "json_extract("
              ∷ field
              ∷ text ", "
              ∷ bind (of_string path)
              ∷ text ") = "
              ∷ v
              ∷ []
          | json_contains ↦
              text "json_extract("
              ∷ field
              ∷ text ", '$') LIKE "
              ∷ bind (of_string ("%\"" <> (sprint_v cond.value <> "\"%")))
              ∷ []
          | json_array_contains ↦
              text "EXISTS (SELECT 1 FROM json_each("
              ∷ field
              ∷ text ") WHERE value = "
              ∷ v
              ∷ text ")"
              ∷ []
          | json_has_key ↦
              text "json_extract("
              ∷ field
              ∷ text ", "
              ∷ bind (of_string ("$." <> sprint_s cond.value))
              ∷ text ") IS NOT NULL"
              ∷ []
          | unknown_filter ↦ []
        ]
        | no_json ↦ []
      ]

  unfoldable pub operator_pieces : Condition Value → List (Piece Value)
  unfolding in_pieces exists_pieces
  operator_pieces cond =
      let field = text (quoter cond.field) in
      elim (operator_case cond.operator) [
        | comparison ↦ field ∷ text " " ∷ text cond.operator ∷ text " " ∷ bind cond.value ∷ []
        | in_list ↦ in_pieces " IN (" cond
        | not_in_list ↦ in_pieces " NOT IN (" cond
        | exists_query ↦ exists_pieces "EXISTS (" cond
        | not_exists_query ↦ exists_pieces "NOT EXISTS (" cond
        | like ↦ field ∷ text " LIKE " ∷ bind cond.value ∷ []
        | is_null ↦ field ∷ text " IS NULL" ∷ []
        | is_not_null ↦ field ∷ text " IS NOT NULL" ∷ []
        | unknown_operator ↦ []
      ]

  unfoldable pub condition_pieces : Condition Value → List (Piece Value)
  unfolding operator_pieces json_pieces
  condition_pieces cond =
      if str_eq cond.json_type "" then operator_pieces cond else json_pieces cond

  unfoldable pub conditions_pieces : List (Condition Value) → List (List (Piece Value))
  unfolding condition_pieces present
  conditions_pieces [] = []
  conditions_pieces (c ∷ cs) = present (condition_pieces c) ++ conditions_pieces cs

  -- Parentheses round a group that is there.
  unfoldable pub grouped : List (Piece Value) → List (List (Piece Value))
  grouped [] = []
  grouped (p ∷ ps) = (text "(" ∷ ((p ∷ ps) ++ (text ")" ∷ []))) ∷ []

  -- The parts joined by the operator, under NOT if it is asked for.
  unfoldable pub closed : String → Bool → List (List (Piece Value)) → List (Piece Value)
  unfolding join_pieces
  closed operator is_not [] = []
  closed operator is_not (ps ∷ rest) =
      let op = if str_eq operator "OR" || str_eq operator "or" then "OR" else "AND" in
      let all = join_pieces (" " <> (op <> " ")) (ps ∷ rest) in
      if is_not then text "NOT (" ∷ (all ++ (text ")" ∷ [])) else all

  unfoldable mutual
    unfolding conditions_pieces grouped closed

    pub where_pieces : WhereClause Value → List (Piece Value)
    where_pieces (where_clause conditions groups operator is_not) =
        closed operator is_not (conditions_pieces conditions ++ groups_pieces groups)

    pub groups_pieces : Groups Value → List (List (Piece Value))
    groups_pieces no_groups = []
    groups_pieces (nil_group groups) = groups_pieces groups
    groups_pieces (group w groups) = grouped (where_pieces w) ++ groups_pieces groups
