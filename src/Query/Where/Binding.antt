-- ===== src/Query/Where/Binding.antt =====
-- The builder of WHERE clauses against its specification: the SQL is the pieces with their places
-- numbered from the counter on, the arguments stand in the order of the places, and the counter
-- moves on by their number.
use prisma_go.Base.{
  not, str_nil-append, Option-cases, str_append-nil, str_append_assoc, append-eq-nil_iff, ℕ, ◌+◌,
  ◌≡◌, refl, sym, ap, ◌∙◌, if◌then◌else◌, Bool, true, false, ◌||◌, String, ◌<>◌, str_eq, eq_iff,
  List, [], ◌∷◌, ◌++◌, append-nil, append_assoc, length-append, some, length, arith, ◌≢◌, ◌⊎◌, inl,
  inr, Bool-cases,
}
use prisma_go.Query.Condition.{
  Dynamic, Condition, Built, join, placeholders, build_in, build_exists, build_json_condition,
  build_operator, build_condition,
}
use prisma_go.Query.Where.Pieces.{
  Piece, text, bind, embed, bound, render, binds, in_pieces, exists_pieces, json_pieces,
  operator_pieces, condition_pieces,
}

pub bound-append : {V : Type 0} (ps qs : List (Piece V)) → bound (ps ++ qs) ≡ bound ps ++ bound qs
unfolding bound
bound-append [] qs = refl
bound-append (text s ∷ ps) qs = bound-append ps qs
bound-append (bind v ∷ ps) qs = ap (◌∷◌ v) (bound-append ps qs)
bound-append (embed s vs ∷ ps) qs =
    ap (◌++◌ vs) (bound-append ps qs) ∙ sym (append_assoc vs (bound ps) (bound qs))

pub render-append :
    {V : Type 0} (ph : ℕ → String) (i : ℕ) (ps qs : List (Piece V))
    → render ph i (ps ++ qs) ≡ render ph i ps <> render ph (i + length (bound ps)) qs
unfolding bound render
render-append ph i [] qs = ap (λ (j : ℕ). render ph j qs) (omega arith) ∙ sym (str_nil-append _)
render-append ph i (text s ∷ ps) qs =
    ap (◌<>◌ s) (render-append ph i ps qs) ∙ sym (str_append_assoc s _ _)
render-append ph i (bind v ∷ ps) qs =
    ap (◌<>◌ (ph i)) (render-append ph (i + 1) ps qs)
    ∙ sym (str_append_assoc (ph i) _ _)
    ∙ ap (λ (j : ℕ). (ph i <> render ph (i + 1) ps) <> render ph j qs) (omega arith)
render-append ph i (embed s vs ∷ ps) qs =
    ap (◌<>◌ s) (render-append ph (i + length vs) ps qs)
    ∙ sym (str_append_assoc s _ _)
    ∙ ap (λ (j : ℕ). (s <> render ph (i + length vs) ps) <> render ph j qs)
        (omega (arith, length-append {0} vs (bound ps)))

-- Pieces with text of their own are never rendered to the empty text.
unfoldable pub has_text : {V : Type 0} → List (Piece V) → Bool
has_text [] = false
has_text (text s ∷ ps) = not (str_eq s "") || has_text ps
has_text (bind v ∷ ps) = has_text ps
has_text (embed s vs ∷ ps) = has_text ps

pub has_text-append :
    {V : Type 0} (ps qs : List (Piece V)) → has_text (ps ++ qs) ≡ (has_text ps || has_text qs)
unfolding has_text
has_text-append [] qs = refl
has_text-append (text s ∷ ps) qs = ground (arith, has_text-append ps qs)
has_text-append (bind v ∷ ps) qs = has_text-append ps qs
has_text-append (embed s vs ∷ ps) qs = has_text-append ps qs

right_empty : (a b : String) → a <> b ≡ "" → b ≡ ""
right_empty a b e = (append-eq-nil_iff.0 e).1

left_empty : (a b : String) → a <> b ≡ "" → a ≡ ""
left_empty a b e = (append-eq-nil_iff.0 e).0

pub render-ne_empty :
    {V : Type 0} (ph : ℕ → String) (i : ℕ) (ps : List (Piece V))
    → has_text ps ≡ true
    → render ph i ps ≢ ""
unfolding has_text render
render-ne_empty ph i [] h e = cc
render-ne_empty ph i (text s ∷ ps) h e = ground (
  arith,
  eq_iff s "",
  left_empty s (render ph i ps) e,
  right_empty s (render ph i ps) e,
  render-ne_empty ph i ps,
)
render-ne_empty ph i (bind v ∷ ps) h e =
    render-ne_empty ph (i + 1) ps h (right_empty (ph i) (render ph (i + 1) ps) e)
render-ne_empty ph i (embed s vs ∷ ps) h e =
    render-ne_empty ph (i + length vs) ps h (right_empty s (render ph (i + length vs) ps) e)

-- There is nothing, or there is text.
abbrev pub IsTold : {V : Type 0} → List (Piece V) → Type 0
IsTold ps = (ps ≡ []) ⊎ (has_text ps ≡ true)

module _ (dyn : Dynamic) (ph : ℕ → String) (quoter : String → String) (provider : String) where
  open dyn use {Value, as_slice, as_subquery, of_string, sprint_s, sprint_v}

  pub record Renders (b : Built Value) (i : ℕ) (ps : List (Piece Value)) : Type 0 where
    pub sql : b.sql ≡ render ph i ps
    pub args : b.args ≡ bound ps
    pub next : b.next ≡ i + length (bound ps)

  -- The list of an `IN`.
  pub render-binds :
      (i : ℕ) (v : Value) (vs : List Value)
      → render ph i (binds dyn quoter provider (v ∷ vs))
        ≡ join ", " (placeholders dyn ph quoter provider i (v ∷ vs))
  unfolding render binds join placeholders
  render-binds i v [] = str_append-nil (ph i)
  render-binds i v (w ∷ vs) = ap (λ (t : String). ph i <> (", " <> t)) (render-binds (i + 1) w vs)

  pub bound-binds : (vs : List Value) → bound (binds dyn quoter provider vs) ≡ vs
  unfolding bound binds
  bound-binds [] = refl
  bound-binds (v ∷ []) = refl
  bound-binds (v ∷ w ∷ vs) = ap (◌∷◌ v) (bound-binds (w ∷ vs))

  in-Renders :
      (keyword : String) (c : Condition Value) (i : ℕ)
      → Renders
          (build_in dyn ph quoter provider keyword c i)
          i
          (in_pieces dyn quoter provider keyword c)
  unfolding build_in in_pieces render bound
  in-Renders keyword c i = elim (Bool-cases c.is_subquery) [
    | inl t ↦ elim (Option-cases (as_subquery c.value)) [
      | inl e ↦ ground arith
      | inr (qa, e) ↦ ground (arith, str_append-nil ")", append-nil qa.1)
    ]
    | inr f ↦ elim (Option-cases (as_slice c.value)) [
      | inl e ↦ ground arith
      | inr (vs, e) ↦ in_slice f vs e
    ]
  ]
    where
      in_slice :
          c.is_subquery ≡ false
          → (vs : List Value) → as_slice c.value ≡ some vs
          → Renders
              (build_in dyn ph quoter provider keyword c i)
              i
              (in_pieces dyn quoter provider keyword c)
      in_slice f [] e = ground arith
      in_slice f (v ∷ vs) e = ground (
        arith,
        str_append-nil ")",
        append-nil (v ∷ vs),
        render-binds i v vs,
        bound-binds (v ∷ vs),
        render-append ph i (binds dyn quoter provider (v ∷ vs)) (text ")" ∷ []),
        bound-append (binds dyn quoter provider (v ∷ vs)) (text ")" ∷ []),
      )

  exists-Renders :
      (keyword : String) (c : Condition Value) (i : ℕ)
      → Renders
          (build_exists dyn ph quoter provider keyword c i)
          i
          (exists_pieces dyn quoter provider keyword c)
  unfolding build_exists exists_pieces render bound
  exists-Renders keyword c i = elim (Option-cases (as_subquery c.value)) [
    | inl e ↦ ground arith
    | inr (qa, e) ↦ ground (arith, str_append-nil ")", append-nil qa.1)
  ]

  json-Renders :
      (c : Condition Value) (i : ℕ)
      → Renders
          (build_json_condition dyn ph quoter provider c i)
          i
          (json_pieces dyn quoter provider c)
  unfolding build_json_condition json_pieces render bound
  json-Renders c i =
      let path = if str_eq c.json_path "" then "$" else c.json_path in
      ground (
        arith,
        str_append-nil ")",
        str_append-nil "::jsonb",
        str_append-nil ") IS NOT NULL",
        str_append-nil (ph i),
        str_append-nil (ph (i + 1)),
        str_append_assoc "'" (path <> "'") (" = " <> ph i),
        str_append_assoc path "'" (" = " <> ph i),
      )

  operator-Renders :
      (c : Condition Value) (i : ℕ)
      → Renders
          (build_operator dyn ph quoter provider c i)
          i
          (operator_pieces dyn quoter provider c)
  unfolding build_operator operator_pieces render bound
  operator-Renders c i = ground (
    arith,
    str_append-nil (ph i),
    str_append-nil " IS NULL",
    str_append-nil " IS NOT NULL",
    in-Renders " IN (" c i,
    in-Renders " NOT IN (" c i,
    exists-Renders "EXISTS (" c i,
    exists-Renders "NOT EXISTS (" c i,
  )

  pub condition-Renders :
      (c : Condition Value) (i : ℕ)
      → Renders
          (build_condition dyn ph quoter provider c i)
          i
          (condition_pieces dyn quoter provider c)
  unfolding build_condition condition_pieces
  condition-Renders c i = ground (arith, json-Renders c i, operator-Renders c i)

  in-IsTold :
      (keyword : String) (c : Condition Value)
      → keyword ≢ ""
      → IsTold (in_pieces dyn quoter provider keyword c)
  unfolding in_pieces has_text
  in-IsTold keyword c h = ground (arith, eq_iff keyword "")

  exists-IsTold :
      (keyword : String) (c : Condition Value)
      → keyword ≢ ""
      → IsTold (exists_pieces dyn quoter provider keyword c)
  unfolding exists_pieces has_text
  exists-IsTold keyword c h = ground (arith, eq_iff keyword "")

  json-IsTold : (c : Condition Value) → IsTold (json_pieces dyn quoter provider c)
  unfolding json_pieces has_text
  json-IsTold c = ground arith

  operator-IsTold : (c : Condition Value) → IsTold (operator_pieces dyn quoter provider c)
  unfolding operator_pieces has_text
  operator-IsTold c = ground (
    arith,
    in-IsTold " IN (" c (λ e. ground (arith, eq_iff " IN (" "")),
    in-IsTold " NOT IN (" c (λ e. ground (arith, eq_iff " NOT IN (" "")),
    exists-IsTold "EXISTS (" c (λ e. ground (arith, eq_iff "EXISTS (" "")),
    exists-IsTold "NOT EXISTS (" c (λ e. ground (arith, eq_iff "NOT EXISTS (" "")),
  )

  pub condition-IsTold : (c : Condition Value) → IsTold (condition_pieces dyn quoter provider c)
  unfolding condition_pieces
  condition-IsTold c = ground (arith, json-IsTold c, operator-IsTold c)
