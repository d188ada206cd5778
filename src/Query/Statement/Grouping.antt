-- ===== src/Query/Statement/Grouping.antt =====
-- HAVING (`buildHaving`, query/sqlgen/aggregations.go) as a part with its places.
use prisma_go.Base.{
  ℕ, ◌+◌, ◌≡◌, inl, inr, refl, sym, ap, if◌then◌else◌, ◌||◌, String, ◌<>◌, str_eq, eq_iff, List, [],
  ◌∷◌, ◌++◌, append-nil, append_assoc, str_append-nil, Option, none, some, length, for_each, arith,
  Bool-cases,
}
use prisma_go.Query.Condition.{Dynamic, Condition, Built, join, is_comparison}
use prisma_go.Query.Where.{Parts}
use prisma_go.Query.Where.Pieces.{Piece, text, bind, bound, render, join_pieces}
use prisma_go.Query.Where.Binding.{IsTold, has_text}
use prisma_go.Query.Where.Writing.{
  render_each, bound_each, bound-join_pieces, render-join_pieces, Writes, nothing-Writes, write,
}
use prisma_go.Query.Where.Clause.{has_text-join_pieces}
use prisma_go.Query.Statement.{Having, is_nil}
use prisma_go.Query.Statement.Arguments.{
  add_having_condition, build_having, add_having, add_having_always,
}
use prisma_go.Query.Grammar.{one_of, comparisons}
use prisma_go.Query.Statement.Appending.{headed, Appends, none-Appends, headed_write}

comparison_lem : (op : String) → is_comparison op ≡ one_of op comparisons
unfolding is_comparison
comparison_lem op = ground arith

module _ (dyn : Dynamic) (ph : ℕ → String) (quote : String → String) (provider : String) where
  open dyn use {Value}

  -- The conditions of HAVING that are comparisons, and HAVING itself.
  unfoldable pub compared : List (Condition Value) → List (List (Piece Value))
  compared [] = []
  compared (c ∷ cs) =
      let this : List (Piece Value) =
        text c.field ∷ text " " ∷ text c.operator ∷ text " " ∷ bind c.value ∷ [] in
      if one_of c.operator comparisons then this ∷ compared cs else compared cs

  unfoldable pub having_parts : Option (Having Value) → List (List (Piece Value))
  unfolding compared headed join_pieces
  having_parts none = []
  having_parts (some having) =
      let op = if str_eq having.operator "OR" || str_eq having.operator "or" then "OR" else "AND" in
      headed "HAVING " (join_pieces (" " <> (op <> " ")) (compared having.conditions))

  condition-Writes :
      (c : Condition Value) {before : List Value} (p : Parts Value) (i : ℕ)
      (ps : List (List (Piece Value)))
      → Writes ph before p i ps
      → Writes ph before
          (record {
            parts = p.parts ++ ((c.field <> (" " <> (c.operator <> (" " <> ph p.next)))) ∷ []);
            args = p.args ++ (c.value ∷ []);
            next = p.next + 1;
          })
          i
          (ps ++ ((text c.field ∷ text " " ∷ text c.operator ∷ text " " ∷ bind c.value ∷ []) ∷ []))
  unfolding render bound
  condition-Writes c p i ps h =
      write ph p i ps (text c.field ∷ text " " ∷ text c.operator ∷ text " " ∷ bind c.value ∷ [])
        (record {
          sql = c.field <> (" " <> (c.operator <> (" " <> ph p.next)));
          args = c.value ∷ [];
          next = p.next + 1;
        })
        h
        (ap (λ (t : String). c.field <> (" " <> (c.operator <> (" " <> t))))
          (sym (str_append-nil (ph p.next))))
        refl refl

  conditions-Writes :
      (cs : List (Condition Value)) {before : List Value} (p : Parts Value) (i : ℕ)
      (ps : List (List (Piece Value)))
      → Writes ph before p i ps
      → Writes ph before
          (for_each (add_having_condition dyn ph quote provider) cs p)
          i
          (ps ++ compared cs)
  unfolding compared add_having_condition
  conditions-Writes [] p i ps h = rw append-nil h
  conditions-Writes (c ∷ cs) p i ps h = elim (Bool-cases (one_of c.operator comparisons)) [
    | inl e ↦
        rw (comparison_lem c.operator, e, ← append_assoc ps (this ∷ []) (compared cs))
          (conditions-Writes cs _ i (ps ++ (this ∷ [])) (condition-Writes c p i ps h))
    | inr e ↦ rw (comparison_lem c.operator, e) (conditions-Writes cs p i ps h)
  ]
    where
      this : List (Piece Value)
      this = text c.field ∷ text " " ∷ text c.operator ∷ text " " ∷ bind c.value ∷ []

  compared-IsTold :
      (sep : String) (cs : List (Condition Value)) → IsTold (join_pieces sep (compared cs))
  unfolding compared join_pieces
  compared-IsTold sep [] = inl refl
  compared-IsTold sep (c ∷ cs) = elim (Bool-cases (one_of c.operator comparisons)) [
    | inl e ↦ rw e (
        inr (
          has_text-join_pieces sep
            (text c.field ∷ text " " ∷ text c.operator ∷ text " " ∷ bind c.value ∷ []) (compared cs)
            (unfold has_text in ground (arith, eq_iff " " ""))))
    | inr e ↦ rw e (compared-IsTold sep cs)
  ]

  -- The end of `buildHaving`, on what the loop has made.
  closing :
      (sep : String) (p : Parts Value) (i : ℕ) (ps : List (List (Piece Value)))
      → Writes ph [] p i ps
      → let b : Built Value =
          if is_nil p.parts
          then record { sql = ""; args = []; next = p.next }
          else record { sql = join sep p.parts; args = p.args; next = p.next } in
        (b.sql ≡ render ph i (join_pieces sep ps))
        × (b.args ≡ bound (join_pieces sep ps))
        × (b.next ≡ i + length (bound (join_pieces sep ps)))
  unfolding is_nil render_each bound_each join
  closing sep p i [] h = ground (
    arith,
    h.parts,
    h.args,
    h.next,
    render-join_pieces {V = Value} ph sep i [],
    bound-join_pieces {V = Value} sep [],
  )
  closing sep p i (q ∷ ps) h = ground (
    arith,
    h.parts,
    h.args,
    h.next,
    render-join_pieces ph sep i (q ∷ ps),
    bound-join_pieces sep (q ∷ ps),
  )

  having_step :
      (conditions : List (Condition Value)) (operator : String) {before : List Value}
      (p : Parts Value) (i : ℕ) (ps : List (List (Piece Value)))
      → Writes ph before p i ps
      → let having : Option (Having Value) =
          some (record { conditions = conditions; operator = operator }) in
        Writes ph before (add_having dyn ph quote provider having p) i (ps ++ having_parts having)
  unfolding add_having having_parts build_having is_nil
  having_step [] operator p i ps h = unfold compared join_pieces headed in rw append-nil h
  having_step (c ∷ cs) operator p i ps h =
      let op = if str_eq operator "OR" || str_eq operator "or" then "OR" else "AND" in
      let sep = " " <> (op <> " ") in
      let w = conditions-Writes (c ∷ cs) _ p.next [] (nothing-Writes ph p.next) in
      let (sql, args, next) = closing sep _ p.next (compared (c ∷ cs)) w in
      headed_write ph "HAVING " _ (join_pieces sep (compared (c ∷ cs))) p i ps h sql args next
        (compared-IsTold sep (c ∷ cs))

  pub having-Appends :
      (having : Option (Having Value))
      → Appends ph (add_having dyn ph quote provider having) (having_parts having)
  unfolding add_having having_parts
  having-Appends none = none-Appends ph
  having-Appends (some having) = record { holds = having_step having.conditions having.operator }

  unfoldable pub having_always_parts : Option (Having Value) → List (List (Piece Value))
  unfolding compared join_pieces is_nil
  having_always_parts none = []
  having_always_parts (some having) =
      let op = if str_eq having.operator "OR" || str_eq having.operator "or" then "OR" else "AND" in
      if is_nil having.conditions
      then []
      else (text "HAVING " ∷ join_pieces (" " <> (op <> " ")) (compared having.conditions)) ∷ []

  having_always_step :
      (conditions : List (Condition Value)) (operator : String) {before : List Value}
      (p : Parts Value) (i : ℕ) (ps : List (List (Piece Value)))
      → Writes ph before p i ps
      → let having : Option (Having Value) =
          some (record { conditions = conditions; operator = operator }) in
        Writes ph before
          (add_having_always dyn ph quote provider having p)
          i
          (ps ++ having_always_parts having)
  unfolding add_having_always having_always_parts build_having is_nil render bound
  having_always_step [] operator p i ps h = rw append-nil h
  having_always_step (c ∷ cs) operator p i ps h =
      let op = if str_eq operator "OR" || str_eq operator "or" then "OR" else "AND" in
      let sep = " " <> (op <> " ") in
      let w = conditions-Writes (c ∷ cs) _ p.next [] (nothing-Writes ph p.next) in
      let (sql, args, next) = closing sep _ p.next (compared (c ∷ cs)) w in
      write ph p i ps (text "HAVING " ∷ join_pieces sep (compared (c ∷ cs))) _ h
        (ap (◌<>◌ "HAVING ") sql) args next

  pub having_always-Appends :
      (having : Option (Having Value))
      → Appends ph (add_having_always dyn ph quote provider having) (having_always_parts having)
  unfolding add_having_always having_always_parts
  having_always-Appends none = none-Appends ph
  having_always-Appends (some having) = record {
    holds = having_always_step having.conditions having.operator;
  }
