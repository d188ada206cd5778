-- ===== src/Query/Statement/Clauses.antt =====
-- The clauses of a statement that bind arguments (query/sqlgen) as parts with their places: each step
-- appends the parts that its specification names, with the next numbers.
use prisma_go.Base.{
  ℕ, ◌+◌, ◌≡◌, inl, inr, refl, sym, ap, ◌∙◌, Bool, true, String, ◌<>◌, List, [], ◌∷◌, ◌++◌,
  append-nil, str_append-nil, str_append_assoc, Option, none, some, length, ℤ, pos, negsuc, zero,
  suc, false, is_positive, arith, Bool-cases,
}
use prisma_go.Query.Condition.{
  Dynamic, Condition, WhereClause, Groups, where_clause, no_groups, nil_group, group, is_empty,
  join, placeholders,
}
use prisma_go.Query.Where.{Parts, build_where}
use prisma_go.Query.Where.Pieces.{Piece, text, bind, bound, render, binds, where_pieces}
use prisma_go.Query.Where.Binding.{render-append, bound-append, render-binds, bound-binds}
use prisma_go.Query.Where.Writing.{Writes, write}
use prisma_go.Query.Where.Clause.{clause-Renders, build_where-empty_iff}
use prisma_go.Query.Statement.{is_nil}
use prisma_go.Query.Statement.Arguments.{
  add_where, add_delete_where, add_number, add_positive, add_values, set_parts, set_args, add_set,
}
use prisma_go.Query.Statement.Appending.{
  Appends, headed, headed_write, none-Appends, text-Appends, texts,
}

module _ (dyn : Dynamic) (ph : ℕ → String) (quote : String → String) (provider : String) where
  open dyn use {Value, of_int}

  -- The parts of WHERE, of LIMIT and OFFSET, of VALUES and of SET.
  unfoldable pub where_parts : Option (WhereClause Value) → List (List (Piece Value))
  unfolding headed
  where_parts none = []
  where_parts (some w) = headed "WHERE " (where_pieces dyn quote provider w)

  unfoldable pub number_parts : String → Option ℤ → List (List (Piece Value))
  number_parts keyword none = []
  number_parts keyword (some (pos zero)) = []
  number_parts keyword (some (pos (suc n))) = (text keyword ∷ bind (of_int (pos (suc n))) ∷ []) ∷ []
  number_parts keyword (some (negsuc n)) = []

  unfoldable pub values_parts : List Value → List (List (Piece Value))
  unfolding binds
  values_parts [] = []
  values_parts (v ∷ vs) =
      (text "VALUES (" ∷ (binds dyn quote provider (v ∷ vs) ++ (text ")" ∷ []))) ∷ []

  unfoldable pub assignments : List (String × Value) → List (Piece Value)
  assignments [] = []
  assignments ((column, v) ∷ []) = text (quote column) ∷ text " = " ∷ bind v ∷ []
  assignments ((column, v) ∷ a ∷ set) =
      text (quote column) ∷ text " = " ∷ bind v ∷ text ", " ∷ assignments (a ∷ set)

  empty_sql :
      (conditions : List (Condition Value)) (nested : Groups Value) (operator : String)
      (is_not : Bool) (i : ℕ)
      → is_empty conditions nested ≡ true
      → (build_where dyn ph quote provider (where_clause conditions nested operator is_not) i).sql
        ≡ ""
  unfolding build_where
  empty_sql conditions nested operator is_not i e = rw e refl

  where_step :
      (conditions : List (Condition Value)) (nested : Groups Value) (operator : String)
      (is_not : Bool) {before : List Value} (p : Parts Value) (i : ℕ)
      (ps : List (List (Piece Value)))
      → Writes ph before p i ps
      → Writes ph before
          (add_where dyn ph quote provider
            (some (where_clause conditions nested operator is_not))
            p)
          i
          (ps
            ++ headed "WHERE "
                (where_pieces dyn quote provider (where_clause conditions nested operator is_not)))
  unfolding add_where
  where_step conditions nested operator is_not p i ps h =
      elim (Bool-cases (is_empty conditions nested)) [
        | inl n ↦
            let silent =
              (build_where-empty_iff dyn ph quote provider w p.next).0.0
                (empty_sql conditions nested operator is_not p.next n) in
            rw (n, silent) (unfold headed in rw append-nil h)
        | inr n ↦
            let (r, told) = clause-Renders dyn ph quote provider w p.next in
            rw n (
              headed_write ph "WHERE " (build_where dyn ph quote provider w p.next)
                (where_pieces dyn quote provider w) p i ps h r.sql r.args r.next told)
      ]
    where
      w : WhereClause Value
      w = where_clause conditions nested operator is_not

  pub where-Appends :
      (w : Option (WhereClause Value))
      → Appends ph (add_where dyn ph quote provider w) (where_parts w)
  unfolding where_parts add_where
  where-Appends none = none-Appends ph
  where-Appends (some (where_clause conditions nested operator is_not)) = record {
    holds = where_step conditions nested operator is_not;
  }

  pub number-Appends :
      (keyword : String) (n : ℤ)
      → Appends ph
          (add_number dyn ph quote provider keyword n)
          ((text keyword ∷ bind (of_int n) ∷ []) ∷ [])
  unfolding add_number render bound
  number-Appends keyword n = record {
    holds = λ p i ps h.
        write ph p i ps (text keyword ∷ bind (of_int n) ∷ [])
          (record { sql = keyword <> ph p.next; args = of_int n ∷ []; next = p.next + 1 }) h
          (ap (◌<>◌ keyword) (sym (str_append-nil (ph p.next)))) refl refl;
  }

  pub positive-Appends :
      (keyword : String) (n : Option ℤ)
      → Appends ph (add_positive dyn ph quote provider keyword n) (number_parts keyword n)
  unfolding add_positive number_parts is_positive
  positive-Appends keyword none = none-Appends ph
  positive-Appends keyword (some (pos zero)) = none-Appends ph
  positive-Appends keyword (some (pos (suc n))) = number-Appends keyword (pos (suc n))
  positive-Appends keyword (some (negsuc n)) = none-Appends ph

  values_bound :
      (v : Value) (vs : List Value)
      → v ∷ vs ≡ bound (binds dyn quote provider (v ∷ vs) ++ (text ")" ∷ []))
  unfolding bound
  values_bound v vs = sym (
      bound-append (binds dyn quote provider (v ∷ vs)) (text ")" ∷ [])
      ∙ append-nil (bound (binds dyn quote provider (v ∷ vs)))
      ∙ bound-binds dyn ph quote provider (v ∷ vs))

  pub values-Appends :
      (vs : List Value) → Appends ph (add_values dyn ph quote provider vs) (values_parts vs)
  unfolding add_values values_parts is_nil render bound
  values-Appends [] = none-Appends ph
  values-Appends (v ∷ vs) = record {
    holds = λ p i ps h.
        let list = binds dyn quote provider (v ∷ vs) in
        write ph p i ps (text "VALUES (" ∷ (list ++ (text ")" ∷ [])))
          (record {
            sql =
                "VALUES ("
                <> (join ", " (placeholders dyn ph quote provider p.next (v ∷ vs)) <> ")");
            args = v ∷ vs;
            next = p.next + length (v ∷ vs);
          })
          h
          (ap (◌<>◌ "VALUES (") (
            ap (λ (t : String). t <> ")") (sym (render-binds dyn ph quote provider p.next v vs))
            ∙ ap (◌<>◌ (render ph p.next list)) (sym (str_append-nil ")"))
            ∙ sym (render-append ph p.next list (text ")" ∷ []))))
          (values_bound v vs) (ap (λ (us : List Value). p.next + length us) (values_bound v vs));
  }

  set_rendered :
      (i : ℕ) (set : List (String × Value))
      → join ", " (set_parts dyn ph quote provider i set) ≡ render ph i (assignments set)
  unfolding set_parts render assignments join
  set_rendered i [] = refl
  set_rendered i ((column, v) ∷ []) =
      ap (λ (t : String). quote column <> (" = " <> t)) (sym (str_append-nil (ph i)))
  set_rendered i ((column, v) ∷ (d, u) ∷ set) =
      str_append_assoc (quote column) (" = " <> ph i) (", " <> _)
      ∙ ap (◌<>◌ (quote column)) (str_append_assoc " = " (ph i) (", " <> _))
      ∙ ap (λ (t : String). quote column <> (" = " <> (ph i <> (", " <> t))))
          (set_rendered (i + 1) ((d, u) ∷ set))

  set_bound :
      (set : List (String × Value))
      → (set_args dyn ph quote provider set ≡ bound (assignments set))
        × (length set ≡ length (bound (assignments set)))
  unfolding set_args assignments bound
  set_bound [] = (refl, refl)
  set_bound ((column, v) ∷ []) = (refl, refl)
  set_bound ((column, v) ∷ a ∷ set) =
      let h = set_bound (a ∷ set) in (ap (◌∷◌ v) h.0, omega (arith, h.1))

  unfoldable pub assigned_parts : List (String × Value) → List (List (Piece Value))
  unfolding assignments headed
  assigned_parts [] = []
  assigned_parts (a ∷ set) = (text "SET " ∷ assignments (a ∷ set)) ∷ []

  pub set-Appends :
      (set : List (String × Value))
      → Appends ph (add_set dyn ph quote provider set) (assigned_parts set)
  unfolding add_set assigned_parts is_nil
  set-Appends [] = none-Appends ph
  set-Appends (a ∷ set) = record {
    holds = λ p i ps h.
        write ph p i ps (text "SET " ∷ assignments (a ∷ set))
          (record {
            sql = "SET " <> join ", " (set_parts dyn ph quote provider p.next (a ∷ set));
            args = set_args dyn ph quote provider (a ∷ set);
            next = p.next + length (a ∷ set);
          })
          h (unfold render in ap (◌<>◌ "SET ") (set_rendered p.next (a ∷ set)))
          (unfold bound in (set_bound (a ∷ set)).0)
          (unfold bound in ap (◌+◌ p.next) (set_bound (a ∷ set)).1);
  }

  -- The condition of a DELETE: there is one, except for a clause that is not empty and says nothing.
  unfoldable pub delete_parts : Option (WhereClause Value) → List (List (Piece Value))
  unfolding where_parts texts
  delete_parts none = texts ("WHERE 1=0" ∷ [])
  delete_parts (some (where_clause [] no_groups operator is_not)) = texts ("WHERE 1=0" ∷ [])
  delete_parts (some (where_clause [] (nil_group gs) operator is_not)) =
      where_parts (some (where_clause [] (nil_group gs) operator is_not))
  delete_parts (some (where_clause [] (group w gs) operator is_not)) =
      where_parts (some (where_clause [] (group w gs) operator is_not))
  delete_parts (some (where_clause (c ∷ cs) gs operator is_not)) =
      where_parts (some (where_clause (c ∷ cs) gs operator is_not))

  pub delete_where-Appends :
      (w : Option (WhereClause Value))
      → Appends ph (add_delete_where dyn ph quote provider w) (delete_parts w)
  unfolding add_delete_where delete_parts texts is_empty
  delete_where-Appends none = text-Appends ph "WHERE 1=0"
  delete_where-Appends (some (where_clause [] no_groups operator is_not)) =
      text-Appends ph "WHERE 1=0"
  delete_where-Appends (some (where_clause [] (nil_group gs) operator is_not)) =
      where-Appends (some (where_clause [] (nil_group gs) operator is_not))
  delete_where-Appends (some (where_clause [] (group w gs) operator is_not)) =
      where-Appends (some (where_clause [] (group w gs) operator is_not))
  delete_where-Appends (some (where_clause (c ∷ cs) gs operator is_not)) =
      where-Appends (some (where_clause (c ∷ cs) gs operator is_not))

  -- A clause that has conditions or groups keeps them.
  pub delete_parts-kept :
      (conditions : List (Condition Value)) (nested : Groups Value) (operator : String)
      (is_not : Bool)
      → is_empty conditions nested ≡ false
      → delete_parts (some (where_clause conditions nested operator is_not))
        ≡ where_parts (some (where_clause conditions nested operator is_not))
  unfolding delete_parts is_empty
  delete_parts-kept [] no_groups operator is_not h = absurd (ground (arith, h))
  delete_parts-kept [] (nil_group gs) operator is_not h = refl
  delete_parts-kept [] (group w gs) operator is_not h = refl
  delete_parts-kept (c ∷ cs) gs operator is_not h = refl
