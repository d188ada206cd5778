-- ===== src/Query/Where/Clause.antt =====
-- Whole WHERE clauses (`buildWhereRecursive`, query/sqlgen/buildwhere.go) against their
-- specification: the accumulated parts, the join with AND or OR, NOT, and nesting.
use prisma_go.Base.{
  str_append-nil, ℕ, ◌+◌, ◌≡◌, refl, sym, ap, ◌∙◌, if◌then◌else◌, Bool, true, false, ◌||◌, String,
  ◌<>◌, str_eq, eq_iff, List, [], ◌∷◌, ◌++◌, append-nil, append_assoc, length, arith, ◌↔◌, inl, inr,
  Bool-cases, for_each,
}
use prisma_go.Query.Condition.{
  Dynamic, Condition, WhereClause, where_clause, Groups, no_groups, nil_group, group, Built,
  build_condition, is_empty,
}
use prisma_go.Query.Where.{Parts, add_condition, add_group, finish, build_where, build_groups}
use prisma_go.Query.Where.Pieces.{
  Piece, text, bound, render, join_pieces, present, condition_pieces, conditions_pieces, grouped,
  closed, where_pieces, groups_pieces,
}
use prisma_go.Query.Where.Binding.{
  bound-append, render-append, has_text, has_text-append, render-ne_empty, IsTold, Renders,
  condition-Renders, condition-IsTold,
}
use prisma_go.Query.Where.Writing.{
  render_each, bound_each, bound-join_pieces, render-join_pieces, Writes, nothing-Writes, write,
}

module _ {V : Type 0} where
  -- Joined parts have text if the first has.
  pub has_text-join_pieces :
      (sep : String) (p : List (Piece V)) (ps : List (List (Piece V)))
      → has_text p ≡ true
      → has_text (join_pieces sep (p ∷ ps)) ≡ true
  unfolding join_pieces
  has_text-join_pieces sep p [] h = h
  has_text-join_pieces sep p (q ∷ ps) h =
      ground (arith, has_text-append p (text sep ∷ join_pieces sep (q ∷ ps)))

  abbrev AllText : List (List (Piece V)) → Type 0
  AllText [] = Unit
  AllText (p ∷ ps) = (has_text p ≡ true) × AllText ps

  AllText-append : (ps qs : List (List (Piece V))) → AllText ps → AllText qs → AllText (ps ++ qs)
  AllText-append [] qs h k = k
  AllText-append (p ∷ ps) qs h k = (h.0, AllText-append ps qs h.1 k)

module _ (dyn : Dynamic) (ph : ℕ → String) (quoter : String → String) (provider : String) where
  open dyn use {Value}

  -- The loops' state is the parts so far, each of them with text.
  record Collects (p : Parts Value) (i : ℕ) (ps : List (List (Piece Value))) : Type 0 where
    writes : Writes ph [] p i ps
    texts : AllText ps

  -- One more part, from what a builder returns for it.
  collect :
      (p : Parts Value) (i : ℕ) (ps : List (List (Piece Value))) (q : List (Piece Value))
      (b : Built Value)
      → Collects p i ps
      → Renders dyn ph quoter provider b p.next q
      → has_text q ≡ true
      → Collects
          (record { parts = p.parts ++ (b.sql ∷ []); args = p.args ++ b.args; next = b.next })
          i
          (ps ++ (q ∷ []))
  collect p i ps q b h r t = record {
    writes = write ph p i ps q b h.writes r.sql r.args r.next;
    texts = AllText-append ps (q ∷ []) h.texts (t, tt);
  }

  -- A part that is not there.
  skip :
      (p : Parts Value) (i : ℕ) (ps : List (List (Piece Value))) (b : Built Value)
      → Collects p i ps
      → b.next ≡ p.next
      → Collects (record p { next = b.next }) i ps
  skip p i ps b h e = record {
    writes = record { parts = h.writes.parts; args = h.writes.args; next = e ∙ h.writes.next };
    texts = h.texts;
  }

  condition-Collects :
      (c : Condition Value) (p : Parts Value) (i : ℕ) (ps : List (List (Piece Value)))
      → Collects p i ps
      → Collects
          (add_condition dyn ph quoter provider c p)
          i
          (ps ++ present (condition_pieces dyn quoter provider c))
  unfolding add_condition present
  condition-Collects c p i ps h = elim (condition-IsTold dyn ph quoter provider c) [
    | inl e ↦
        let r' : Renders dyn ph quoter provider b p.next [] = rw e at r in
        let empty : str_eq b.sql "" ≡ true = (eq_iff b.sql "").1 (unfold render in r'.sql) in
        rw (empty, e, append-nil) (skip p i ps b h (unfold bound in omega (arith, r'.next)))
    | inr t ↦
        let full : str_eq b.sql "" ≡ false =
          ground (arith, eq_iff b.sql "", r.sql, render-ne_empty ph p.next pieces t) in
        rw full (some_pieces pieces t (collect p i ps pieces b h r t))
  ]
    where
      pieces : List (Piece Value)
      pieces = condition_pieces dyn quoter provider c

      b : Built Value
      b = build_condition dyn ph quoter provider c p.next

      r : Renders dyn ph quoter provider b p.next pieces
      r = condition-Renders dyn ph quoter provider c p.next

      some_pieces :
          (q : List (Piece Value))
          → has_text q ≡ true
          → Collects
              (record { parts = p.parts ++ (b.sql ∷ []); args = p.args ++ b.args; next = b.next })
              i
              (ps ++ (q ∷ []))
          → Collects
              (record { parts = p.parts ++ (b.sql ∷ []); args = p.args ++ b.args; next = b.next })
              i
              (ps ++ present q)
      some_pieces [] t k = absurd (unfold has_text in (let f : false ≡ true = t in cc))
      some_pieces (x ∷ q) t k = k

  conditions-Collects :
      (cs : List (Condition Value)) (p : Parts Value) (i : ℕ) (ps : List (List (Piece Value)))
      → Collects p i ps
      → Collects
          (for_each (add_condition dyn ph quoter provider) cs p)
          i
          (ps ++ conditions_pieces dyn quoter provider cs)
  unfolding conditions_pieces
  conditions-Collects [] p i ps h = rw append-nil h
  conditions-Collects (c ∷ cs) p i ps h =
      rw
        (← append_assoc ps (present (condition_pieces dyn quoter provider c))
          (conditions_pieces dyn quoter provider cs))
        (conditions-Collects cs (add_condition dyn ph quoter provider c p) i
          (ps ++ present (condition_pieces dyn quoter provider c)) (condition-Collects c p i ps h))

  group-Collects :
      (b : Built Value) (q : List (Piece Value)) (p : Parts Value) (i : ℕ)
      (ps : List (List (Piece Value)))
      → Collects p i ps
      → Renders dyn ph quoter provider b p.next q
      → IsTold q
      → Collects (add_group dyn ph quoter provider b p) i (ps ++ grouped dyn quoter provider q)
  unfolding add_group grouped
  group-Collects b [] p i ps h r t =
      let empty : str_eq b.sql "" ≡ true = (eq_iff b.sql "").1 (unfold render in r.sql) in
      rw (empty, append-nil) (skip p i ps b h (unfold bound in omega (arith, r.next)))
  group-Collects b (x ∷ q) p i ps h r (inl e) = absurd (ground arith)
  group-Collects b (x ∷ q) p i ps h r (inr t) =
      let full : str_eq b.sql "" ≡ false =
        ground (arith, eq_iff b.sql "", r.sql, render-ne_empty ph p.next (x ∷ q) t) in
      rw full (
        collect p i ps (text "(" ∷ ((x ∷ q) ++ (text ")" ∷ [])))
          (record { sql = "(" <> (b.sql <> ")"); args = b.args; next = b.next }) h wrapped
          (unfold has_text in refl))
    where
      wrapped :
          Renders dyn ph quoter provider
            (record { sql = "(" <> (b.sql <> ")"); args = b.args; next = b.next })
            p.next
            (text "(" ∷ ((x ∷ q) ++ (text ")" ∷ [])))
      wrapped = record {
        sql =
            unfold render in
            ground
              (arith, r.sql, render-append ph p.next (x ∷ q) (text ")" ∷ []), str_append-nil ")");
        args =
            unfold bound in
            ground
              (arith, r.args, bound-append (x ∷ q) (text ")" ∷ []), append-nil (bound (x ∷ q)));
        next =
            unfold bound in
            ground
              (arith, r.next, bound-append (x ∷ q) (text ")" ∷ []), append-nil (bound (x ∷ q)));
      }

  finish-Renders :
      (operator : String) (is_not : Bool) (p : Parts Value) (i : ℕ) (ps : List (List (Piece Value)))
      → Collects p i ps
      → Renders dyn ph quoter provider
          (finish dyn ph quoter provider operator is_not p)
          i
          (closed dyn quoter provider operator is_not ps)
        × IsTold (closed dyn quoter provider operator is_not ps)
  unfolding finish closed render bound render_each bound_each has_text
  finish-Renders operator is_not p i [] h =
      (ground (arith, h.writes.parts, h.writes.next), inl refl)
  finish-Renders operator is_not p i (q ∷ ps) h =
      let op = if str_eq operator "OR" || str_eq operator "or" then "OR" else "AND" in
      let sep = " " <> (op <> " ") in
      let all = join_pieces sep (q ∷ ps) in
      (
        ground (
          arith,
          h.writes.parts,
          h.writes.args,
          h.writes.next,
          render-join_pieces ph sep i (q ∷ ps),
          bound-join_pieces sep (q ∷ ps),
          render-append ph i all (text ")" ∷ []),
          bound-append all (text ")" ∷ []),
          append-nil (bound all),
          str_append-nil ")",
        ),
        inr (ground (arith, has_text-join_pieces sep q ps h.texts.0)),
      )

  nothing-Collects : (i : ℕ) → Collects (record { parts = []; args = []; next = i }) i []
  nothing-Collects i = record { writes = nothing-Writes ph i; texts = tt }

  empty_clause :
      (conditions : List (Condition Value)) (groups : Groups Value) (operator : String)
      (is_not : Bool) (i : ℕ)
      → is_empty conditions groups ≡ true
      → (Renders dyn ph quoter provider
          (record { sql = ""; args = []; next = i })
          i
          (where_pieces dyn quoter provider (where_clause conditions groups operator is_not)))
        × IsTold (where_pieces dyn quoter provider (where_clause conditions groups operator is_not))
  unfolding is_empty where_pieces conditions_pieces closed render bound
  empty_clause [] no_groups operator is_not i e =
      (record { sql = refl; args = refl; next = omega arith }, inl refl)
  empty_clause [] (nil_group gs) operator is_not i e = absurd (ground arith)
  empty_clause [] (group w gs) operator is_not i e = absurd (ground arith)
  empty_clause (c ∷ cs) gs operator is_not i e = absurd (ground arith)

  -- Clauses and groups, one in the other.
  mutual
    unfolding build_where where_pieces is_empty render bound

    pub clause-Renders :
        (w : WhereClause Value) (i : ℕ)
        → Renders dyn ph quoter provider
            (build_where dyn ph quoter provider w i)
            i
            (where_pieces dyn quoter provider w)
          × IsTold (where_pieces dyn quoter provider w)
    clause-Renders (where_clause conditions groups operator is_not) i =
        elim (Bool-cases (is_empty conditions groups)) [
          | inl e ↦ rw e (empty_clause conditions groups operator is_not i e)
          | inr e ↦ rw e (
              finish-Renders operator is_not _ i _ (
                groups-Collects groups _ i _
                  (conditions-Collects conditions _ i [] (nothing-Collects i))))
        ]

    groups-Collects :
        (gs : Groups Value) (p : Parts Value) (i : ℕ) (ps : List (List (Piece Value)))
        → Collects p i ps
        → Collects
            (build_groups dyn ph quoter provider gs p)
            i
            (ps ++ groups_pieces dyn quoter provider gs)
    groups-Collects no_groups p i ps h = rw append-nil h
    groups-Collects (nil_group gs) p i ps h = groups-Collects gs p i ps h
    groups-Collects (group w gs) p i ps h =
        let r = clause-Renders w p.next in
        rw
          (← append_assoc ps (grouped dyn quoter provider (where_pieces dyn quoter provider w))
            (groups_pieces dyn quoter provider gs))
          (groups-Collects gs _ i _
            (group-Collects (build_where dyn ph quoter provider w p.next) _ p i ps h r.0 r.1))

module _ (dyn : Dynamic) (ph : ℕ → String) (quoter : String → String) (provider : String) where
  open dyn use {Value}

  -- The SQL of a WHERE clause is the text its specification gives it: its own places are numbered
  -- one after the other from the counter on, and the text of a subquery is copied as it is, its
  -- places not numbered anew, while the numbers go on behind it by the number of its arguments. The
  -- arguments are those of the places and of the subqueries, in the order of the text; and the
  -- counter moves on by their number. This holds for each provider, placeholder style and quoting,
  -- for AND, OR and NOT, and for groups to any depth.
  pub build_where-bound :
      (w : WhereClause Value) (i : ℕ)
      → let b = build_where dyn ph quoter provider w i in
        let ps = where_pieces dyn quoter provider w in
        (b.sql ≡ render ph i ps) × (b.args ≡ bound ps) × (b.next ≡ i + length b.args)
  build_where-bound w i =
      let r = (clause-Renders dyn ph quoter provider w i).0 in
      (r.sql, r.args, r.next ∙ ap (λ (vs : List Value). i + length vs) (sym r.args))

  -- The SQL of a WHERE clause is empty exactly when none of its conditions, at any depth, writes
  -- anything; then it has no arguments either and the counter stays.
  pub build_where-empty_iff :
      (w : WhereClause Value) (i : ℕ)
      → let b = build_where dyn ph quoter provider w i in
        ((b.sql ≡ "") ↔ (where_pieces dyn quoter provider w ≡ []))
        × (b.sql ≡ "" → (b.args ≡ []) × (b.next ≡ i))
  unfolding render bound
  build_where-empty_iff w i = (
    ((λ e. silent e), (λ e. r.sql ∙ ap (render ph i) e)),
    λ e. (
      r.args ∙ ap bound (silent e),
      r.next ∙ ap (λ (ps : List (Piece Value)). i + length (bound ps)) (silent e) ∙ omega arith,
    ),
  )
    where
      r :
          Renders dyn ph quoter provider
            (build_where dyn ph quoter provider w i)
            i
            (where_pieces dyn quoter provider w)
      r = (clause-Renders dyn ph quoter provider w i).0

      silent :
          (build_where dyn ph quoter provider w i).sql ≡ ""
          → where_pieces dyn quoter provider w ≡ []
      silent e = elim (clause-Renders dyn ph quoter provider w i).1 [
        | inl n ↦ n
        | inr t ↦
            absurd (render-ne_empty ph i (where_pieces dyn quoter provider w) t (sym r.sql ∙ e))
      ]
