-- ===== src/Query/Statement/Appending.antt =====
-- Steps on the slices of a statement (query/sqlgen) that append parts: one after the other, one or
-- the other, and the statement that a chain of them makes.
use prisma_go.Base.{
  ℕ, ◌+◌, ◌≡◌, inl, inr, refl, sym, ap, ◌∙◌, if◌then◌else◌, true, false, String, ◌<>◌, str_eq,
  eq_iff, List, [], ◌∷◌, ◌++◌, append-nil, append_assoc, str_append-nil, length, arith,
}
use prisma_go.Query.Condition.{Built, join}
use prisma_go.Query.Where.{Parts}
use prisma_go.Query.Where.Pieces.{Piece, text, bound, render, join_pieces}
use prisma_go.Query.Where.Binding.{IsTold, render-ne_empty}
use prisma_go.Query.Where.Writing.{
  bound-join_pieces, render-join_pieces, Writes, nothing-Writes, write,
}
use prisma_go.Query.Statement.{start, add_text, query}

infixr 5 ◌▸◌
module _ {V : Type 0} where
  -- A keyword before what is there.
  unfoldable pub headed : String → List (Piece V) → List (List (Piece V))
  headed keyword [] = []
  headed keyword (p ∷ ps) = (text keyword ∷ p ∷ ps) ∷ []

  -- Parts of text alone, without arguments.
  unfoldable pub texts : List String → List (List (Piece V))
  texts [] = []
  texts (s ∷ rest) = (text s ∷ []) ∷ texts rest

  -- The step `f` appends the parts `qs`.
  pub record Appends (ph : ℕ → String) (f : Parts V → Parts V) (qs : List (List (Piece V)))
      : Type 0 where
    pub holds :
        {before : List V} (p : Parts V) (i : ℕ) (ps : List (List (Piece V)))
        → Writes ph before p i ps
        → Writes ph before (f p) i (ps ++ qs)

  -- One step after the other.
  pub ◌▸◌ :
      {ph : ℕ → String} {f g : Parts V → Parts V} {qs rs : List (List (Piece V))}
      → Appends ph f qs
      → Appends ph g rs
      → Appends ph (λ p. g (f p)) (qs ++ rs)
  ◌▸◌ {f = f} {qs = qs} {rs = rs} hf hg = record {
    holds =
        λ p i ps h. rw (← append_assoc ps qs rs) (hg.holds (f p) i (ps ++ qs) (hf.holds p i ps h));
  }

  pub none-Appends : (ph : ℕ → String) → Appends ph (λ p. p) []
  none-Appends ph = record { holds = λ p i ps h. rw append-nil h }

  pub text-Appends : (ph : ℕ → String) (s : String) → Appends ph (add_text s) ((text s ∷ []) ∷ [])
  unfolding add_text render bound
  text-Appends ph s = record { holds = one_text }
    where
      one_text :
          {before : List V} (p : Parts V) (i : ℕ) (ps : List (List (Piece V)))
          → Writes ph before p i ps
          → Writes ph before (add_text s p) i (ps ++ ((text s ∷ []) ∷ []))
      one_text p i ps h =
          let w =
            write ph p i ps (text s ∷ []) (record { sql = s; args = []; next = p.next }) h
              (sym (str_append-nil s)) refl (omega arith) in
          rw append-nil at w

  -- A part that starts with a keyword, if there is anything to say.
  pub headed_write :
      (ph : ℕ → String) (keyword : String) (b : Built V) (q : List (Piece V)) {before : List V}
      (p : Parts V) (i : ℕ) (ps : List (List (Piece V)))
      → Writes ph before p i ps
      → b.sql ≡ render ph p.next q
      → b.args ≡ bound q
      → b.next ≡ p.next + length (bound q)
      → IsTold q
      → Writes ph before
          (if str_eq b.sql "" then record p { next = b.next } else record {
            parts = p.parts ++ ((keyword <> b.sql) ∷ []);
            args = p.args ++ b.args;
            next = b.next;
          })
          i
          (ps ++ headed keyword q)
  unfolding headed render bound
  headed_write ph keyword b [] p i ps h sql args next told =
      let silent : str_eq b.sql "" ≡ true = (eq_iff b.sql "").1 sql in
      rw (silent, append-nil)
        (record { parts = h.parts; args = h.args; next = next ∙ omega arith ∙ h.next })
  headed_write ph keyword b (x ∷ q) p i ps h sql args next (inl e) = absurd (ground arith)
  headed_write ph keyword b (x ∷ q) p i ps h sql args next (inr t) =
      let full : str_eq b.sql "" ≡ false =
        ground (arith, eq_iff b.sql "", sql, render-ne_empty ph p.next (x ∷ q) t) in
      rw full (
        write ph p i ps (text keyword ∷ x ∷ q)
          (record { sql = keyword <> b.sql; args = b.args; next = b.next }) h
          (ap (◌<>◌ keyword) sql) args next)

  -- The statement made by a chain of steps, from some parts on.
  pub query_after :
      (ph : ℕ → String) (before : List V) (p : Parts V) (f : Parts V → Parts V)
      (ps qs : List (List (Piece V)))
      → Writes ph before p 1 ps
      → Appends ph f qs
      → ((query (f p)).sql ≡ render ph 1 (join_pieces " " (ps ++ qs)))
        × ((query (f p)).args ≡ before ++ bound (join_pieces " " (ps ++ qs)))
  unfolding query
  query_after ph before p f ps qs k h =
      let w = h.holds p 1 ps k in
      (
        ap (join " ") w.parts ∙ sym (render-join_pieces ph " " 1 (ps ++ qs)),
        w.args ∙ ap (◌++◌ before) (sym (bound-join_pieces " " (ps ++ qs))),
      )

  pub query-Appends :
      (ph : ℕ → String) (f : Parts V → Parts V) (qs : List (List (Piece V)))
      → Appends ph f qs
      → ((query (f start)).sql ≡ render ph 1 (join_pieces " " qs))
        × ((query (f start)).args ≡ bound (join_pieces " " qs))
  unfolding start
  query-Appends ph f qs h = query_after ph [] start f [] qs (nothing-Writes ph 1) h
