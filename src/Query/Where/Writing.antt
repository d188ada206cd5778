-- ===== src/Query/Where/Writing.antt =====
-- Lists of parts, each with its own places (the slices `parts` and `args` of query/sqlgen), against
-- the pieces that they were made from.
use prisma_go.Base.{
  ℕ, ◌+◌, ◌≡◌, refl, sym, ap, ◌∙◌, String, ◌<>◌, List, [], ◌∷◌, ◌++◌, append-nil, append_assoc,
  length-append, length, arith,
}
use prisma_go.Query.Condition.{Built, join}
use prisma_go.Query.Where.{Parts}
use prisma_go.Query.Where.Pieces.{Piece, text, bound, render, join_pieces}
use prisma_go.Query.Where.Binding.{bound-append, render-append}

module _ {V : Type 0} where
  -- The parts rendered one after the other, from `i` on.
  unfoldable pub render_each : (ℕ → String) → ℕ → List (List (Piece V)) → List String
  render_each ph i [] = []
  render_each ph i (ps ∷ rest) = render ph i ps ∷ render_each ph (i + length (bound ps)) rest

  unfoldable pub bound_each : List (List (Piece V)) → List V
  bound_each [] = []
  bound_each (ps ∷ rest) = bound ps ++ bound_each rest

  pub bound_each-append :
      (ps qs : List (List (Piece V))) → bound_each (ps ++ qs) ≡ bound_each ps ++ bound_each qs
  unfolding bound_each
  bound_each-append [] qs = refl
  bound_each-append (p ∷ ps) qs =
      ap (◌++◌ (bound p)) (bound_each-append ps qs) ∙ sym (append_assoc (bound p) _ _)

  render_each-concat :
      (ph : ℕ → String) (i j : ℕ) (ps : List (List (Piece V))) (q : List (Piece V))
      → j ≡ i + length (bound_each ps)
      → render_each ph i (ps ++ (q ∷ [])) ≡ render_each ph i ps ++ (render ph j q ∷ [])
  unfolding render_each bound_each
  render_each-concat ph i j [] q e = ap (λ (k : ℕ). render ph k q ∷ []) (omega arith)
  render_each-concat ph i j (p ∷ ps) q e = ap (◌∷◌ (render ph i p)) (
      render_each-concat ph (i + length (bound p)) j ps q
        (omega (arith, length-append {0} (bound p) (bound_each ps))))

  pub bound-join_pieces :
      (sep : String) (ps : List (List (Piece V))) → bound (join_pieces sep ps) ≡ bound_each ps
  unfolding bound_each bound join_pieces
  bound-join_pieces sep [] = refl
  bound-join_pieces sep (p ∷ []) = sym (append-nil (bound p))
  bound-join_pieces sep (p ∷ q ∷ ps) =
      bound-append p (text sep ∷ join_pieces sep (q ∷ ps))
      ∙ ap (◌++◌ (bound p)) (bound-join_pieces sep (q ∷ ps))

  pub render-join_pieces :
      (ph : ℕ → String) (sep : String) (i : ℕ) (ps : List (List (Piece V)))
      → render ph i (join_pieces sep ps) ≡ join sep (render_each ph i ps)
  unfolding render_each render join_pieces join
  render-join_pieces ph sep i [] = refl
  render-join_pieces ph sep i (p ∷ []) = refl
  render-join_pieces ph sep i (p ∷ q ∷ ps) =
      render-append ph i p (text sep ∷ join_pieces sep (q ∷ ps))
      ∙ ap (λ (t : String). render ph i p <> (sep <> t))
          (render-join_pieces ph sep (i + length (bound p)) (q ∷ ps))

  -- The parts so far are those of the pieces, numbered from `i` on, and their arguments come after
  -- the ones that were there before.
  pub record Writes (ph : ℕ → String) (before : List V) (p : Parts V) (i : ℕ)
      (ps : List (List (Piece V))) : Type 0 where
    pub parts : p.parts ≡ render_each ph i ps
    pub args : p.args ≡ before ++ bound_each ps
    pub next : p.next ≡ i + length (bound_each ps)

  pub nothing-Writes :
      (ph : ℕ → String) (i : ℕ) → Writes ph [] (record { parts = []; args = []; next = i }) i []
  unfolding render_each bound_each
  nothing-Writes ph i = record { parts = refl; args = refl; next = omega arith }

  -- One more part, at the counter.
  pub write :
      (ph : ℕ → String) {before : List V} (p : Parts V) (i : ℕ) (ps : List (List (Piece V)))
      (q : List (Piece V)) (b : Built V)
      → Writes ph before p i ps
      → b.sql ≡ render ph p.next q
      → b.args ≡ bound q
      → b.next ≡ p.next + length (bound q)
      → Writes ph before
          (record { parts = p.parts ++ (b.sql ∷ []); args = p.args ++ b.args; next = b.next })
          i
          (ps ++ (q ∷ []))
  unfolding bound_each
  write ph {before} p i ps q b h sql args next = record {
    parts = ground (arith, h.parts, sql, render_each-concat ph i p.next ps q h.next);
    args = ground (
      arith,
      h.args,
      args,
      bound_each-append ps (q ∷ []),
      append-nil (bound q),
      append_assoc before (bound_each ps) (bound q),
    );
    next = omega (
      arith,
      h.next,
      next,
      ap (length {A = V}) (bound_each-append ps (q ∷ [])),
      length-append {0} (bound_each ps) (bound q ++ []),
      length-append {0} (bound q) [],
    );
  }
