-- ===== src/Migrate/Ordering/Graph.antt =====
-- What the construction of the dependency graph keeps: every edge goes up in rank, and the
-- in-degree of a step counts its incoming edges.
use prisma_go.Base.{
  ℕ, zero, suc, ◌<◌, ◌≡◌, refl, sym, ◌∙◌, ◌↔◌, inl, inr, true, ◌||◌, List, [], ◌∷◌, ◌++◌, count,
  count-append, sum_below, sum_below_update, arith, Bool-cases,
}
use prisma_go.Migrate.Change.{ChangeType}
use prisma_go.Migrate.Ordering.{DependencyGraph, contains_int, add_edge, add_edge_once, no_edges}
use prisma_go.Migrate.Ordering.Rank.{rank}

pub contains_int-append :
    (xs ys : List ℕ) (v : ℕ) → contains_int (xs ++ ys) v ≡ (contains_int xs v || contains_int ys v)
unfolding contains_int
contains_int-append [] ys v = refl
contains_int-append (x ∷ xs) ys v = ground (arith, contains_int-append xs ys v)

pub contains_int-count : (xs : List ℕ) (v : ℕ) → (contains_int xs v ≡ true) ↔ (0 < count v xs)
unfolding contains_int count
contains_int-count [] v = (λ h. cc, λ h. elim h [ ])
contains_int-count (x ∷ xs) v = ground (arith, contains_int-count xs v)

abbrev pub Edge : DependencyGraph → ℕ → ℕ → Type 0
Edge g u v = contains_int (g.next u) v ≡ true

module _ (n : ℕ) (kind : ℕ → ChangeType) where
  -- `n` steps, of the types `kind`.
  pub record IsSound (g : DependencyGraph) : Type 0 where
    pub edges : (u v : ℕ) → Edge g u v → (u < n) × (v < n) × (rank (kind u) < rank (kind v))
    pub degrees : (v : ℕ) → g.in_degree v ≡ sum_below n (λ u. count v (g.next u))

  sum_below_nil : (m v : ℕ) → 0 ≡ sum_below m (λ _. count v [])
  unfolding sum_below count
  sum_below_nil zero v = refl
  sum_below_nil (suc m) v = omega (arith, sum_below_nil m v)

  pub no_edges-IsSound : IsSound no_edges
  unfolding contains_int
  no_edges-IsSound = record { edges = λ u v h. cc; degrees = λ v. sum_below_nil n v }

  pub add_edge-IsSound :
      (i j : ℕ) (g : DependencyGraph)
      → i < n
      → j < n
      → rank (kind i) < rank (kind j)
      → IsSound g
      → IsSound (add_edge i j g)
  unfolding add_edge contains_int count
  add_edge-IsSound i j g hi hj hr s = record {
    edges = λ u v h. ground (arith, s.edges u v, contains_int-append (g.next i) (j ∷ []) v);
    degrees = λ v. sym (
        sum_below_update n i (count v (j ∷ [])) (λ u. count v (g.next u)) _ hi
          (ground (arith, count-append v (g.next i) (j ∷ []))) (λ u ne. ground arith)
        ∙ ground (arith, s.degrees v, s.degrees j));
  }

  pub add_edge_once-IsSound :
      (i j : ℕ) (g : DependencyGraph)
      → i < n
      → j < n
      → rank (kind i) < rank (kind j)
      → IsSound g
      → IsSound (add_edge_once i j g)
  unfolding add_edge_once
  add_edge_once-IsSound i j g hi hj hr s = elim (Bool-cases (contains_int (g.next i) j)) [
    | inl e ↦ rw e s
    | inr e ↦ rw e (add_edge-IsSound i j g hi hj hr s)
  ]
