-- ===== src/Migrate/Named/Pairing.antt =====
-- The pairs of elements that match by structure (`findIndexPairs` and `findForeignKeyPairs` of
-- migrate/diff/table_differ.go).
use prisma_go.Base.{
  ◌≡◌, refl, sym, ap, ap₂, subst, ◌∙◌, ◌↔◌, inl, inr, if◌then◌else◌, Bool, true, String, ◌<>◌, List,
  [], ◌∷◌, ◌++◌, Option, none, some, arith, Bool-cases, Option-cases, Runtime, IsRuntime, Dict,
  IsDict, entry, entry-nil, In, In-gather, Permᴰ-IsDict, entry-fill_visited, nil-IsDict,
  fill-IsDict, at_entry, or_else, under_key, gather, In-entry,
}
use mathlib.Core.List.Permᴰ
use prisma_go.Migrate.Tables.{text_if}
use prisma_go.Migrate.Database.Visiting.{In-visit, In-visited, In-appended_if}
use prisma_go.Migrate.Database.Rounds.{or_else-none}
use prisma_go.Migrate.Named.{the_only, matches_of, find_pairs}

-- The only element is in the list, and every element of the list is it.
the_only-In :
    (x : String) (xs : List String)
    → the_only xs ≡ some x
    → In x xs × ((y : String) → In y xs → y ≡ x)
the_only-In x [] e = absurd (ground arith)
the_only-In x (y ∷ []) e =
    let h : y ≡ x = ground arith in
    (inl (sym h), λ z i. elim i [ inl q ↦ q ∙ h | inr i ↦ absurd i ])
the_only-In x (y ∷ z ∷ xs) e = absurd (ground arith)

none-ne-some : {A : Type 0} {a : A} → none ≡ some a → ⊥
none-ne-some e = ground arith

no_elements : (xs : List String) → ((y : String) → ¬ In y xs) → xs ≡ []
no_elements [] h = refl
no_elements (x ∷ xs) h = absurd (h x (inl refl))

module _ {T : Type 0} (match : T → T → Bool) where
  matching : T → String × T → List String
  matching prev e = text_if (match prev e.1) e.0

  -- A name whose element alone matches is the only match.
  the_only-matching :
      (prev : T) (k : String) (v : T) (es : Dict T)
      → IsDict es
      → In (k, v) es
      → match prev v ≡ true
      → ((j : String) (w : T) → In (j, w) es → match prev w ≡ true → j ≡ k)
      → the_only (gather (matching prev) es) ≡ some k
  unfolding IsDict matching
  the_only-matching prev k v [] d i m alone = absurd i
  the_only-matching prev k v (e ∷ es) d (inl q) m alone =
      let first : matching prev e ≡ (e.0 ∷ []) =
        ap (λ b. if b then e.0 ∷ [] else []) (ap (λ x. match prev x.1) (sym q) ∙ m) in
      let others : (y : String) → ¬ In y (gather (matching prev) es) = λ y i.
        let (x, j, h) = (In-gather (matching prev) y es).0 i in
        let (t, _) = (In-appended_if (match prev x.1) y x.0).0 h in
        let same : x.0 ≡ e.0 = alone x.0 x.1 (inr j) t ∙ ap (λ x. x.0) q in
        let there : entry e.0 es ≡ some x.1 =
          subst (λ n. entry n es ≡ some x.1) same (In-entry x.0 x.1 es d.1 j) in
        ground (arith, there, d.0) in
      ap₂ (λ a b. the_only (a ++ b)) first (no_elements (gather (matching prev) es) others)
      ∙ ap (λ x. some x.0) (sym q)
  the_only-matching prev k v (e ∷ es) d (inr i) m alone = elim (Bool-cases (match prev e.1)) [
    | inl t ↦
        let same : e.0 ≡ k = alone e.0 e.1 (inl refl) t in
        let there : entry e.0 es ≡ some v =
          subst (λ n. entry n es ≡ some v) (sym same) (In-entry k v es d.1 i) in
        absurd (ground (arith, there, d.0))
    | inr f ↦
        ap (λ b. the_only ((if b then e.0 ∷ [] else []) ++ gather (matching prev) es)) f
        ∙ the_only-matching prev k v es d.1 i m (λ j w h. alone j w (inr h))
  ]

  -- The element under a name of the one map and that under a name of the other match, and no other
  -- of the other map matches.
  pub record IsPair (prevs nexts : Dict T) (old new : String) : Type 0 where
    pub prev : T
    pub next : T
    pub has_prev : entry old prevs ≡ some prev
    pub has_next : entry new nexts ≡ some next
    pub matches : match prev next ≡ true
    pub alone :
        (name : String) (other : T)
        → entry name nexts ≡ some other
        → match prev other ≡ true
        → name ≡ new

  -- The loops over the two maps pair exactly these names.
  pub find_pairs-IsPair :
      (r : Runtime) (loop old new : String) (prevs nexts : Dict T)
      → IsRuntime r
      → IsDict prevs
      → IsDict nexts
      → (entry old (find_pairs r loop match prevs nexts) ≡ some new) ↔ IsPair prevs nexts old new
  unfolding find_pairs matches_of matching
  find_pairs-IsPair r loop old new prevs nexts go dp dn =
      let inner = loop <> (": next of " <> old) in
      let only : String → T → Option String =
        λ name prev. the_only (matches_of r (loop <> (": next of " <> name)) match nexts prev) in
      let stored =
        entry-fill_visited only old prevs (r.visit (loop <> ": previous") prevs) [] dp
          (go.visits (loop <> ": previous") prevs)
        ∙ ap (or_else (at_entry (only old) (entry old prevs))) (entry-nil old)
        ∙ or_else-none _ in
      (
        λ e. elim (Option-cases (entry old prevs)) [
          | inl n ↦ absurd (none-ne-some (ap (at_entry (only old)) (sym n) ∙ sym stored ∙ e))
          | inr (prev, h) ↦
              let found : the_only (gather (matching prev) (r.visit inner nexts)) ≡ some new =
                ap (at_entry (only old)) (sym h) ∙ sym stored ∙ e in
              let (there, same) = the_only-In new _ found in
              let (name, next, k, i) =
                (In-visited r inner (matching prev) nexts new go dn).0 there in
              let (t, q) = (In-appended_if (match prev next) new name).0 i in
              record {
                prev = prev;
                next = next;
                has_prev = h;
                has_next = subst (λ name. entry name nexts ≡ some next) (sym q) k;
                matches = t;
                alone = λ other w j m. same other (
                    (In-visited r inner (matching prev) nexts other go dn).1
                      (other, w, j, (In-appended_if (match prev w) other other).1 (m, refl)));
              }
        ],
        λ p.
            stored
            ∙ ap (at_entry (only old)) p.has_prev
            ∙ the_only-matching p.prev new p.next (r.visit inner nexts)
                (Permᴰ-IsDict (Permᴰ.symm (go.visits inner nexts)) dn)
                ((In-visit r inner new p.next nexts go dn).1 p.has_next) p.matches
                (λ j w i m. p.alone j w ((In-visit r inner j w nexts go dn).0 i) m),
      )

  pub find_pairs-IsDict :
      (r : Runtime) (loop : String) (prevs nexts : Dict T)
      → IsDict (find_pairs r loop match prevs nexts)
  unfolding find_pairs
  find_pairs-IsDict r loop prevs nexts =
      fill-IsDict
        (under_key
          (λ name prev. the_only (matches_of r (loop <> (": next of " <> name)) match nexts prev)))
        (r.visit (loop <> ": previous") prevs) [] (nil-IsDict _)
