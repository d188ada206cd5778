-- ===== src/Migrate/Database/Pairs.antt =====
-- The pairs of tables and columns against their specification: two partial functions from names
-- (migrate/diff/differ_database.go).
use prisma_go.Base.{
  ◌≡◌, refl, ap, ◌∙◌, inl, inr, String, ◌<>◌, [], Option, none, some, arith, Option-cases, Runtime,
  IsRuntime, Dict, IsDict, entry, entry-nil, fill, under_key, at_entry, entry-fill_visited,
  nil-IsDict, fill-IsDict, or_else,
}
use prisma_go.Migrate.Database.{MigrationPair, new_migration_pair, both_sides, next_side, pair_up}

module _ (r : Runtime) where
  -- A name has the pair of what the two sides have for it, if one of them has something.
  unfoldable pub pair_of : {T : Type 0} → Option T → Option T → Option (MigrationPair T)
  pair_of none none = none
  pair_of (some p) n = some (record { previous = some p; next = n })
  pair_of none (some n) = some (record { previous = none; next = some n })

  pub pair_of-parts :
      {T : Type 0} (prev next : Option T) (p : MigrationPair T)
      → pair_of prev next ≡ some p
      → p ≡ record { previous = prev; next = next }
  unfolding pair_of
  pair_of-parts none none p e = absurd (ground arith)
  pair_of-parts none (some n) p e = ground arith
  pair_of-parts (some o) next p e = ground arith

  pub pair_up-IsDict :
      {T : Type 0} (loop : String) (prevs nexts : Dict T) → IsDict (pair_up r loop prevs nexts)
  unfolding pair_up
  pair_up-IsDict loop prevs nexts =
      fill-IsDict (under_key (next_side r prevs)) (r.visit (loop <> ": next") nexts)
        (fill (under_key (both_sides r nexts)) (r.visit (loop <> ": previous") prevs) [])
        (fill-IsDict (under_key (both_sides r nexts)) (r.visit (loop <> ": previous") prevs) []
          (nil-IsDict _))

  next_side_absent :
      {T : Type 0} (k : String) (prevs : Dict T) (n : T)
      → entry k prevs ≡ none
      → next_side r prevs k n ≡ some (record { previous = none; next = some n })
  unfolding next_side new_migration_pair
  next_side_absent k prevs n e = rw e refl

  next_side_present :
      {T : Type 0} (k : String) (prevs : Dict T) (n p : T)
      → entry k prevs ≡ some p
      → next_side r prevs k n ≡ none
  unfolding next_side
  next_side_present k prevs n p e = rw e refl

  pub entry-pair_up :
      {T : Type 0} (loop k : String) (prevs nexts : Dict T)
      → IsRuntime r
      → IsDict prevs
      → IsDict nexts
      → entry k (pair_up r loop prevs nexts) ≡ pair_of (entry k prevs) (entry k nexts)
  unfolding pair_up pair_of both_sides next_side new_migration_pair
  entry-pair_up loop k prevs nexts go dp dn =
      let firsts =
        fill (under_key (both_sides r nexts)) (r.visit (loop <> ": previous") prevs) [] in
      entry-fill_visited (next_side r prevs) k nexts _ firsts dn (go.visits _ nexts)
      ∙ ap (or_else (at_entry (next_side r prevs k) (entry k nexts)))
          (entry-fill_visited (both_sides r nexts) k prevs _ [] dp (go.visits _ prevs))
      ∙ elim (Option-cases (entry k prevs)) [
        | inl e ↦ elim (Option-cases (entry k nexts)) [
          | inl f ↦ rw (e, f) (entry-nil k)
          | inr (n, f) ↦ rw (e, f, next_side_absent k prevs n e) refl
        ]
        | inr (p, e) ↦ elim (Option-cases (entry k nexts)) [
          | inl f ↦ rw (e, f) refl
          | inr (n, f) ↦ rw (e, f, next_side_present k prevs n p e) refl
        ]
      ]
