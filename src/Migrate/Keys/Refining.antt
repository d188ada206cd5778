-- ===== src/Migrate/Keys/Refining.antt =====
-- The changes of indexes against their specification
-- (migrate/diff/table_differ.go).
use prisma_go.Base.{
  ◌≡◌, ◌≢◌, refl, sym, ap, ap₂, ◌∙◌, ◌↔◌, Bool, true, ◌&&◌, String, ◌<>◌, eq_iff, [], Option, some,
  arith, Runtime, IsRuntime, Dict, IsDict, entry, entry-nil, In, fill, last_under,
  last_under-element, entry-fill, fill-IsDict, nil-IsDict, or_else,
}
use prisma_go.Migrate.Schema.{Index, Table}
use prisma_go.Migrate.Flavour.Matching.{IsByStructure}
use prisma_go.Migrate.Change.{Change}
use prisma_go.Migrate.Tables.{TableDiffer}
use prisma_go.Migrate.Database.Rounds.{or_else-none}
use prisma_go.Migrate.Named.{both_test, both_named}
use prisma_go.Migrate.Named.Renaming.{IsRenamed}
use prisma_go.Migrate.Named.Pairing.{IsPair, find_pairs-IsPair, find_pairs-IsDict}
use prisma_go.Migrate.Named.Comparing.{IsChange, compare_named-IsChange}
use prisma_go.Migrate.Keys.{
  index_map, find_index_pairs, rename_index_change, create_index_change, drop_index_change,
  compare_indexes,
}

-- A test on two names holds just when both have an element and it holds of these.
pub both_named_iff :
    {T : Type 0} (test : T → T → Bool) (prevs nexts : Dict T) (old new : String) (p n : T)
    → entry old prevs ≡ some p
    → entry new nexts ≡ some n
    → both_named test prevs nexts old new ≡ test p n
both_named_iff test prevs nexts old new p n e h = ap₂ (both_test test) e h

pub and_true : (a b : Bool) → (a && b) ≡ true → (a ≡ true) × (b ≡ true)
and_true a b h = ground arith

pub and_true_both : {a b : Bool} → a ≡ true → b ≡ true → (a && b) ≡ true
and_true_both h k = ground arith

index_map-IsDict : (t : Table) → IsDict (index_map t)
unfolding index_map
index_map-IsDict t = fill-IsDict (λ (i : Index). some (i.name, i)) t.indexes [] (nil-IsDict _)

-- An index stands under its name.
index_name : (t : Table) (k : String) (i : Index) → entry k (index_map t) ≡ some i → i.name ≡ k
unfolding index_map
index_name t k i e =
    let named : Index → Option (String × Index) = λ i. some (i.name, i) in
    let last =
      sym (
        entry-fill named k t.indexes []
        ∙ ap (or_else (last_under named k t.indexes)) (entry-nil k)
        ∙ or_else-none _)
      ∙ e in
    let (x, _, h) = last_under-element named k i t.indexes last in
    ground (arith, h, eq_iff k x.name)

module _ (r : Runtime) (td : TableDiffer) where
  -- An index is renamed where the database can, to an index of another name that alone of the new
  -- ones has its structure.
  pub record IsRenamedIndex (old new : String) : Type 0 where
    pub can : td.db.flavour.can_rename_index ≡ true
    pub pair :
        IsPair td.db.flavour.indexes_match
          (index_map td.prev_table)
          (index_map td.next_table)
          old
          new
    pub other_name : old ≢ new

  index_test : String → String → Bool
  index_test old new =
      td.db.flavour.can_rename_index
      && both_named td.db.flavour.index_should_be_renamed (index_map td.prev_table)
          (index_map td.next_table) old new

  IsRenamedIndex-iff :
      (old new : String)
      → IsRuntime r
      → IsByStructure td.db.flavour
      → IsRenamed index_test
          (rename_index_change td.next_table.name)
          (find_index_pairs r td (index_map td.prev_table) (index_map td.next_table))
          old
          new
        ↔ IsRenamedIndex old new
  unfolding find_index_pairs index_test
  IsRenamedIndex-iff old new go s =
      let prevs = index_map td.prev_table in
      let nexts = index_map td.next_table in
      let pairs =
        find_pairs-IsPair td.db.flavour.indexes_match r ("indexes of " <> td.next_table.name) old
          new prevs nexts go (index_map-IsDict td.prev_table) (index_map-IsDict td.next_table) in
      (
        λ m.
            let p = pairs.0 m.0 in
            let test =
              both_named_iff td.db.flavour.index_should_be_renamed prevs nexts old new p.prev p.next
                p.has_prev p.has_next in
            let can = and_true _ _ m.1 in
            let renamed = (s.renames p.prev p.next).0 (sym test ∙ can.1) in
            record {
              can = can.0;
              pair = p;
              other_name = λ e. renamed.2 (
                  index_name td.prev_table old p.prev p.has_prev
                  ∙ e
                  ∙ sym (index_name td.next_table new p.next p.has_next));
            },
        λ m.
            let p = m.pair in
            let test =
              both_named_iff td.db.flavour.index_should_be_renamed prevs nexts old new p.prev p.next
                p.has_prev p.has_next in
            (
              pairs.1 p,
              and_true_both m.can (
                  test
                  ∙ (s.renames p.prev p.next).1 (
                    m.can,
                    (s.indexes p.prev p.next).0 p.matches,
                    λ e. m.other_name (
                        sym (index_name td.prev_table old p.prev p.has_prev)
                        ∙ e
                        ∙ index_name td.next_table new p.next p.has_next),
                  )),
            ),
      )

  -- `compareIndexes`: exactly the renamings, the created indexes that no index is renamed to, and
  -- the dropped ones that are not renamed, in whichever order the loops go through the maps.
  pub compare_indexes-IsChange :
      (c : Change)
      → IsRuntime r
      → IsByStructure td.db.flavour
      → In c (compare_indexes r td)
        ↔ IsChange
            (rename_index_change td.next_table.name)
            (create_index_change td.next_table.name)
            (λ name _. drop_index_change td.next_table.name name)
            (index_map td.prev_table)
            (index_map td.next_table)
            IsRenamedIndex
            c
  unfolding compare_indexes index_test find_index_pairs
  compare_indexes-IsChange c go s =
      let prevs = index_map td.prev_table in
      let nexts = index_map td.next_table in
      compare_named-IsChange (rename_index_change td.next_table.name)
        (create_index_change td.next_table.name)
        (λ name _. drop_index_change td.next_table.name name) prevs nexts IsRenamedIndex index_test
        (find_index_pairs r td prevs nexts) r ("compareIndexes of " <> td.next_table.name) c go
        (find_pairs-IsDict _ r _ prevs nexts) (index_map-IsDict td.prev_table)
        (index_map-IsDict td.next_table) (λ old new. IsRenamedIndex-iff old new go s)

  same_index_map :
      td.prev_table.indexes ≡ td.next_table.indexes
      → index_map td.prev_table ≡ index_map td.next_table
  unfolding index_map
  same_index_map e = ap (λ is. fill (λ (i : Index). some (i.name, i)) is []) e

  not_renamed :
      (old new : String)
      → IsByStructure td.db.flavour
      → index_map td.prev_table ≡ index_map td.next_table
      → ¬ IsRenamedIndex old new
  not_renamed old new s e m =
      let p = m.pair in
      let self = (s.indexes p.prev p.prev).1 (refl, refl) in
      m.other_name (p.alone old p.prev (ap (entry old) (sym e) ∙ p.has_prev) self)

  -- Where the new table has the indexes of the old one, `compareIndexes` creates and drops each of
  -- them again.
  pub unchanged_indexes :
      (name : String) (index : Index)
      → IsRuntime r
      → IsByStructure td.db.flavour
      → td.prev_table.indexes ≡ td.next_table.indexes
      → entry name (index_map td.next_table) ≡ some index
      → In (create_index_change td.next_table.name name index) (compare_indexes r td)
        × In (drop_index_change td.next_table.name name) (compare_indexes r td)
  unchanged_indexes name index go s e h =
      let same = same_index_map e in
      (
        (compare_indexes-IsChange (create_index_change td.next_table.name name index) go s).1
            (IsChange.creates name index h (λ q. not_renamed q.0 name s same q.1) refl),
        (compare_indexes-IsChange (drop_index_change td.next_table.name name) go s).1 (
            IsChange.drops name index (ap (entry name) same ∙ h)
              (λ q. not_renamed name q.0 s same q.1) refl),
      )
