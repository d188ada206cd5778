-- ===== src/Migrate/Keys/References.antt =====
-- The changes of foreign keys against their specification (migrate/diff/table_differ.go).
use prisma_go.Base.{
  ◌≡◌, refl, ◌∙◌, ◌↔◌, Bool, true, ◌&&◌, String, ◌<>◌, [], some, Runtime, IsRuntime, IsDict, entry,
  In, fill-IsDict, nil-IsDict,
}
use prisma_go.Migrate.Schema.{ForeignKey, Table}
use prisma_go.Migrate.Flavour.Matching.{IsByStructure, SameForeignKey}
use prisma_go.Migrate.Change.{Change}
use prisma_go.Migrate.Tables.{TableDiffer}
use prisma_go.Migrate.Named.{both_named}
use prisma_go.Migrate.Named.Renaming.{IsRenamed}
use prisma_go.Migrate.Named.Pairing.{IsPair, find_pairs-IsPair, find_pairs-IsDict}
use prisma_go.Migrate.Named.Comparing.{IsChange, compare_named-IsChange}
use prisma_go.Migrate.Keys.{
  foreign_key_map, find_foreign_key_pairs, rename_foreign_key_change, create_foreign_key_change,
  drop_foreign_key_change, compare_foreign_keys,
}
use prisma_go.Migrate.Keys.Refining.{both_named_iff, and_true, and_true_both}

foreign_key_map-IsDict : (t : Table) → IsDict (foreign_key_map t)
unfolding foreign_key_map
foreign_key_map-IsDict t =
    fill-IsDict (λ (k : ForeignKey). some (k.name, k)) t.foreign_keys [] (nil-IsDict _)

module _ (r : Runtime) (td : TableDiffer) where
  -- A foreign key is renamed where the database can, to the one that alone of the new ones has its
  -- structure, be its name another or not.
  pub record IsRenamedForeignKey (old new : String) : Type 0 where
    pub can : td.db.flavour.can_rename_foreign_key ≡ true
    pub pair :
        IsPair td.db.flavour.foreign_keys_match
          (foreign_key_map td.prev_table)
          (foreign_key_map td.next_table)
          old
          new

  foreign_key_test : String → String → Bool
  foreign_key_test old new =
      td.db.flavour.can_rename_foreign_key
      && both_named td.db.flavour.foreign_keys_match (foreign_key_map td.prev_table)
          (foreign_key_map td.next_table) old new

  IsRenamedForeignKey-iff :
      (old new : String)
      → IsRuntime r
      → IsRenamed foreign_key_test
          (rename_foreign_key_change td.next_table.name)
          (find_foreign_key_pairs r td
            (foreign_key_map td.prev_table)
            (foreign_key_map td.next_table))
          old
          new
        ↔ IsRenamedForeignKey old new
  unfolding find_foreign_key_pairs foreign_key_test
  IsRenamedForeignKey-iff old new go =
      let prevs = foreign_key_map td.prev_table in
      let nexts = foreign_key_map td.next_table in
      let pairs =
        find_pairs-IsPair td.db.flavour.foreign_keys_match r
          ("foreign keys of " <> td.next_table.name) old new prevs nexts go
          (foreign_key_map-IsDict td.prev_table) (foreign_key_map-IsDict td.next_table) in
      (
        λ m. record { can = (and_true _ _ m.1).0; pair = pairs.0 m.0 },
        λ m.
            let p = m.pair in
            let test =
              both_named_iff td.db.flavour.foreign_keys_match prevs nexts old new p.prev p.next
                p.has_prev p.has_next in
            (pairs.1 p, and_true_both m.can (test ∙ p.matches)),
      )

  -- `compareForeignKeys`: exactly the renamings, the created foreign keys that none is renamed to,
  -- and the dropped ones that are not renamed, in whichever order the loops go through the maps.
  pub compare_foreign_keys-IsChange :
      (c : Change)
      → IsRuntime r
      → In c (compare_foreign_keys r td)
        ↔ IsChange
            (rename_foreign_key_change td.next_table.name)
            (λ name (_ : ForeignKey). create_foreign_key_change td.next_table.name name)
            (λ name _. drop_foreign_key_change td.next_table.name name)
            (foreign_key_map td.prev_table)
            (foreign_key_map td.next_table)
            IsRenamedForeignKey
            c
  unfolding compare_foreign_keys foreign_key_test find_foreign_key_pairs
  compare_foreign_keys-IsChange c go =
      let prevs = foreign_key_map td.prev_table in
      let nexts = foreign_key_map td.next_table in
      compare_named-IsChange (rename_foreign_key_change td.next_table.name)
        (λ name _. create_foreign_key_change td.next_table.name name)
        (λ name _. drop_foreign_key_change td.next_table.name name) prevs nexts IsRenamedForeignKey
        foreign_key_test (find_foreign_key_pairs r td prevs nexts) r
        ("compareForeignKeys of " <> td.next_table.name) c go (find_pairs-IsDict _ r _ prevs nexts)
        (foreign_key_map-IsDict td.prev_table) (foreign_key_map-IsDict td.next_table)
        (λ old new. IsRenamedForeignKey-iff old new go)

  -- A foreign key that both tables have under one name, and that alone of the new ones has its
  -- structure, is renamed to itself where the database can rename foreign keys.
  pub unchanged_foreign_key :
      (name : String) (key : ForeignKey)
      → IsRuntime r
      → IsByStructure td.db.flavour
      → td.db.flavour.can_rename_foreign_key ≡ true
      → entry name (foreign_key_map td.prev_table) ≡ some key
      → entry name (foreign_key_map td.next_table) ≡ some key
      → ((other : String) (k : ForeignKey)
          → entry other (foreign_key_map td.next_table) ≡ some k
          → SameForeignKey key k
          → other ≡ name)
      → In (rename_foreign_key_change td.next_table.name name name) (compare_foreign_keys r td)
  unchanged_foreign_key name key go s can e h alone =
      (compare_foreign_keys-IsChange (rename_foreign_key_change td.next_table.name name name) go).1
        (IsChange.renames name name
          (record {
            can = can;
            pair = record {
              prev = key;
              next = key;
              has_prev = e;
              has_next = h;
              matches = (s.foreign_keys key key).1 (record {
                columns = refl;
                table = refl;
                referenced = refl;
                on_delete = refl;
                on_update = refl;
              });
              alone = λ other k i m. alone other k i ((s.foreign_keys key k).0 m);
            };
          })
          refl)
