-- ===== src/Migrate/Differ/Complete.antt =====
-- The changes that the differ finds, against what the two schemas have
-- (migrate/diff/differ.go).
use mathlib.Core.Option
use prisma_go.Base.{
  ◌≡◌, refl, sym, ap, ap₂, ◌∙◌, subst, ◌↔◌, ◌⊎◌, inl, inr, if◌then◌else◌, false, String, List, [],
  ◌∷◌, ◌++◌, append-nil, append_assoc, Option, none, some, arith, Bool-cases, Runtime, IsRuntime,
  entry, In, In-gather, In-append_three, gather, for_each, for_each-gather,
}
use prisma_go.Migrate.Schema.{Table, DatabaseSchema}
use prisma_go.Migrate.Flavour.{DifferFlavour}
use prisma_go.Migrate.Change.{Change}
use prisma_go.Migrate.Database.{
  MigrationPair, DifferDatabase, TablePair, created_of, dropped_of, table_pair_of, insert_by_name,
  sort_by_name, created_tables, dropped_tables, table_pairs, should_redefine_table, has_both,
  new_differ_database,
}
use prisma_go.Migrate.Database.Pairs.{pair_of, pair_of-parts}
use prisma_go.Migrate.Database.Rounds.{last_table}
use prisma_go.Migrate.Database.Built.{Says, new_differ_database-Says}
use prisma_go.Migrate.Database.Visiting.{In-gather_visited}
use prisma_go.Migrate.Tables.{TableDiffer}
use prisma_go.Migrate.Keys.{compare}
use prisma_go.Migrate.Ordering.Members.{order_changes-In}
use prisma_go.Migrate.Differ.{
  DiffResult, Differ, create_table_change, drop_table_change, redefine_table_change, add_created,
  add_dropped, add_altered, add_altered_if, collect_changes, compare_schemas,
}

module _ (r : Runtime) where
  In-insert_by_name :
      (x p : TablePair) (qs : List TablePair) → In x (insert_by_name r p qs) ↔ ((x ≡ p) ⊎ In x qs)
  unfolding insert_by_name
  In-insert_by_name x p [] = (λ m. m, λ m. m)
  In-insert_by_name x p (q ∷ qs) = ground (arith, In-insert_by_name x p qs)

  In-sort_by_name : (x : TablePair) (ps : List TablePair) → In x (sort_by_name r ps) ↔ In x ps
  unfolding sort_by_name
  In-sort_by_name x [] = (λ m. m, λ m. m)
  In-sort_by_name x (p ∷ ps) =
      ground (arith, In-sort_by_name x ps, In-insert_by_name x p (sort_by_name r ps))

  -- What a pair of tables adds.
  altered : DifferDatabase → TablePair → List Change
  altered db pair = elim pair.table.previous [
    | none ↦ []
    | some prev ↦ elim pair.table.next [
      | none ↦ []
      | some next ↦
          if should_redefine_table pair.name db
          then redefine_table_change pair.name ∷ []
          else compare r (record { prev_table = prev; next_table = next; db = db })
    ]
  ]

  add_altered_if-changes :
      (name : String) (cs : List Change) (s : DiffResult)
      → (add_altered_if name cs s).changes ≡ s.changes ++ cs
  unfolding add_altered_if
  add_altered_if-changes name [] s = sym (append-nil s.changes)
  add_altered_if-changes name (c ∷ cs) s = refl

  add_altered-changes :
      (db : DifferDatabase) (name : String) (prev next : Option Table) (s : DiffResult)
      → let p : TablePair = record {
        name = name;
        table = record { previous = prev; next = next };
      } in
        (add_altered r db p s).changes ≡ s.changes ++ altered db p
  unfolding add_altered altered
  add_altered-changes db name none next s = sym (append-nil s.changes)
  add_altered-changes db name (some prev) none s = sym (append-nil s.changes)
  add_altered-changes db name (some prev) (some next) s =
      elim (Bool-cases (should_redefine_table name db)) [
        | inl e ↦ rw e refl
        | inr e ↦ rw e (add_altered_if-changes name _ s)
      ]

  -- What the three loops collect.
  collected :
      (db : DifferDatabase)
      → (collect_changes r db).changes
        ≡ gather (λ t. create_table_change t.name ∷ []) (created_tables r db)
          ++ (gather (λ t. drop_table_change t.name ∷ []) (dropped_tables r db)
              ++ gather (altered db) (table_pairs r db))
  unfolding collect_changes add_created add_dropped
  collected db =
      let changes : DiffResult → List Change = λ s. s.changes in
      let create : Table → List Change = λ t. create_table_change t.name ∷ [] in
      let drop : Table → List Change = λ t. drop_table_change t.name ∷ [] in
      let empty : DiffResult = record {
        tables_to_create = [];
        tables_to_alter = [];
        tables_to_drop = [];
        changes = [];
      } in
      let one = for_each add_created (created_tables r db) empty in
      let two = for_each add_dropped (dropped_tables r db) one in
      for_each-gather (add_altered r db) changes (altered db)
        (λ p s. add_altered-changes db p.name p.table.previous p.table.next s) (table_pairs r db)
        two
      ∙ ap (λ cs. cs ++ gather (altered db) (table_pairs r db))
          (for_each-gather add_dropped changes drop (λ t s. refl) (dropped_tables r db) one
            ∙ ap (λ cs. cs ++ gather drop (dropped_tables r db))
                (for_each-gather add_created changes create (λ t s. refl) (created_tables r db)
                  empty))
      ∙ append_assoc (gather create (created_tables r db)) (gather drop (dropped_tables r db))
          (gather (altered db) (table_pairs r db))

  -- A change between two schemas: of a table that only the next schema has under a name, of one
  -- that only the previous has, or between two tables that they have under one name.
  pub data IsFound (f : DifferFlavour) (prev next : Option DatabaseSchema) (db : DifferDatabase)
      (c : Change) : Type 0 where
    creates :
        (k : String) (t : Table)
        → last_table r f k prev ≡ none
        → last_table r f k next ≡ some t
        → c ≡ create_table_change t.name
        → IsFound f prev next db c
    drops :
        (k : String) (t : Table)
        → last_table r f k prev ≡ some t
        → last_table r f k next ≡ none
        → c ≡ drop_table_change t.name
        → IsFound f prev next db c
    alters :
        (k : String) (p n : Table)
        → last_table r f k prev ≡ some p
        → last_table r f k next ≡ some n
        → In c (compare r (record { prev_table = p; next_table = n; db = db }))
        → IsFound f prev next db c

  altered_pair :
      (db : DifferDatabase) (k : String) (p n : Table)
      → should_redefine_table k db ≡ false
      → gather (altered db) (table_pair_of r (k, record { previous = some p; next = some n }))
        ≡ compare r (record { prev_table = p; next_table = n; db = db })
  unfolding table_pair_of has_both altered
  altered_pair db k p n keep =
      let td : TableDiffer = record { prev_table = p; next_table = n; db = db } in
      append-nil _ ∙ ap (λ b. if b then redefine_table_change k ∷ [] else compare r td) keep

  -- What the three loops collect for a name, from what the schemas have there.
  of_one_name :
      (f : DifferFlavour) (prev next : Option DatabaseSchema) (db : DifferDatabase) (c : Change)
      (k : String) (p n : Option Table)
      → should_redefine_table k db ≡ false
      → last_table r f k prev ≡ p
      → last_table r f k next ≡ n
      → let e : String × MigrationPair Table = (k, record { previous = p; next = n }) in
        (In c (gather (λ (t : Table). create_table_change t.name ∷ []) (created_of r e))
          ⊎ In c (gather (λ (t : Table). drop_table_change t.name ∷ []) (dropped_of r e))
          ⊎ In c (gather (altered db) (table_pair_of r e)))
        → IsFound f prev next db c
  unfolding created_of dropped_of table_pair_of has_both
  of_one_name f prev next db c k none none keep e h m = absurd (ground arith)
  of_one_name f prev next db c k none (some n) keep e h m = creates k n e h (ground arith)
  of_one_name f prev next db c k (some p) none keep e h m = drops k p e h (ground arith)
  of_one_name f prev next db c k (some p) (some n) keep e h m = elim m [
    | inl m ↦ absurd m
    | inr m ↦ elim m [
      | inl m ↦ absurd m
      | inr m ↦ alters k p n e h (subst (In c) (altered_pair db k p n keep) m)
    ]
  ]

  -- The tables under a name that has something are a pair.
  pub visited_name :
      (f : DifferFlavour) (prev next : Option DatabaseSchema) (db : DifferDatabase) (k : String)
      (v : MigrationPair Table)
      → Says r f prev next db
      → entry k db.tables ≡ some v
      → v ≡ record { previous = last_table r f k prev; next = last_table r f k next }
  visited_name f prev next db k v says e =
      pair_of-parts r (last_table r f k prev) (last_table r f k next) v (sym (says.tables k) ∙ e)

  sorted_pairs :
      (db : DifferDatabase) (c : Change) (ps : List TablePair)
      → In c (gather (altered db) (sort_by_name r ps)) ↔ In c (gather (altered db) ps)
  sorted_pairs db c ps = (
    λ m.
        let (p, i, h) = (In-gather (altered db) c (sort_by_name r ps)).0 m in
        (In-gather (altered db) c ps).1 (p, (In-sort_by_name p ps).0 i, h),
    λ m.
        let (p, i, h) = (In-gather (altered db) c ps).0 m in
        (In-gather (altered db) c (sort_by_name r ps)).1 (p, (In-sort_by_name p ps).1 i, h),
  )

  collect_changes-IsFound :
      (f : DifferFlavour) (prev next : Option DatabaseSchema) (db : DifferDatabase) (c : Change)
      → IsRuntime r
      → Says r f prev next db
      → In c (collect_changes r db).changes ↔ IsFound f prev next db c
  unfolding created_tables dropped_tables table_pairs pair_of created_of dropped_of
  collect_changes-IsFound f prev next db c go says =
      let create : Table → List Change = λ t. create_table_change t.name ∷ [] in
      let drop : Table → List Change = λ t. drop_table_change t.name ∷ [] in
      let created =
        In-gather_visited r "CreatedTables" (created_of r) create db.tables c go
          says.tables_unique in
      let dropped =
        In-gather_visited r "DroppedTables" (dropped_of r) drop db.tables c go says.tables_unique in
      let pairs =
        In-gather_visited r "TablePairs" (table_pair_of r) (altered db) db.tables c go
          says.tables_unique in
      let three =
        In-append_three c (gather create (created_tables r db)) (gather drop (dropped_tables r db))
          (gather (altered db) (table_pairs r db)) in
      let name : (k : String) (v : MigrationPair Table)
          → entry k db.tables ≡ some v
          → (In c (gather create (created_of r (k, v)))
              ⊎ In c (gather drop (dropped_of r (k, v)))
              ⊎ In c (gather (altered db) (table_pair_of r (k, v))))
          → IsFound f prev next db c =
        λ k v e m.
          of_one_name f prev next db c k (last_table r f k prev) (last_table r f k next)
            (says.redefines k) refl refl
            (subst
              (λ q.
                In c (gather create (created_of r (k, q)))
                ⊎ In c (gather drop (dropped_of r (k, q)))
                ⊎ In c (gather (altered db) (table_pair_of r (k, q))))
              (visited_name f prev next db k v says e) m) in
      (
        λ m. elim (three.0 (subst (In c) (collected db) m)) [
          | inl m ↦ let (k, v, e, i) = created.0 m in name k v e (inl i)
          | inr m ↦ elim m [
            | inl m ↦ let (k, v, e, i) = dropped.0 m in name k v e (inr (inl i))
            | inr m ↦
                let (k, v, e, i) = pairs.0 ((sorted_pairs db c _).0 m) in name k v e (inr (inr i))
          ]
        ],
        λ m. subst (In c) (sym (collected db)) (
            three.1 (elim m [
              | creates k t e h q ↦ inl (
                  created.1 (
                    k,
                    record { previous = none; next = some t },
                    says.tables k ∙ ap₂ (pair_of r) e h,
                    inl q,
                  ))
              | drops k t e h q ↦ inr (
                  inl (
                    dropped.1 (
                      k,
                      record { previous = some t; next = none },
                      says.tables k ∙ ap₂ (pair_of r) e h,
                      inl q,
                    )))
              | alters k p n e h i ↦ inr (
                  inr (
                    (sorted_pairs db c _).1 (
                      pairs.1 (
                        k,
                        record { previous = some p; next = some n },
                        says.tables k ∙ ap₂ (pair_of r) e h,
                        subst (In c) (sym (altered_pair db k p n (says.redefines k))) i,
                      ))))
            ])),
      )

  -- `CompareSchemas` returns a result for every two schemas, and its changes are exactly those of
  -- the names that the schemas have: a name that only the next schema has is created, one that only
  -- the previous has is dropped, and for one that both have, the changes between its two tables are
  -- there.
  pub compare_schemas-IsFound :
      (d : Differ) (prev next : Option DatabaseSchema)
      → IsRuntime r
      → (result : DiffResult) × (compare_schemas r d prev next ≡ some result)
        × ((c : Change)
            → In c result.changes
              ↔ IsFound d.flavour prev next (new_differ_database r prev next d.flavour) c)
  unfolding compare_schemas
  compare_schemas-IsFound d prev next go =
      let db = new_differ_database r prev next d.flavour in
      let found = collect_changes r db in
      let (changes, run, same) = order_changes-In found.changes in
      let says = new_differ_database-Says r prev next d.flavour go in
      (
        record found { changes = changes },
        ap (Option.map (λ cs. record found { changes = cs })) run,
        λ c.
            let is = collect_changes-IsFound d.flavour prev next db c go says in
            (λ m. is.0 ((same c).0 m), λ i. (same c).1 (is.1 i)),
      )
