-- ===== src/Migrate/Sqlgen/Succeeding.antt =====
-- The differ, PostgreSQL's generator and the planner together (migrate/diff/differ.go,
-- migrate/sqlgen/postgres.go, migrate/planner/planner.go): the plan for the way to a schema.
use mathlib.Core.Option
use prisma_go.Base.{
  Bool, true, false, ◌≡◌, refl, sym, ap, ◌∙◌, subst, inl, inr, if◌then◌else◌, String, str_eq,
  eq_refl, List, [], ◌∷◌, Option, none, some, arith, Bool-cases, Runtime, IsRuntime, Unicode, In,
  In-append_cases, for_each, for_each_inv, last_under-element, value_under,
}
use prisma_go.Migrate.Schema.{Table, DatabaseSchema}
use prisma_go.Migrate.Flavour.{DifferFlavour, ok}
use prisma_go.Migrate.Change.{Change}
use prisma_go.Migrate.Database.{
  DifferDatabase, TablePair, keyed_table, normalize_table_name, created_of, created_tables,
  dropped_tables, table_pairs, should_redefine_table, new_differ_database,
}
use prisma_go.Migrate.Database.Rounds.{last_table}
use prisma_go.Migrate.Database.Built.{Says, new_differ_database-Says}
use prisma_go.Migrate.Database.Visiting.{In-visited}
use prisma_go.Migrate.Ordering.Members.{order_changes-In}
use prisma_go.Migrate.Differ.{
  TableChange, DiffResult, Differ, add_created, add_dropped, add_altered, add_altered_if,
  collect_changes, compare_schemas,
}
use prisma_go.Migrate.Differ.Complete.{visited_name}
use prisma_go.Migrate.Planner.{Planner, plan_migration}
use prisma_go.Migrate.Planner.Steps.{planned, plan_migration-planned}
use prisma_go.Migrate.Sqlgen.Altering.{find_table}
use prisma_go.Migrate.Sqlgen.Reverting.{generate_rollback_sql_with_previous_schema}
use prisma_go.Migrate.Sqlgen.Postgres.{
  generate_migration_sql, generate_rollback_sql, postgres_migration_generator,
}
use prisma_go.Migrate.Sqlgen.Outcomes.{generate_migration_sql-Outcome}

-- A change of a table that a schema has.
abbrev IsNamed : DatabaseSchema → TableChange → Type 0
IsNamed s c = (t : Table) × In t s.tables × (c.name ≡ t.name)

-- A table that is there is found, or another one of its name.
find_table-In :
    (t : Table) (ts : List Table) → In t ts → (u : Table) × (find_table t.name ts ≡ some u)
unfolding find_table
find_table-In t [] m = absurd m
find_table-In t (v ∷ ts) m = elim (Bool-cases (str_eq v.name t.name)) [
  | inl e ↦ (v, rw (find_table, e) refl)
  | inr e ↦ elim m [
    | inl same ↦ absurd (ground (arith, e, eq_refl t.name, ap (λ x. str_eq x.name t.name) same))
    | inr i ↦ let (u, f) = find_table-In t ts i in (u, rw (find_table, e) f)
  ]
]

generate_migration_sql-ok :
    (u : Unicode) (diff : DiffResult) (s : DatabaseSchema)
    → ((c : TableChange) → In c diff.tables_to_create → IsNamed s c)
    → (sql : String) × (generate_migration_sql u diff s ≡ ok sql)
generate_migration_sql-ok u diff s named = elim (generate_migration_sql-Outcome u diff s) [
  | inl (sql, e, found) ↦ (sql, e)
  | inr (c, m, e) ↦
      let (t, i, q) = named c m.member in
      let (v, f) = find_table-In t s.tables i in
      absurd (ground (arith, m.absent, f, ap (λ n. find_table n s.tables) q))
]

add_altered_if-tables_to_create :
    (name : String) (cs : List Change) (s : DiffResult)
    → (add_altered_if name cs s).tables_to_create ≡ s.tables_to_create
unfolding add_altered_if
add_altered_if-tables_to_create name [] s = refl
add_altered_if-tables_to_create name (c ∷ cs) s = refl

module _ (r : Runtime) where
  -- A table that is created is one of the target schema.
  created_of-next :
      (t : Table) (k : String) (p n : Option Table)
      → In t (created_of r (k, record { previous = p; next = n }))
      → n ≡ some t
  unfolding created_of
  created_of-next t k p none m = absurd m
  created_of-next t k none (some n) m = ground arith
  created_of-next t k (some p) (some n) m = absurd m

  of_kept :
      (k name : String) (x t : Table) (ignored : Bool)
      → value_under k (if ignored then none else some (name, x)) ≡ some t
      → t ≡ x
  of_kept k name x t true e = absurd (ground arith)
  of_kept k name x t false e = ground arith

  keyed_table-same :
      (f : DifferFlavour) (k : String) (x t : Table)
      → value_under k (keyed_table r f x) ≡ some t
      → t ≡ x
  unfolding keyed_table
  keyed_table-same f k x t e =
      let name = normalize_table_name r f x.name in
      of_kept k name x t (f.table_should_be_ignored name) e

  created_tables-In :
      (f : DifferFlavour) (prev : Option DatabaseSchema) (s : DatabaseSchema) (db : DifferDatabase)
      (t : Table)
      → IsRuntime r
      → Says r f prev (some s) db
      → In t (created_tables r db)
      → In t s.tables
  unfolding created_tables last_table
  created_tables-In f prev s db t go says m =
      let (k, v, e, i) =
        (In-visited r "CreatedTables" (created_of r) db.tables t go says.tables_unique).0 m in
      let next = created_of-next t k (last_table r f k prev) (last_table r f k (some s)) (
        subst (λ q. In t (created_of r (k, q))) (visited_name r f prev (some s) db k v says e) i) in
      let (x, j, h) = last_under-element (keyed_table r f) k t s.tables next in
      subst (λ y. In y s.tables) (sym (keyed_table-same f k x t h)) j

  add_altered-tables_to_create :
      (db : DifferDatabase) (name : String) (prev next : Option Table) (s : DiffResult)
      → let p : TablePair = record {
        name = name;
        table = record { previous = prev; next = next };
      } in
        (add_altered r db p s).tables_to_create ≡ s.tables_to_create
  unfolding add_altered
  add_altered-tables_to_create db name none next s = refl
  add_altered-tables_to_create db name (some prev) none s = refl
  add_altered-tables_to_create db name (some prev) (some next) s =
      elim (Bool-cases (should_redefine_table name db)) [
        | inl e ↦ rw e refl
        | inr e ↦ rw e (add_altered_if-tables_to_create name _ s)
      ]

  -- The tables to create are tables of the target schema.
  collect_changes-IsNamed :
      (f : DifferFlavour) (prev : Option DatabaseSchema) (target : DatabaseSchema)
      (db : DifferDatabase) (c : TableChange)
      → IsRuntime r
      → Says r f prev (some target) db
      → In c (collect_changes r db).tables_to_create
      → IsNamed target c
  unfolding collect_changes add_created add_dropped
  collect_changes-IsNamed f prev target db c go says m =
      let holds : DiffResult → Type 0 =
        λ s. (d : TableChange) → In d s.tables_to_create → IsNamed target d in
      let empty : DiffResult = record {
        tables_to_create = [];
        tables_to_alter = [];
        tables_to_drop = [];
        changes = [];
      } in
      let one = for_each add_created (created_tables r db) empty in
      let one_holds : holds one =
        for_each_inv holds add_created (created_tables r db)
          (λ t s i h d n. elim (In-append_cases d s.tables_to_create _ n) [
            | inl o ↦ h d o
            | inr o ↦ elim o [
              | inl e ↦ (t, created_tables-In f prev target db t go says i, ap (λ x. x.name) e)
              | inr z ↦ absurd z
            ]
          ])
          empty (λ d n. absurd n) in
      let two_holds : holds (for_each add_dropped (dropped_tables r db) one) =
        for_each_inv holds add_dropped (dropped_tables r db) (λ t s i h. h) one one_holds in
      for_each_inv holds (add_altered r db) (table_pairs r db)
        (λ p s i h d n.
          h d (
            subst (In d) (add_altered-tables_to_create db p.name p.table.previous p.table.next s)
              n))
        _ two_holds c m

  -- `Plan` for the changes that `CompareSchemas` finds on the way to a schema, with PostgreSQL's
  -- generator and this schema, returns a plan, whatever the two schemas are and in whichever order
  -- the loops over maps go: each of the steps is a change, in order, the first with all of the SQL,
  -- or there is one step that does nothing where there is no change.
  pub plan_migration-succeeds :
      (u : Unicode) (provider name : String) (d : Differ) (prev : Option DatabaseSchema)
      (target : DatabaseSchema)
      → IsRuntime r
      → let p : Planner = record {
        provider = provider;
        generator = postgres_migration_generator u;
      } in
        (diff : DiffResult) × (compare_schemas r d prev (some target) ≡ some diff)
        × (sql : String) × (rollback : String) × (plan_migration p diff name target
            ≡ planned (ok sql) (ok rollback) name diff.changes)
  unfolding compare_schemas postgres_migration_generator generate_rollback_sql
  plan_migration-succeeds u provider name d prev target go =
      let db = new_differ_database r prev (some target) d.flavour in
      let found = collect_changes r db in
      let (changes, run, same) = order_changes-In found.changes in
      let says = new_differ_database-Says r prev (some target) d.flavour go in
      let diff : DiffResult = record found { changes = changes } in
      let (sql, e) =
        generate_migration_sql-ok u diff target
          (λ c m. collect_changes-IsNamed d.flavour prev target db c go says m) in
      let rollback = generate_rollback_sql_with_previous_schema u diff none in
      let p : Planner = record {
        provider = provider;
        generator = postgres_migration_generator u;
      } in
      (
        diff,
        ap (Option.map (λ cs. record found { changes = cs })) run,
        sql,
        rollback,
        plan_migration-planned p diff name target
            ∙ ap (λ m. planned m (generate_rollback_sql u diff target) name changes) e,
      )
