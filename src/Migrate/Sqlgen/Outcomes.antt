-- ===== src/Migrate/Sqlgen/Outcomes.antt =====
-- What `GenerateMigrationSQL` of PostgreSQL returns (migrate/sqlgen/postgres.go): a text, or an error
-- for a table that is missing.

use prisma_go.Base.{
  ◌≡◌, refl, ap, ◌∙◌, inl, inr, String, ◌<>◌, List, [], ◌∷◌, ◌⊎◌, Option-cases, none, some, Unicode,
  In,
}
use prisma_go.Migrate.Schema.{Table, DatabaseSchema}
use prisma_go.Migrate.Flavour.{Result, ok, err}
use prisma_go.Migrate.Differ.{TableChange, DiffResult}
use prisma_go.Migrate.Sqlgen.{generate_create_table_from_table}
use prisma_go.Migrate.Sqlgen.Altering.{find_table}
use prisma_go.Migrate.Sqlgen.Postgres.{
  create_tables, migration_header, alter_and_drop, generate_migration_sql,
}

-- A table that a schema does not have, of those to create.
pub record IsMissing (s : DatabaseSchema) (cs : List TableChange) (c : TableChange) : Type 0 where
  pub member : In c cs
  pub absent : find_table c.name s.tables ≡ none

IsMissing-later :
    (s : DatabaseSchema) (cs : List TableChange) (d c : TableChange)
    → IsMissing s cs c
    → IsMissing s (d ∷ cs) c
IsMissing-later s cs d c m = record { member = inr m.member; absent = m.absent }

abbrev pub not_found : TableChange → String
not_found c = "table " <> (c.name <> " not found in target schema")

-- What `create_tables` does in its two cases.
abbrev pub Outcome : DatabaseSchema → List TableChange → Result String → Type 0
Outcome s cs result =
    ((done : String) × (result ≡ ok done)
      × ((c : TableChange) → In c cs → (t : Table) × (find_table c.name s.tables ≡ some t)))
    ⊎ ((c : TableChange) × IsMissing s cs c × (result ≡ err (not_found c)))

create_tables-Outcome :
    (u : Unicode) (s : DatabaseSchema) (cs : List TableChange) (sql : String)
    → Outcome s cs (create_tables u s cs sql)
unfolding create_tables
create_tables-Outcome u s [] sql = inl (sql, refl, λ c m. absurd m)
create_tables-Outcome u s (d ∷ cs) sql = elim (Option-cases (find_table d.name s.tables)) [
  | inl e ↦ inr (d, record { member = inl refl; absent = e }, rw (create_tables, e) refl)
  | inr (t, e) ↦
      elim (create_tables-Outcome u s cs
        (sql <> (generate_create_table_from_table u t <> "\n\n"))) [
          | inl (done, h, found) ↦ inl (
            done,
            rw (create_tables, e) h,
            λ c m. elim m [
              | inl q ↦ (t, ap (λ (x : TableChange). find_table x.name s.tables) q ∙ e)
              | inr i ↦ found c i
            ],
          )
          | inr (c, m, h) ↦ inr (c, IsMissing-later s cs d c m, rw (create_tables, e) h)
        ]
]

-- `GenerateMigrationSQL` returns its text if the target schema has a table for each of the tables
-- to create, and else an error with the name of one that it does not have.
pub generate_migration_sql-Outcome :
    (u : Unicode) (diff : DiffResult) (s : DatabaseSchema)
    → Outcome s diff.tables_to_create (generate_migration_sql u diff s)
unfolding generate_migration_sql
generate_migration_sql-Outcome u diff s =
    elim (create_tables-Outcome u s diff.tables_to_create migration_header) [
      | inl (created, e, found) ↦
          inl (alter_and_drop u diff s created, rw (generate_migration_sql, e) refl, found)
      | inr (c, m, e) ↦ inr (c, m, rw (generate_migration_sql, e) refl)
    ]
