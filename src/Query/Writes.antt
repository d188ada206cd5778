-- ===== src/Query/Writes.antt =====
-- `GenerateUpsert` and `GenerateDelete` of the three generators together (query/sqlgen/sqlgen.go).
mod Tests
use prisma_go.Base.{String, List, Option}
use prisma_go.Query.Condition.{Dynamic, WhereClause}
use prisma_go.Query.Postgres.{dollar, generate_upsert as generate_upsert_postgres}
use prisma_go.Query.Postgres.Statements.{IsStatement}
use prisma_go.Query.Postgres.Writes.{
  upsert_parts as postgres_upsert_parts, generate_upsert-IsStatement,
}
use prisma_go.Query.Mysql.{
  question, generate_upsert as generate_upsert_mysql, generate_delete as generate_delete_mysql,
}
use prisma_go.Query.Mysql.Writes.{
  upsert_parts as mysql_upsert_parts, delete_statement_parts as mysql_delete_parts,
  generate_upsert-IsMysqlStatement, generate_delete_dollars,
}
use prisma_go.Query.Sqlite.{
  generate_upsert as generate_upsert_sqlite, generate_delete as generate_delete_sqlite,
}
use prisma_go.Query.Sqlite.Statements.{
  upsert_parts as sqlite_upsert_parts, delete_statement_parts as sqlite_delete_parts,
  generate_upsert-IsSqliteStatement, generate_delete_postgres_condition,
}

module _ (dyn : Dynamic) where
  open dyn use {Value}

  -- `GenerateUpsert` of the three generators writes the insertion, with a place for each value, and
  -- then what to do on a conflict. PostgreSQL's and SQLite's do nothing without a conflict target,
  -- and MySQL's without a target and columns to update; else they update the given columns, or, when
  -- none are given, the inserted columns that are not in the target.
  pub generate_upserts-AreStatements :
      (table : String) (columns : List String) (values : List Value)
      (update_columns conflict_target : List String)
      → IsStatement dollar
          (generate_upsert_postgres dyn table columns values update_columns conflict_target)
          (postgres_upsert_parts dyn table columns values update_columns conflict_target)
        × IsStatement question
            (generate_upsert_mysql dyn table columns values update_columns conflict_target)
            (mysql_upsert_parts dyn table columns values update_columns conflict_target)
        × IsStatement question
            (generate_upsert_sqlite dyn table columns values update_columns conflict_target)
            (sqlite_upsert_parts dyn table columns values update_columns conflict_target)
  generate_upserts-AreStatements table columns values update_columns conflict_target = (
    generate_upsert-IsStatement dyn table columns values update_columns conflict_target,
    generate_upsert-IsMysqlStatement dyn table columns values update_columns conflict_target,
    generate_upsert-IsSqliteStatement dyn table columns values update_columns conflict_target,
  )

  -- `GenerateDelete` of MySQL and SQLite writes its condition as PostgreSQL's does: with the
  -- placeholders `$1`, `$2`, …, and with the quoting and the JSON operators of PostgreSQL.
  pub generate_deletes_postgres_condition :
      (table : String) (w : Option (WhereClause Value))
      → IsStatement dollar (generate_delete_mysql dyn table w) (mysql_delete_parts dyn table w)
        × IsStatement dollar (generate_delete_sqlite dyn table w) (sqlite_delete_parts dyn table w)
  generate_deletes_postgres_condition table w =
      (generate_delete_dollars dyn table w, generate_delete_postgres_condition dyn table w)
