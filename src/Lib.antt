-- ===== src/Lib.antt =====
-- Verification of prisma-go, a Prisma engine in Go: the comparison of two schemas, the order in
-- which the changes of a migration are run and the plan made of them, the SQL of queries for three
-- databases, the cache of query results, and the interner of the schema database.
--
-- The program: a schema (psl/) is parsed, its names are interned and resolved (psl/database), and it
-- is validated. The difference to a database (migrate/diff) is a list of changes: a flavour of the
-- database (migrate/diff/flavour) says what counts as one, the pairs of tables and columns are
-- collected in a DifferDatabase, and the differ reads them off. The changes are ordered
-- (migrate/diff/step_ordering.go), and the planner (migrate/planner) makes a plan of them with the
-- statements that a generator for the database (migrate/sqlgen) returns. A query (query/) is built by
-- query/builder, compiled, and written as SQL with arguments by a generator for its database
-- (query/sqlgen), which query/executor runs.
--
-- The files, and what they are about:
--   Base, Base/*            shared: tests, lists by native numbers, counting, permutations, loops,
--                           Go's int and its decimal digits. Base/Maps has Go's maps as lists of
--                           entries, Base/Filling the loops that fill one, Base/Texts the functions
--                           of package strings, Base/Platform what the program gets from its
--                           runtime
--   Migrate/Schema          migrate/introspect/introspect.go: the tables, columns, indexes and
--                           foreign keys of a database
--   Migrate/Change          migrate/diff/diff.go: `Change`, `ChangeType`, `ColumnMetadata`
--   Migrate/Ordering        migrate/diff/step_ordering.go: `OrderChanges` whole. The state of the
--                           graph is the adjacency lists and the in-degrees; the loop over the
--                           queue is `kahn`, on fuel. Ordering/Rank, Graph, Build, Edges and
--                           Position are about the graph, Ordering/Kahn about the queue,
--                           Ordering/Leftover and Repeats about the steps that are appended at the
--                           end, Ordering/Order about the result
--   Migrate/Flavour         migrate/diff/flavour: `DifferFlavour` as a record of operations, and the
--                           three that `getFlavour` returns, with Flavour/Matching
--   Migrate/Columns         migrate/diff/column_differ.go: `ColumnChanges`, the comparison of types
--                           and defaults, with Columns/Detecting
--   Migrate/Database        migrate/diff/differ_database.go: `DifferDatabase`. Database/Visiting,
--                           Pairs and Rounds are about its loops, Database/Built about the result
--   Migrate/Tables          migrate/diff/table_differ.go: the changes of columns, with
--                           Tables/Refining
--   Migrate/Named           the pairing and renaming that table_differ.go has once for indexes and
--                           once for foreign keys: Named/Pairing, Renaming and Comparing
--   Migrate/Keys            table_differ.go: indexes, with Keys/Refining, and foreign keys,
--                           with Keys/References
--   Migrate/Differ          migrate/diff/differ.go: `CompareSchemas`, with Differ/Complete
--   Migrate/Planner         migrate/planner/planner.go: `Plan`, over the interface of a generator,
--                           with Planner/Steps
--   Migrate/Sqlgen          migrate/sqlgen/postgres.go: `PostgresMigrationGenerator`. Sqlgen has the
--                           definitions of columns, tables, indexes and keys, Sqlgen/Altering the
--                           changes of a table, Sqlgen/Reverting the rollback, Sqlgen/Postgres the
--                           generator; Sqlgen/Quoting is about literals, Sqlgen/Actions,
--                           Changing, Writing and Undoing about what is done to a table and
--                           undone, Sqlgen/Outcomes about the error, Sqlgen/Succeeding about the
--                           differ, the generator and the planner together
--   Query/Condition         query/sqlgen/where.go and buildwhere.go: `Condition`, `WhereClause`,
--                           `buildCondition`, `buildJsonCondition`
--   Query/Where             query/sqlgen/buildwhere.go: `buildWhereRecursive`. Where/Pieces is the
--                           specification: text and places, without a counter. Where/Binding is
--                           about one condition, Where/Writing about lists of parts, Where/Clause
--                           about whole clauses
--   Query/Builder           query/builder/builder.go and complex_where.go: `WhereBuilder`, with the
--                           methods of `WhereClause` (query/sqlgen/where.go) that it uses
--   Query/Statement         query/sqlgen/sqlgen.go, aggregations.go, joins.go: the clauses that the
--                           generators repeat. Statement/Arguments has those with arguments,
--                           Statement/Windows the window functions;
--                           Statement/Appending, Clauses, Texts and Grouping say what each
--                           appends
--   Query/Grammar           the texts of clauses as SQL has them, the specification of what is
--                           written; Grammar/Agreeing, Windows and Ctes are about the code's texts
--   Query/Postgres          query/sqlgen/sqlgen.go: `PostgresGenerator`; Postgres/Statements and
--                           Postgres/Writes are about its statements
--   Query/Mysql             `MySQLGenerator`, with Mysql/Statements and Mysql/Writes
--   Query/Sqlite            `SQLiteGenerator`, with Sqlite/Statements
--   Query/Aggregate         query/sqlgen/aggregations.go: `GenerateAggregate` of the three, with
--                           Aggregate/Statements
--   Query/Joins             query/sqlgen/joins.go: `GenerateSelectWithJoins` of the three, with
--                           Joins/Statements
--   Query/Grouped           query/sqlgen/joins.go: `GenerateSelectWithAggregates` of MySQL and SQLite,
--                           with Grouped/Statements
--   Query/Writes            GenerateUpsert and GenerateDelete of the three generators together
--   Query/Cache             query/cache/cache.go: `LRUCache`, its nodes in a store by address, the map
--                           as a list of entries. Cache/Patterns has `InvalidatePattern` and the
--                           matching of patterns, with Cache/Splitting. Cache/Entries is about the
--                           map, Cache/Inserting about `Set`, Cache/Reachable about any sequence of
--                           calls
--   */Fixtures, */Tests     values for runs, and the runs
--   Psl/Interner            psl/database/interner.go: `StringInterner`, with Interner/Ids
--
-- How the code is read: `*argIndex` and the slices `parts` and `args` are passed along as a state.
-- A pointer that may be nil is an Option. The map of the columns that an UPDATE sets is the list of
-- its entries in the order in which the runtime goes through it, whichever it is. Values of type
-- `interface{}` are opaque: what the code asks of their dynamic type, what `fmt` prints for them,
-- and `strings.ToUpper` are parameters (`Dynamic` in Query/Condition). A lock that spans an
-- operation makes it one step. The clock is an argument where the code reads it, and so is the
-- order of the loop over the map of the cache. A map of the differ is an association list with
-- distinct keys, and each loop over it goes in the order that the parameter `visit` of `Runtime`
-- (Base/Platform) gives it, any order of its entries; the Unicode tables and package encoding/json
-- stand there too. An error that is returned is a value of `Result`.
--
-- Fuel: `kahn` has one unit for each step and one more; each round takes a step from the queue, and
-- a step enters the queue once. `digits` has one unit more than the number it prints, which is more
-- than its digits. Everything else is structural recursion.
--
-- Not modelled: the parsing and the validation of schemas, the conversion of a schema to tables,
-- the statements of migrations for other databases than PostgreSQL, the execution of migrations,
-- the other builders and the execution of queries, the SQL Server and MongoDB generators, the hash
-- that makes the keys of the cache, the generated client, and the second implementation under v3/.
-- What reads and writes databases and files has little logic of its own; the rest is not reached
-- yet.
pub mod Base
pub mod Migrate
pub mod Query
pub mod Psl
