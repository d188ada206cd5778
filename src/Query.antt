-- ===== src/Query.antt =====
-- The query engine (query/).
pub mod Condition
pub mod Where
pub mod Statement
pub mod Grammar
pub mod Postgres
pub mod Mysql
pub mod Sqlite
pub mod Aggregate
pub mod Joins
pub mod Grouped
pub mod Writes
pub mod Builder
pub mod Cache
pub mod Fixtures
mod Tests
