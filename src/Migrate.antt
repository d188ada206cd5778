-- ===== src/Migrate.antt =====
-- The migration engine (migrate/).
pub mod Schema
pub mod Flavour
pub mod Change
pub mod Columns
pub mod Database
pub mod Tables
pub mod Named
pub mod Keys
pub mod Ordering
pub mod Differ
pub mod Planner
pub mod Sqlgen
mod Fixtures
mod Tests
