-- ===== src/Database.antt =====
-- apps/api/src/common/database: the options, the data source and the migrations.
pub mod Options
pub mod Entities
pub mod Migrations
pub mod Source
mod Tests
