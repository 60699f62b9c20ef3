-- ===== src/Migrations.antt =====
-- alembic: the revisions of the database schema.
pub mod Schema
pub mod Undo
pub mod Backs
pub mod Restore
pub mod Initial
pub mod HumanTables
pub mod HumanAuth
pub mod Revisions
pub mod Environment
pub mod DatabaseUrl
