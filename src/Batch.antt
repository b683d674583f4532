-- ===== src/Batch.antt =====
-- The Batch subsystem (src/alfabetizacao_pipeline/batch).
pub mod Errors
pub mod Models
pub mod Catalog
pub mod SchemaDrift
pub mod Sql
pub mod Ports
pub mod Planner
pub mod Landing
pub mod Runner
pub mod Integrity
pub mod Memory
pub mod Release
pub mod Gcs
pub mod Adapter
pub mod Retry
pub mod GoogleStorage
pub mod GoogleBigQuery
pub mod ReleaseTables
pub mod Commands
