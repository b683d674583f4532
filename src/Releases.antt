-- ===== src/Releases.antt =====
-- src/alfabetizacao_pipeline/releases: the choice of the manifests of a release, and its commands.
pub mod Selector
pub mod Sql
pub mod Commands
