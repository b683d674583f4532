-- ===== src/Ops.antt =====
-- src/alfabetizacao_pipeline/ops: the cost estimate of the pipeline.
pub mod Decimal
pub mod Models
pub mod Costs
