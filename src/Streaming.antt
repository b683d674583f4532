-- ===== src/Streaming.antt =====
-- The Streaming subsystem (src/alfabetizacao_pipeline/streaming).
pub mod Models
pub mod Processor
pub mod WorkflowState
pub mod Producer
pub mod Codec
pub mod Routes
pub mod Entrypoint
