-- ===== src/Tests.antt =====
-- Concrete runs of the theorems.
mod Fixtures
mod Release
mod Streaming
mod Batch
mod Runner
mod Storage
mod Cloud
mod Jobs
mod Ops
mod Commands
mod Registry
mod Adapter
mod Producer
mod Routes
mod Releases
