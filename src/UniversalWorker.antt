-- ===== src/UniversalWorker.antt =====
-- pkg/agent/universal_worker.go, universal_worker_websocket.go and universal_helpers.go: the worker,
-- in its parts.
pub mod Types
pub mod StatusGuard
pub mod Sending
pub mod Jobs
pub mod Connection
pub mod Frame
pub mod Reconnection
pub mod JobEffects
pub mod JobSteps
pub mod StatusRetries
pub mod Readiness
pub mod StatusDelivery
pub mod Metadata
pub mod SharedMetadata
pub mod Rooms
pub mod Shutdown
pub mod Targets
pub mod Backoff
pub mod Notices
pub mod SharedRoom
pub mod Health
pub mod JobLife
mod Examples
