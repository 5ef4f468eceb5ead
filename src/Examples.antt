-- ===== src/Examples.antt =====
-- Concrete tables and requests, and what the theorems say of them.
pub mod Rows
pub mod QueueRuns
pub mod RetryRuns
pub mod ServerRuns
pub mod WorkerRuns
pub mod RuntimeRuns
pub mod CliRuns
pub mod ConfigRuns
pub mod WebhookRuns
pub mod RouteRuns
pub mod LogRuns
