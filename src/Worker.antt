-- ===== src/Worker.antt =====
-- internal/worker/agent.go, the agent that pulls executions from the controller and runs them.
pub mod Config
pub mod Pull
pub mod Report
pub mod Retry
pub mod Calls
pub mod Program
pub mod LogStream
pub mod Runtime
