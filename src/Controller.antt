-- ===== src/Controller.antt =====
-- The control plane (internal/controller).
pub mod Handlers
pub mod Webhook
pub mod Middleware
pub mod System
pub mod Program
pub mod Routes
