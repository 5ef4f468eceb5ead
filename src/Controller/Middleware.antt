-- ===== src/Controller/Middleware.antt =====
-- internal/controller/middleware: who may call a handler, and how often.
pub mod Auth
pub mod RateLimit
