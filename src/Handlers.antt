-- ===== src/Handlers.antt =====
-- api/internal/handler: the HTTP handlers.
pub mod Respond
pub mod Auth
pub mod Endpoints
pub mod Health
pub mod Server
mod Tests
