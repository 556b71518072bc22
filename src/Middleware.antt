-- ===== src/Middleware.antt =====
-- api/internal/middleware: the handlers that wrap the others. A name for each file is a child.
pub mod Problem
pub mod Admin
pub mod Auth
pub mod ClientIp
pub mod RateLimit
pub mod Cors
mod Tests
pub mod Logger
