-- ===== src/Service.antt =====
-- api/internal/service: the endpoints' logic.
pub mod Keys
pub mod Gen
pub mod Float
pub mod Number
pub mod Wordlists
pub mod Words
pub mod Lorem
pub mod Password
pub mod Uuid
pub mod Color
pub mod Coordinates
pub mod SshKey
mod Tests
