-- ===== src/Api.antt =====
-- The HTTP API (api/).
pub mod Http
pub mod Cursor
pub mod Keyset
pub mod Entries
pub mod Feeds
pub mod Access
pub mod Schemas
pub mod Router
