-- ===== src/Http.antt =====
-- internal/httpserver: routing, paging, upload chunks, rate limits and the registry handlers.
pub mod World
pub mod Route
pub mod Paging
pub mod Upload
pub mod Limiter
pub mod Token
pub mod Access
pub mod Tags
pub mod Content
