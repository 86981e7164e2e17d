-- ===== src/Qq.antt =====
-- The QQ bot: its HTTP client and its WebSocket gateway.
pub mod Client
pub mod Gateway
