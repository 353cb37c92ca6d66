-- ===== src/Presence.antt =====
-- Presence: apps/api/src/chat/presence.service.ts on apps/api/src/redis/redis.service.ts, and the
-- connections of apps/api/src/chat/chat.gateway.ts.
pub mod Redis
pub mod Service
pub mod Connections
pub mod Online
pub mod Tests
