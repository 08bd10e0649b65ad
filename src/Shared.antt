-- ===== src/Shared.antt =====
-- shared/: the enums, rows and messages of both nodes, the distributed lock and the events.
pub mod LoggingConfig
pub mod Schemas
pub mod Models
pub mod Responses
pub mod Config
pub mod Db
pub mod RedisClient
pub mod Lifespan
