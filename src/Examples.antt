-- ===== src/Examples.antt =====
-- Concrete servers, and the theorems at concrete inputs.
pub mod RedisStub
pub mod DatabaseStub
pub mod AtRedis
pub mod AtDatabase
pub mod AtApi
pub mod AtQueue
pub mod AtRest
pub mod AtSystem
pub mod AtLoadTest
pub mod AtWeb
pub mod AtService
