-- ===== src/LoadTest.antt =====
-- packages/load-test: the stages of its scenarios, and the checks that are run after a load test.
pub mod Verify
pub mod Stages
pub mod Suite
pub mod Sale
pub mod DrainQueue
pub mod Client
pub mod Identity
