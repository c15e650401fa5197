-- ===== src/Lib.antt =====
-- A flash sale: many buyers, few units, one unit per buyer.
--
-- A request to buy (apps/api/src/purchases) asks Redis first (packages/redis): one Lua script answers for the sale's
-- window, its buyers and its stock, and takes a unit if it can. A reservation becomes a message in RabbitMQ
-- (packages/queue), which the worker (apps/worker) takes in batches and writes to PostgreSQL (packages/database). When
-- Redis or the broker cannot be used, the API writes to PostgreSQL itself. Sales are read (apps/api/src/sales) behind a
-- short cache. The web application (apps/web) and the load test (packages/load-test) are the API's clients.
--
-- Files, and the code that they model:
--   Prelude            shared names, Boolean tests, lists, text as lists of character codes, decimal
--                      numbers, values of JSON, results that may throw
--   Contract           packages/shared-types/src/contract.ts
--   Redis/Keys         packages/redis/src/keys.ts and normalize-email.ts; Keys/Apart: keys do not collide
--   Redis/Server       the Redis commands, an interface with laws
--   Redis/Reserve      packages/redis/lua/reserve-purchase.lua (reserve_script) and reserve-purchase.ts
--   Redis/Sync         packages/redis/src/sync.ts (sync_sale, flush_sale_keys); Sync/Warm, Sync/Flush: what they leave
--   Redis/WarmScript   packages/redis/src/scripts/warm.ts
--   Redis/Gate         the abstract sale; Gate/Refine: the script implements it; Gate/Stock: many attempts in any order
--   Database/Schema    packages/database/src/schema, the constraints and the trigger of packages/database/drizzle
--   Database/Server    the statements and transactions of PostgreSQL, an interface with laws
--   Database/Invariant stock and purchases add up
--   Database/WriteBatch  packages/database/src/write-purchases.ts; Balance, Redelivery, Progress, Complete: its theorems
--   Database/Scripts   the statements that only scripts send, an interface with laws
--   Database/Seed      packages/database/src/scripts/seed.ts, its products and sales
--   Queue/Messages     packages/queue/src/constants.ts, client.types.ts, publish.ts
--   Queue/Drain        packages/queue/src/drain.ts: on_message, on_timer, start_flush, end_flush, stop and finish are its
--                      callbacks, split where they wait; Drain/Retry the attempts of one flush; Drain/Settled and
--                      Drain/Accounted what becomes of the deliveries
--   Queue/Connection   packages/queue/src/connection.ts, in the same way
--   Api/PgError        apps/api/src/database/pg-error.ts
--   Api/Sales          apps/api/src/sales: Utils, Service; Phases and Freshness: their theorems
--   Api/Purchases      apps/api/src/purchases: Write is writePurchase; Service is purchase, reserve and publish; Orders is
--                      findByEmail
--   Api/Common         apps/api/src/health/readiness.service.ts and common/transform.interceptor.ts
--   Api/Outage         apps/api/src/redis/redis.provider.ts, the events of the client
--   Worker             apps/worker/src/main.ts
--   System             the API and the worker over one Redis, one queue and one database: Balanced is their common
--                      invariant, Bought and Drained keep it, Started has it from the warm script on; Faults is
--                      the same when Redis, the channel, COMMIT and the worker may fail, while the broker keeps the
--                      messages that have reached it; Faults/Kept is what remains true then
--   LoadTest/Suite     packages/load-test/scripts/run.ts and tests.ts
--   LoadTest/Sale      packages/load-test/scripts/load-sale.ts, prepare.ts and cleanup.ts
--   LoadTest/DrainQueue  packages/load-test/scripts/drain-queue.ts
--   LoadTest/Client    packages/load-test/k6/lib/client.ts and metrics.ts, and the outcome rows of summary.ts
--   LoadTest/Identity  packages/load-test/k6/lib/identity.ts
--   LoadTest/Stages    packages/load-test/k6/config/options.ts and k6/lib/capacity-stages.ts
--   LoadTest/Verify    packages/load-test/scripts/verify.ts
--   Web/AsyncData      apps/web/src/hooks/useAsyncData/useAsyncData.ts; Web/Purchase: usePurchase.ts beside it
--   Web/PurchasePanel  apps/web/src/components/PurchasePanel
--   Web/Session        apps/web/src/context/UserContext, pages/login, components/NavBar and RequireAuth, main.tsx
--   Web/Pages          apps/web/src/pages, components/SaleCard and LiveSaleCard, lib/formatMoney
--   Web/ApiFetch       apps/web/src/api/apiFetch
--   Web/ValidateEmail  apps/web/src/lib/validateEmail; Web/Duration: lib/formatDuration and hooks/useCountdown
--   Examples           servers that satisfy the interfaces, and the theorems at concrete inputs
--
-- State is passed on explicitly: a Redis store, the tables, the messages in the queue, the cache. What the world does
-- (Redis not ready, a lost reply, a channel that is closed, full or loses a message, a COMMIT that fails or whose reply
-- is lost, readings of the clock) is an argument.
-- Processes that run side by side are lists of steps: Redis runs one script at a time, PostgreSQL one transaction in an
-- order, Node one callback at a time.
--
-- Bounds and fuel: numbers are natural numbers; times are milliseconds since the epoch, and stocks are kept from being
-- negative by the checks of the schema. The loop of a flush runs over the attempts that are left, which are maxAttempts
-- at first. The loop of flushSaleKeys runs over the replies of SCAN and is done at cursor 0. Two functions have fuel:
-- waitForQueueDrain one unit for each poll, of which the timeout allows at most one more than it has poll intervals; and
-- the printing of a number one unit for each digit, where the number and one more are given.
--
-- Not modelled: NestJS, React and k6 wiring, environment variables, logging, JSON and ISO 8601 texts, the seed's
-- purchases, the markup and styles of the web application, and the rest of the load test's summary.
-- toLowerCase is modelled on ASCII.
pub mod Prelude
pub mod Redis
pub mod Contract
pub mod Database
pub mod Queue
pub mod Api
pub mod Worker
pub mod System
pub mod LoadTest
pub mod Web
pub mod Examples
