-- ===== src/Api/Common.antt =====
-- apps/api/src/health/readiness.service.ts, common/transform.interceptor.ts and the controllers: what a
-- request is answered with. Routing and validation are left out.
use sd_flash_sale.Prelude.{ℕ, ◌-◌, Option, none, some, Text, codes}
use sd_flash_sale.Prelude.Json.{Value, other, text, object, bare, field}
use sd_flash_sale.Prelude.Result.{Result, ok, throws}
use sd_flash_sale.Contract.{
  DependencyStatus, up, down, RedisReadiness, Readiness, ready, degraded, ReadinessStatus,
}

-- The reply to PING: the time when it comes, or the text of the error
unfoldable pub check_redis : ℕ → Result Text ℕ → RedisReadiness
check_redis started_at (ok answered_at) = record {
  status = up;
  latency_ms = some (answered_at - started_at);
  error = none;
}
check_redis started_at (throws message) = record {
  status = down;
  latency_ms = none;
  error = some message;
}

abbrev pub readiness_of : DependencyStatus → Readiness
readiness_of up = ready
readiness_of down = degraded

unfoldable pub get_status : ℕ → Result Text ℕ → ReadinessStatus
unfolding check_redis
get_status started_at reply =
    let redis = check_redis started_at reply in
    record { status = readiness_of redis.status; redis = redis }

abbrev pub default_message : Text
default_message = codes "Success"

abbrev pub message_of : Option Text → Text
message_of none = default_message
message_of (some message) = message

-- `{ statusCode, message, data }`, of the handler's message, if it has one, and its status code
unfoldable pub intercept : Option Text → ℕ → Value → Value
intercept handler_message status_code content = object (
    field (codes "statusCode") (other status_code) (
      field (codes "message") (text (message_of handler_message))
        (field (codes "data") content bare)))
