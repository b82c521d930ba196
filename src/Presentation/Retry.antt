-- ===== src/Presentation/Retry.antt =====
-- app/presentation/consumer/retry.py. A delay is a number of the unit in which the base delay is a
-- whole number: a float is multiplied by a power of two without rounding.
pub mod Lifecycle
pub mod Routing
use secunda_test.Infrastructure.Config.{RabbitSettings}
use secunda_test.Base.{
  ℕ, zero, suc, ◌+◌, ◌-◌, ◌*◌, ◌^◌, Bool, true, false, Option, none, some, List, [], ◌∷◌, ◌++◌,
  if◌then◌else◌, leb, Text, lit, text_eq, take, Exc, class_name, message_of, other_error, Result,
  ok, err,
}
use secunda_test.Exec.{Exec, lift, ◌>>=◌}
use secunda_test.Py.Numbers.{ℤ, pos, negsuc, int_of_text}
use secunda_test.Py.Json.{Fields}
use secunda_test.Infrastructure.Topology.{dlx_exchange, retry_routing_key, dead_routing_key}
use secunda_test.Infrastructure.Platform.{
  System, World, Publication, HeaderValue, number, text, real, real_nan, real_infinity, object,
  publish,
}

abbrev pub Headers : Type 0
Headers = List (Text × HeaderValue)

unfoldable pub attempt_header : Text
attempt_header = lit "x-attempt"

unfoldable pub error_header : Text
error_header = lit "x-error"

abbrev pub max_error_length : ℕ
max_error_length = 200

-- `message.headers.get(key, default)`
unfoldable pub header_or : Text → HeaderValue → Headers → HeaderValue
header_or key default [] = default
header_or key default (h ∷ hs) = if text_eq key h.0 then h.1 else header_or key default hs

-- `max(n, 1)`
unfoldable pub at_least_one : ℤ → ℕ
at_least_one (pos zero) = 1
at_least_one (pos (suc n)) = suc n
at_least_one (negsuc n) = 1

-- `max(int(raw), 1)`, and 1 for a `TypeError` or a `ValueError`; `int` of an infinite float raises
-- `OverflowError`, which is neither.
unfoldable pub attempt_of_value : HeaderValue → Result ℕ
unfolding at_least_one
attempt_of_value (number n) = ok (at_least_one n)
attempt_of_value (text s) = elim (int_of_text 10 s) [ none ↦ ok 1 | some n ↦ ok (at_least_one n) ]
attempt_of_value (real n) = ok (at_least_one n)
attempt_of_value real_nan = ok 1
attempt_of_value real_infinity =
    err (other_error (lit "OverflowError") (lit "cannot convert float infinity to integer"))
attempt_of_value (object name) = ok 1

-- `attempt_of(message)`
unfoldable pub attempt_of : Headers → Result ℕ
unfolding attempt_of_value header_or
attempt_of hs = attempt_of_value (header_or attempt_header (number (pos 1)) hs)

-- `f"{type(error).__name__}: {error}"[:_MAX_ERROR_LENGTH]`
unfoldable pub error_text : Exc → Text
error_text e = take max_error_length (class_name e ++ (lit ": " ++ message_of e))

-- `_headers(attempt, error)`
unfoldable pub headers : ℕ → Exc → Headers
headers attempt e =
    (attempt_header, number (pos attempt)) ∷ (error_header, text (error_text e)) ∷ []

-- `base * 2 ** (attempt - 1)`; a power of two from `2 ** 1024` on is no float.
unfoldable pub delay_of : RabbitSettings → ℕ → Result ℕ
delay_of settings attempt =
    if leb 1024 (attempt - 1)
    then err (other_error (lit "OverflowError") (lit "int too large to convert to float"))
    else ok (settings.retry_base_delay * 2 ^ (attempt - 1))

-- What `_to_retry` and `_to_dlq` publish.
unfoldable pub retry_message : Fields → ℕ → Exc → ℕ → Publication
unfolding headers
retry_message payload attempt e delay = record {
  payload = payload;
  exchange = dlx_exchange.name;
  routing_key = retry_routing_key;
  headers = headers (attempt + 1) e;
  expiration = some delay;
  message_id = none;
  persist = true;
}

unfoldable pub dead_message : Fields → ℕ → Exc → Publication
unfolding headers
dead_message payload attempt e = record {
  payload = payload;
  exchange = dlx_exchange.name;
  routing_key = dead_routing_key;
  headers = headers attempt e;
  expiration = none;
  message_id = none;
  persist = true;
}

module _ (sys : System) (settings : RabbitSettings) where
  unfoldable pub to_retry : Fields → ℕ → Exc → Exec World (Unit {0})
  to_retry payload attempt e = do
    delay ← lift (delay_of settings attempt)
    publish sys (retry_message payload attempt e delay)

  unfoldable pub to_dlq : Fields → ℕ → Exc → Exec World (Unit {0})
  to_dlq payload attempt e = publish sys (dead_message payload attempt e)

  -- `on_failure(payload, attempt, error)`
  unfoldable pub on_failure : Fields → ℕ → Exc → Exec World (Unit {0})
  unfolding to_retry to_dlq
  on_failure payload attempt e =
      if leb settings.max_delivery_attempts attempt
      then to_dlq payload attempt e
      else to_retry payload attempt e
