-- ===== src/Presentation/Api.antt =====
-- app/presentation/api: the key check, the endpoints of payments and the responses to exceptions.
-- FastAPI and pydantic stand outside: a request that they refuse does not reach these functions.
pub mod Checks
pub mod Hashing
pub mod Requests
pub mod Returning
use secunda_test.Base.{
  ℕ, ◌||◌, Bool, true, false, not, Option, none, some, if◌then◌else◌, Text, lit, text_eq, Exc,
  domain_error, invalid_status_transition_error, payment_not_found_error,
  idempotency_conflict_error, duplicate_idempotency_key_error, webhook_delivery_error,
  integrity_error, retry_error, http_exception, http_error, other_error, cancelled_error, Result,
  ok, err, any, ltb, leb,
}
use secunda_test.Exec.{Exec, pure, raise, lift, catch, ◌>>=◌, ◌>>◌}
use secunda_test.Py.Uuid.{Uuid}
use secunda_test.Py.Decimal.{Decimal}
use secunda_test.Py.Datetime.{Datetime}
use secunda_test.Py.Json.{Fields}
use secunda_test.Domain.Enums.{Currency, PaymentStatus}
use secunda_test.Domain.Payment.{Payment}
use secunda_test.Application.Dto.{CreatePaymentCommand, CreatePaymentResult}
use secunda_test.Infrastructure.Platform.{System, World}
use secunda_test.Infrastructure.Session.{rollback}
use secunda_test.Service.{create_use_case, get_use_case}

-- A validated body; `webhook_url` is the text of its `HttpUrl`.
pub record CreatePaymentRequest : Type 0 where
  pub amount : Decimal
  pub currency : Currency
  pub description : Text
  pub metadata : Fields
  pub webhook_url : Text

pub record PaymentAcceptedResponse : Type 0 where
  pub payment_id : Uuid
  pub status : PaymentStatus
  pub created_at : Datetime

pub record PaymentResponse : Type 0 where
  pub id : Uuid
  pub amount : Decimal
  pub currency : Currency
  pub description : Text
  pub metadata : Fields
  pub status : PaymentStatus
  pub idempotency_key : Text
  pub webhook_url : Text
  pub created_at : Datetime
  pub processed_at : Option Datetime

unfoldable pub accepted_from_domain : Payment → PaymentAcceptedResponse
accepted_from_domain p = record { payment_id = p.id; status = p.status; created_at = p.created_at }

unfoldable pub response_from_domain : Payment → PaymentResponse
response_from_domain p = record {
  id = p.id;
  amount = p.amount.value;
  currency = p.currency;
  description = p.description;
  metadata = p.metadata;
  status = p.status;
  idempotency_key = p.idempotency_key.value;
  webhook_url = p.webhook_url.value;
  created_at = p.created_at;
  processed_at = p.processed_at;
}

-- `require_api_key(settings, api_key)`; `compare_digest` refuses two strings that are not both
-- ASCII.
unfoldable pub require_api_key : Text → Option Text → Result (Unit {0})
require_api_key expected none =
    err (http_exception 401 (lit "Неверный или отсутствующий заголовок X-API-Key"))
require_api_key expected (some key) =
    if any (leb 128) key || any (leb 128) expected
    then err (
        other_error (lit "TypeError")
          (lit "comparing strings with non-ASCII characters is not supported"))
    else if text_eq key expected
    then ok tt
    else err (http_exception 401 (lit "Неверный или отсутствующий заголовок X-API-Key"))

-- `{"detail": ...}` with its status code.
pub record ErrorResponse : Type 0 where
  pub status_code : ℕ
  pub detail : Text

-- The response that a registered handler makes of an exception, by its class; `none` where none is
-- registered, so that the server answers with its own error.
unfoldable pub error_response : Exc → Option ErrorResponse
error_response (payment_not_found_error m) = some (record { status_code = 404; detail = m })
error_response (idempotency_conflict_error m) = some (record { status_code = 409; detail = m })
error_response (domain_error m) = some (record { status_code = 422; detail = m })
error_response (invalid_status_transition_error m) = some (record { status_code = 422; detail = m })
error_response (http_exception code m) = some (record { status_code = code; detail = m })
error_response (duplicate_idempotency_key_error m) = none
error_response (webhook_delivery_error m) = none
error_response (integrity_error m) = none
error_response (retry_error m) = none
error_response (http_error name m) = none
error_response (other_error name m) = none
error_response cancelled_error = none

-- The sha256 of the body's canonical JSON is what `request_hash` is given as.
module _ (sys : System) (request_hash : CreatePaymentRequest → Text) where
  -- `get_session`: the end of the request rolls back what is not committed.
  unfoldable pub in_session : {A : Type 0} → Exec World A → Exec World A
  in_session m = do a ← catch m (λ e. do rollback; raise e); rollback; pure a

  unfoldable pub command_of : CreatePaymentRequest → Text → CreatePaymentCommand
  command_of body key = record {
    amount = body.amount;
    currency = body.currency;
    description = body.description;
    metadata = body.metadata;
    webhook_url = body.webhook_url;
    idempotency_key = key;
    request_hash = request_hash body;
  }

  -- `create_payment(body, create, idempotency_key)`
  unfoldable pub create_endpoint : CreatePaymentRequest → Text → Exec World PaymentAcceptedResponse
  create_endpoint body key = in_session do
    result ← create_use_case sys (command_of body key)
    pure (accepted_from_domain result.payment)

  -- `get_payment(payment_id, get)`
  unfoldable pub get_endpoint : Uuid → Exec World PaymentResponse
  get_endpoint id = in_session do p ← get_use_case sys id; pure (response_from_domain p)
