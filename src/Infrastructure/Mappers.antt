-- ===== src/Infrastructure/Mappers.antt =====
-- app/infrastructure/db/mappers.py
pub mod RoundTrip
use secunda_test.Base.{Option, none, some, Text, Result, ok}
use secunda_test.Base.Errors.{◌>>=◌}
use secunda_test.Py.Datetime.{Datetime}
use secunda_test.Py.Json.{PyValue, none_value, decimal, string, dict, datetime}
use secunda_test.Domain.Values.{make_amount, make_idempotency_key, make_webhook_url}
use secunda_test.Domain.Payment.{Payment, make_payment}
use secunda_test.Infrastructure.Models.{PaymentModel}

unfoldable pub payment_to_model : Payment → Text → PaymentModel
payment_to_model p request_hash = record {
  id = p.id;
  amount = p.amount.value;
  currency = p.currency;
  description = p.description;
  meta = p.metadata;
  status = p.status;
  idempotency_key = p.idempotency_key.value;
  request_hash = request_hash;
  webhook_url = p.webhook_url.value;
  created_at = p.created_at;
  processed_at = p.processed_at;
}

-- A nullable column, as a Python value.
unfoldable pub nullable : Option Datetime → PyValue
nullable none = none_value
nullable (some t) = datetime t

unfoldable pub payment_from_model : PaymentModel → Result Payment
payment_from_model m = do
  amount ← make_amount (decimal m.amount)
  key ← make_idempotency_key (string m.idempotency_key)
  url ← make_webhook_url (string m.webhook_url)
  make_payment m.id amount m.currency key url m.status (record {
    description = string m.description;
    metadata = dict m.meta;
    created_at = datetime m.created_at;
    processed_at = nullable m.processed_at;
  })
