-- ===== src/Application/Events.antt =====
-- app/application/payment/events.py
use secunda_test.Base.{Option, none, some, Text, lit}
use secunda_test.Py.Uuid.{Uuid, show_uuid}
use secunda_test.Py.Decimal.{show_decimal}
use secunda_test.Py.Datetime.{Datetime, isoformat}
use secunda_test.Py.Json.{Json, null, str, obj, Fields, end, field}
use secunda_test.Domain.Enums.{status_value, currency_value}
use secunda_test.Domain.Payment.{Payment}
use secunda_test.Application.Dto.{OutboxMessage}

unfoldable pub payment_created_name : Text
payment_created_name = lit "payment.created"

-- `payment_created(payment)`; `id` is what `uuid4()` gives the message.
unfoldable pub payment_created : Payment → Uuid → OutboxMessage
payment_created p id = record {
  aggregate_id = p.id;
  event_type = payment_created_name;
  payload = field (lit "payment_id") (str (show_uuid p.id)) (
      field (lit "amount") (str (show_decimal p.amount.value)) (
        field (lit "currency") (str (currency_value p.currency)) (
          field (lit "webhook_url") (str p.webhook_url.value)
            (field (lit "idempotency_key") (str p.idempotency_key.value) end))));
  id = id;
}

iso_or_none : Option Datetime → Json
iso_or_none none = null
iso_or_none (some t) = str (isoformat t)

unfoldable pub webhook_payload : Payment → Fields
unfolding iso_or_none
webhook_payload p = field (lit "payment_id") (str (show_uuid p.id)) (
    field (lit "status") (str (status_value p.status)) (
      field (lit "amount") (str (show_decimal p.amount.value)) (
        field (lit "currency") (str (currency_value p.currency)) (
          field (lit "description") (str p.description) (
            field (lit "metadata") (obj p.metadata) (
              field (lit "created_at") (str (isoformat p.created_at))
                (field (lit "processed_at") (iso_or_none p.processed_at) end)))))))
