-- ===== src/Examples/Data.antt =====
-- A request for a payment, the payment that it asks for, and a database that holds it.
use secunda_test.Base.{◌≡◌, refl, false, none, [], ◌∷◌, Text, lit, ok}
use secunda_test.Py.Strings.{is_space}
use secunda_test.Py.Numbers.{negsuc}
use secunda_test.Py.Decimal.{Decimal, finite, is_finite, is_negative, decimal_places}
use secunda_test.Py.Datetime.{in_utc}
use secunda_test.Py.Json.{end, decimal, string}
use secunda_test.Py.Url.{urlparse}
use secunda_test.Domain.Enums.{pending, rub}
use secunda_test.Domain.Values.{
  make_amount, make_idempotency_key, make_webhook_url, is_allowed_scheme, check_parsed,
}
use secunda_test.Domain.Payment.{Payment}
use secunda_test.Domain.Payment.Invariant.{IsPayment}
use secunda_test.Application.Dto.{CreatePaymentCommand}
use secunda_test.Application.Events.{payment_created}
use secunda_test.Infrastructure.Models.{PaymentModel, Tables}
use secunda_test.Infrastructure.Mappers.{payment_to_model}
use secunda_test.Infrastructure.Mappers.RoundTrip.{payment_from_model-payment_to_model}
use secunda_test.Infrastructure.Invariant.{IsTables}
use secunda_test.Infrastructure.Platform.{World}
use secunda_test.Infrastructure.Repositories.{outbox_row}
use secunda_test.Infrastructure.Platform.Insert.{store-IsEventOf}
use secunda_test.Examples.Lawful.{memory-IsLawful}
use secunda_test.Examples.Memory.{memory, start_of_2026, empty_world}

-- 10.50
abbrev pub ten_fifty : Decimal
ten_fifty = finite false 1050 (negsuc 1)

abbrev pub hook : Text
hook = lit "https://shop.example/hook"

abbrev pub key_one : Text
key_one = lit "order-1"

abbrev pub command : CreatePaymentCommand
command = record {
  amount = ten_fifty;
  currency = rub;
  description = lit "book";
  metadata = end;
  webhook_url = hook;
  idempotency_key = key_one;
  request_hash = lit "5f";
}

abbrev pub payment : Payment
payment = record {
  id = 1;
  amount = record { value = ten_fifty };
  currency = rub;
  description = lit "book";
  idempotency_key = record { value = key_one };
  webhook_url = record { value = hook };
  status = pending;
  created_at = in_utc start_of_2026;
  processed_at = none;
  metadata = end;
}

pub amount-is_accepted : make_amount (decimal ten_fifty) ≡ ok (record { value = ten_fifty })
unfolding make_amount is_finite is_negative decimal_places
amount-is_accepted = refl

pub key-is_accepted : make_idempotency_key (string key_one) ≡ ok (record { value = key_one })
unfolding make_idempotency_key lit is_space
key-is_accepted = refl

pub hook-is_accepted : make_webhook_url (string hook) ≡ ok (record { value = hook })
unfolding make_webhook_url check_parsed is_allowed_scheme urlparse lit
hook-is_accepted = refl

pub payment-IsPayment : IsPayment payment
payment-IsPayment = record {
  amount = amount-is_accepted;
  key = key-is_accepted;
  url = hook-is_accepted;
  created = tt;
  processed = refl;
}

abbrev pub row : PaymentModel
row = payment_to_model payment (lit "5f")

abbrev pub tables : Tables
tables = record { payments = row ∷ []; outbox = outbox_row (payment_created payment 2) ∷ [] }

pub tables-IsTables : IsTables tables
unfolding memory payment_to_model outbox_row
tables-IsTables = record {
  distinct = (tt, tt, tt);
  rows = (
    record {
      payment = payment;
      reads = payment_from_model-payment_to_model payment (lit "5f") payment-IsPayment;
      valid = payment-IsPayment;
    },
    tt,
  );
  announced = (store-IsEventOf memory-IsLawful payment (lit "5f") 2 0, tt);
}

abbrev pub world : World
world = record empty_world { tables = tables }
