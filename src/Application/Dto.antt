-- ===== src/Application/Dto.antt =====
-- app/application/payment/dto.py and app/application/common/outbox.py
use secunda_test.Base.{Bool, Text}
use secunda_test.Py.Uuid.{Uuid}
use secunda_test.Py.Decimal.{Decimal}
use secunda_test.Py.Json.{Fields}
use secunda_test.Domain.Enums.{Currency}
use secunda_test.Domain.Payment.{Payment}

pub record CreatePaymentCommand : Type 0 where
  pub amount : Decimal
  pub currency : Currency
  pub description : Text
  pub metadata : Fields
  pub webhook_url : Text
  pub idempotency_key : Text
  pub request_hash : Text

pub record StoredPayment : Type 0 where
  pub payment : Payment
  pub request_hash : Text

pub record CreatePaymentResult : Type 0 where
  pub payment : Payment
  pub created : Bool

pub record OutboxMessage : Type 0 where
  pub aggregate_id : Uuid
  pub event_type : Text
  pub payload : Fields
  pub id : Uuid
