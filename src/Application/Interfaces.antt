-- ===== src/Application/Interfaces.antt =====
-- app/application/common/interfaces.py and app/application/payment/interfaces.py: the ports of the
-- use cases, over whatever state stands behind them.
use secunda_test.Base.{Bool, Option, Text}
use secunda_test.Exec.{Exec}
use secunda_test.Py.Uuid.{Uuid}
use secunda_test.Py.Datetime.{Instant}
use secunda_test.Py.Json.{Fields}
use secunda_test.Domain.Payment.{Payment}
use secunda_test.Application.Dto.{StoredPayment, OutboxMessage}

pub record PaymentRepository (S : Type 0) : Type 0 where
  pub add : Payment → Text → Exec S (Unit {0})
  pub get : Uuid → Exec S (Option Payment)
  pub get_by_idempotency_key : Text → Exec S (Option StoredPayment)
  pub update_status : Payment → Exec S Bool

pub record OutboxRepository (S : Type 0) : Type 0 where
  pub add : OutboxMessage → Exec S (Unit {0})

pub record UnitOfWork (S : Type 0) : Type 0 where
  pub commit : Exec S (Unit {0})
  pub rollback : Exec S (Unit {0})

pub record PaymentGateway (S : Type 0) : Type 0 where
  pub charge : Payment → Exec S Bool

pub record WebhookSender (S : Type 0) : Type 0 where
  pub send : Text → Fields → Exec S (Unit {0})

-- What the standard library supplies: `uuid4()` and `datetime.now(UTC)`.
pub record Interpreter (S : Type 0) : Type 0 where
  pub uuid4 : Exec S Uuid
  pub now : Exec S Instant
