-- ===== src/Application/ProcessPayment/Cases.antt =====
-- app/application/payment/use_cases/process_payment.py: a payment that is processed, over any ports.
use secunda_test.Base.{◌≡◌, true, some, ok}
use secunda_test.Exec.{Exec}
use secunda_test.Py.Uuid.{Uuid}
use secunda_test.Domain.Payment.{Payment, is_processed}
use secunda_test.Application.Interfaces.{
  PaymentRepository, UnitOfWork, PaymentGateway, WebhookSender, Interpreter,
}
use secunda_test.Application.Events.{webhook_payload}
use secunda_test.Application.GetPayment.{found}
use secunda_test.Application.ProcessPayment.{process_payment}

module _ {S : Type 0} (payments : PaymentRepository S) (uow : UnitOfWork S)
    (gateway : PaymentGateway S) (webhooks : WebhookSender S) (python : Interpreter S)
    (id : Uuid) where
  abbrev process : Exec S (Unit {0})
  process = process_payment payments uow gateway webhooks python id

  abbrev notify : Payment → Exec S (Unit {0})
  notify p = webhooks.send p.webhook_url.value (webhook_payload p)

  -- A payment that is processed is not charged again, and nothing is written: the only step after
  -- reading it is the webhook of its stored state.
  pub process_payment-processed :
      (p : Payment) (s s' : S)
      → payments.get id s ≡ (ok (some p), s')
      → is_processed p ≡ true
      → process s ≡ notify p s'
  unfolding process_payment found
  process_payment-processed p s s' stored processed = rw (stored, processed)
