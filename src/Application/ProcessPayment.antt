-- ===== src/Application/ProcessPayment.antt =====
-- app/application/payment/use_cases/process_payment.py
pub mod Cases
use secunda_test.Base.{Bool, true, false, not, Option, none, some, if◌then◌else◌, Result}
use secunda_test.Exec.{Exec, pure, lift, ◌>>=◌, ◌>>◌}
use secunda_test.Py.Uuid.{Uuid}
use secunda_test.Py.Datetime.{Instant}
use secunda_test.Py.Json.{none_value}
use secunda_test.Domain.Payment.{Payment, is_processed, mark_succeeded, mark_failed}
use secunda_test.Application.Interfaces.{
  PaymentRepository, UnitOfWork, PaymentGateway, WebhookSender, Interpreter,
}
use secunda_test.Application.Events.{webhook_payload}
use secunda_test.Application.GetPayment.{found}

-- `payment.mark_succeeded()` or `payment.mark_failed()`
unfoldable pub marked : Bool → Instant → Payment → Result (Unit {0}) × Payment
marked true now p = mark_succeeded none_value now p
marked false now p = mark_failed none_value now p

unfoldable pub current_or : Payment → Option Payment → Payment
current_or p none = p
current_or p (some q) = q

module _ {S : Type 0} (payments : PaymentRepository S) (uow : UnitOfWork S)
    (gateway : PaymentGateway S) (webhooks : WebhookSender S) (python : Interpreter S) where
  unfoldable pub after_update : Payment → Bool → Exec S Payment
  after_update p true = pure p
  after_update p false = do current ← payments.get p.id; pure (current_or p current)

  -- `_charge(payment)`
  unfoldable pub charge : Payment → Exec S Payment
  charge p = do
    succeeded ← gateway.charge p
    now ← python.now
    let (outcome, settled) = marked succeeded now p
    lift outcome
    applied ← payments.update_status settled
    uow.commit
    after_update settled applied

  -- `ProcessPaymentUseCase.__call__`
  unfoldable pub process_payment : Uuid → Exec S (Unit {0})
  process_payment id = do
    stored ← payments.get id
    payment ← lift (found id stored)
    final ← if not (is_processed payment) then charge payment else pure payment
    webhooks.send final.webhook_url.value (webhook_payload final)
