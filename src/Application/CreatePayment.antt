-- ===== src/Application/CreatePayment.antt =====
-- app/application/payment/use_cases/create_payment.py
use secunda_test.Base.{
  true, false, not, Option, none, some, ◌++◌, if◌then◌else◌, lit, text_eq, Exc,
  idempotency_conflict_error, duplicate_idempotency_key_error, Result, ok, err,
}
use secunda_test.Exec.{Exec, pure, raise, lift, catch, ◌>>=◌, ◌>>◌}
use secunda_test.Py.Json.{none_value, decimal, string, dict}
use secunda_test.Domain.Values.{make_amount, make_idempotency_key, make_webhook_url}
use secunda_test.Domain.Payment.{Payment, create}
use secunda_test.Application.Dto.{CreatePaymentCommand, StoredPayment, CreatePaymentResult}
use secunda_test.Application.Interfaces.{
  PaymentRepository, OutboxRepository, UnitOfWork, Interpreter,
}
use secunda_test.Application.Events.{payment_created}

-- `_replay(existing, command)`
unfoldable pub replay : StoredPayment → CreatePaymentCommand → Result Payment
replay existing command =
    if not (text_eq existing.request_hash command.request_hash)
    then err (
        idempotency_conflict_error (
          lit "Ключ идемпотентности "
          ++ (command.idempotency_key ++ lit " уже использован с другим телом запроса")))
    else ok existing.payment

module _ {S : Type 0} (payments : PaymentRepository S) (outbox : OutboxRepository S)
    (uow : UnitOfWork S) (python : Interpreter S) where
  unfoldable pub replayed : StoredPayment → CreatePaymentCommand → Exec S CreatePaymentResult
  replayed existing command = do
    payment ← lift (replay existing command)
    pure (record { payment = payment; created = false })

  -- The payment that the command asks for: the value objects first, then the identifier and the
  -- time.
  unfoldable pub new_payment : CreatePaymentCommand → Exec S Payment
  new_payment command = do
    amount ← lift (make_amount (decimal command.amount))
    key ← lift (make_idempotency_key (string command.idempotency_key))
    url ← lift (make_webhook_url (string command.webhook_url))
    fresh ← python.uuid4
    now ← python.now
    lift (
        create amount command.currency key url (string command.description) (dict command.metadata)
          none none_value fresh now)

  unfoldable pub after_race :
      CreatePaymentCommand → Exc → Option StoredPayment → Exec S CreatePaymentResult
  after_race command e none = raise e
  after_race command e (some existing) = replayed existing command

  -- `except DuplicateIdempotencyKeyError`; any other exception goes on.
  unfoldable pub on_commit_error : CreatePaymentCommand → Exc → Exec S CreatePaymentResult
  on_commit_error command (duplicate_idempotency_key_error m) = do
    uow.rollback
    existing ← payments.get_by_idempotency_key command.idempotency_key
    after_race command (duplicate_idempotency_key_error m) existing
  on_commit_error command e = raise e

  unfoldable pub create_new : CreatePaymentCommand → Exec S CreatePaymentResult
  create_new command = do
    payment ← new_payment command
    payments.add payment command.request_hash
    message_id ← python.uuid4
    outbox.add (payment_created payment message_id)
    catch (do uow.commit; pure (record { payment = payment; created = true }))
        (on_commit_error command)

  unfoldable pub or_create :
      CreatePaymentCommand → Option StoredPayment → Exec S CreatePaymentResult
  or_create command none = create_new command
  or_create command (some existing) = replayed existing command

  -- `CreatePaymentUseCase.__call__`
  unfoldable pub create_payment : CreatePaymentCommand → Exec S CreatePaymentResult
  create_payment command = do
    existing ← payments.get_by_idempotency_key command.idempotency_key
    or_create command existing
