-- ===== src/Application/GetPayment.antt =====
-- app/application/payment/use_cases/get_payment.py
use secunda_test.Base.{Option, none, some, ◌++◌, lit, payment_not_found_error, Result, ok, err}
use secunda_test.Exec.{Exec, lift, ◌>>=◌}
use secunda_test.Py.Uuid.{Uuid, show_uuid}
use secunda_test.Domain.Payment.{Payment}
use secunda_test.Application.Interfaces.{PaymentRepository}

-- `if payment is None: raise PaymentNotFoundError(...)`
unfoldable pub found : Uuid → Option Payment → Result Payment
found id none = err (payment_not_found_error (lit "Платёж " ++ (show_uuid id ++ lit " не найден")))
found id (some p) = ok p

-- `GetPaymentUseCase.__call__`
unfoldable pub get_payment : {S : Type 0} → PaymentRepository S → Uuid → Exec S Payment
get_payment payments id = do payment ← payments.get id; lift (found id payment)
