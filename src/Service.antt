-- ===== src/Service.antt =====
-- The use cases wired to the repositories of one session: get_create_payment_use_case and
-- get_get_payment_use_case of app/presentation/api/dependencies.py.
pub mod NewPayment
pub mod Creating
pub mod Keeping
pub mod Replaying
pub mod Stored
pub mod Durable
pub mod Idempotent
pub mod Success
pub mod Processing
pub mod Standing
pub mod Rows
pub mod Announcing
pub mod Telling
pub mod Settled
pub mod Relaying
pub mod Batches
pub mod Marking
pub mod Passing
pub mod Charging
pub mod Awake
pub mod Turning
pub mod Quiet
use secunda_test.Exec.{Exec}
use secunda_test.Py.Uuid.{Uuid}
use secunda_test.Domain.Payment.{Payment}
use secunda_test.Application.Dto.{CreatePaymentCommand, CreatePaymentResult}
use secunda_test.Application.CreatePayment.{create_payment}
use secunda_test.Application.GetPayment.{get_payment}
use secunda_test.Infrastructure.Platform.{System, World, interpreter}
use secunda_test.Infrastructure.Session.{unit_of_work}
use secunda_test.Infrastructure.Repositories.{payment_repository, outbox_repository}

unfoldable pub create_use_case : System → CreatePaymentCommand → Exec World CreatePaymentResult
create_use_case sys =
    create_payment (payment_repository sys) outbox_repository (unit_of_work sys) (interpreter sys)

unfoldable pub get_use_case : System → Uuid → Exec World Payment
get_use_case sys = get_payment (payment_repository sys)
