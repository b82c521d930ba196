-- ===== src/Presentation/Consumer.antt =====
-- app/presentation/consumer/main.py: the handler of a message of the queue payments.new, with the
-- gateway and the sender of webhooks as ports.
pub mod Handling
pub mod Keeping
use secunda_test.Infrastructure.Config.{RabbitSettings}
use secunda_test.Base.{
  ℕ, Bool, true, false, Option, none, some, List, Text, lit, Exc, other_error, is_exception,
  if◌then◌else◌, Result, ok, err,
}
use secunda_test.Exec.{Exec, raise, lift, catch, ◌>>=◌, ◌>>◌}
use secunda_test.Py.Uuid.{Uuid, parse_uuid}
use secunda_test.Py.Json.{Json, null, bool, int, float, str, arr, obj, Fields, get_field}
use secunda_test.Application.Interfaces.{PaymentGateway, WebhookSender}
use secunda_test.Application.ProcessPayment.{process_payment}
use secunda_test.Infrastructure.Platform.{System, World, interpreter}
use secunda_test.Infrastructure.Session.{unit_of_work, rollback}
use secunda_test.Infrastructure.Repositories.{payment_repository}
use secunda_test.Presentation.Retry.{Headers, attempt_of, on_failure}

-- `UUID(payload["payment_id"])`: a value that is no string has no `replace`, and a null is refused.
unfoldable pub payment_id_of_field : Option Json → Result Uuid
payment_id_of_field none = err (other_error (lit "KeyError") (lit "'payment_id'"))
payment_id_of_field (some (str s)) = parse_uuid s
payment_id_of_field (some null) = err (
    other_error (lit "TypeError")
      (lit "one of the hex, bytes, bytes_le, fields, or int arguments must be given"))
payment_id_of_field (some (bool b)) =
    err (other_error (lit "AttributeError") (lit "'bool' object has no attribute 'replace'"))
payment_id_of_field (some (int n)) =
    err (other_error (lit "AttributeError") (lit "'int' object has no attribute 'replace'"))
payment_id_of_field (some (float r)) =
    err (other_error (lit "AttributeError") (lit "'float' object has no attribute 'replace'"))
payment_id_of_field (some (arr xs)) =
    err (other_error (lit "AttributeError") (lit "'list' object has no attribute 'replace'"))
payment_id_of_field (some (obj fs)) =
    err (other_error (lit "AttributeError") (lit "'dict' object has no attribute 'replace'"))

unfoldable pub payment_id_of : Fields → Result Uuid
unfolding payment_id_of_field
payment_id_of payload = payment_id_of_field (get_field (lit "payment_id") payload)

module _ (sys : System) (settings : RabbitSettings) (gateway : PaymentGateway World)
    (webhooks : WebhookSender World) where
  -- The use case in its session, whose end rolls back what is not committed.
  unfoldable pub process_in_session : Uuid → Exec World (Unit {0})
  process_in_session id = do
    catch
        (process_payment (payment_repository sys) (unit_of_work sys) gateway webhooks
          (interpreter sys) id)
        (λ e. do rollback; raise e)
    rollback

  -- `except Exception`
  unfoldable pub on_exception : Fields → ℕ → Exc → Exec World (Unit {0})
  on_exception payload attempt e =
      if is_exception e then on_failure sys settings payload attempt e else raise e

  -- `handle_payment_created(payload, message)`
  unfoldable pub handle_payment_created : Fields → Headers → Exec World (Unit {0})
  handle_payment_created payload message = do
    payment_id ← lift (payment_id_of payload)
    attempt ← lift (attempt_of message)
    catch (process_in_session payment_id) (on_exception payload attempt)
