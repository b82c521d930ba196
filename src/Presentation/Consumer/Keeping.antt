-- ===== src/Presentation/Consumer/Keeping.antt =====
-- app/presentation/consumer/main.py: the tables and the session under the handler of a message.
use mathlib.Core.Path.{subst}
use secunda_test.Infrastructure.Config.{RabbitSettings}
use secunda_test.Base.{
  ℕ, ◌≡◌, refl, sym, Exc, is_exception, Bool-cases, inl, inr, Result, ok, err, leb, Text,
}
use secunda_test.Exec.{catch, continue-keeps, catch-keeps, raise, ◌>>◌}
use secunda_test.Py.Uuid.{Uuid}
use secunda_test.Py.Json.{Fields}
use secunda_test.Domain.Payment.{Payment}
use secunda_test.Application.Interfaces.{PaymentGateway, WebhookSender}
use secunda_test.Infrastructure.Models.{Tables}
use secunda_test.Infrastructure.Platform.{System, World, publish}
use secunda_test.Infrastructure.Platform.Laws.{IsLawful}
use secunda_test.Infrastructure.Session.{rollback}
use secunda_test.Infrastructure.Session.Working.{Working}
use secunda_test.Service.NewPayment.{SameSession}
use secunda_test.Service.Processing.{process_use_case, IsQuiet, process-Working}
use secunda_test.Service.Settled.{
  Settled, same_session, publish-IsQuiet, quiet-Settled, rollback-Settled,
}
use secunda_test.Presentation.Retry.{
  Headers, attempt_of, on_failure, to_retry, to_dlq, delay_of, retry_message, dead_message,
}
use secunda_test.Presentation.Consumer.{
  payment_id_of, process_in_session, on_exception, handle_payment_created,
}

-- The retry policy leaves the database alone.
on_failure-IsQuiet :
    (sys : System) (settings : RabbitSettings) (payload : Fields) (attempt : ℕ) (e : Exc)
    → IsQuiet (on_failure sys settings payload attempt e)
unfolding on_failure to_retry to_dlq
on_failure-IsQuiet sys settings payload attempt e w =
    elim (Bool-cases (leb settings.max_delivery_attempts attempt)) [
      | inl h ↦ rw h (publish-IsQuiet sys (dead_message payload attempt e) w)
      | inr h ↦ rw h (
          continue-keeps (SameSession w) (delay_of settings attempt)
            (λ delay. publish sys (retry_message payload attempt e delay)) w (same_session w)
            (λ delay. publish-IsQuiet sys (retry_message payload attempt e delay) w))
    ]

module _ {sys : System} (lawful : IsLawful sys) (settings : RabbitSettings)
    (gateway : PaymentGateway World) (webhooks : WebhookSender World)
    (quiet_gateway : (p : Payment) → IsQuiet (gateway.charge p))
    (quiet_webhooks : (url : Text) (payload : Fields) → IsQuiet (webhooks.send url payload))
    (t : Tables) where
  -- However the use case ends, its session ends by a rollback.
  session_end :
      (q : Result (Unit {0}) × World)
      → (((catch (λ w. q) (λ e. do rollback; raise e)) >> rollback) q.1).1 ≡ (rollback q.1).1
  unfolding rollback
  session_end (ok u, w) = refl
  session_end (err e, w) = refl

  pub process_in_session-Settled :
      (id : Uuid) (w : World)
      → Settled t w
      → Settled t (process_in_session sys settings gateway webhooks id w).1
  unfolding process_in_session process_use_case
  process_in_session-Settled id w h =
      let v : World = (process_use_case sys gateway webhooks id w).1 in
      let hv : Working t v =
        process-Working lawful gateway webhooks quiet_gateway quiet_webhooks t id w h.working in
      subst (Settled t) (sym (session_end (process_use_case sys gateway webhooks id w)))
        (rollback-Settled t v hv.valid hv.evolved)

  on_exception-Settled :
      (payload : Fields) (attempt : ℕ) (e : Exc) (w : World)
      → Settled t w
      → Settled t (on_exception sys settings gateway webhooks payload attempt e w).1
  unfolding on_exception
  on_exception-Settled payload attempt e w h = elim (Bool-cases (is_exception e)) [
    | inl c ↦ rw c (
        quiet-Settled t (on_failure sys settings payload attempt e) w
          (on_failure-IsQuiet sys settings payload attempt e) h)
    | inr c ↦ rw c h
  ]

  pub handle-Settled :
      (payload : Fields) (message : Headers) (w : World)
      → Settled t w
      → Settled t (handle_payment_created sys settings gateway webhooks payload message w).1
  unfolding handle_payment_created
  handle-Settled payload message w h =
      continue-keeps (Settled t) (payment_id_of payload) _ w h (λ id.
        continue-keeps (Settled t) (attempt_of message)
          (λ attempt.
            catch (process_in_session sys settings gateway webhooks id)
              (on_exception sys settings gateway webhooks payload attempt))
          w h
          (λ attempt.
            catch-keeps (Settled t) (process_in_session sys settings gateway webhooks id)
              (on_exception sys settings gateway webhooks payload attempt) w
              (process_in_session-Settled id w h)
              (λ e. on_exception-Settled payload attempt e _ (process_in_session-Settled id w h))))
